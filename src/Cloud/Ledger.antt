-- ===== src/Cloud/Ledger.antt =====
-- What a provider promises of one address, with no regard to how the cloud represents it: the owners
-- that have the address, and what an assignment, a release and a move make of them.
use cloud_network_config_con.Base.{Option, true, ◌≡◌, ◌≢◌, ◌↔◌}
use cloud_network_config_con.Effect.{M}
use cloud_network_config_con.Cloud.{Net, Node, CloudProvider}

-- Whether an owner has the address.
abbrev pub Ledger : Type 0 → Type 1
Ledger Owner = Owner → Type 0

pub data Op (Owner : Type 0) : Type 0 where
  give take : Owner → Op Owner
  -- To the first owner from the second one.
  pass : Owner → Owner → Op Owner

-- All owners that the operation does not name have what they had.
unfoldable pub Step : {Owner : Type 0} → Op Owner → Ledger Owner → Ledger Owner → Type 0
Step {Owner} (give a) l m = m a × ((b : Owner) → b ≢ a → l b ↔ m b)
Step {Owner} (take d) l m = ¬ m d × ((b : Owner) → b ≢ d → l b ↔ m b)
Step {Owner} (pass a d) l m = m a × ¬ m d × ((b : Owner) → b ≢ a → b ≢ d → l b ↔ m b)

-- The calls of a provider that change who has the address.
pub data Request : Type 0 where
  assign release : Node → Request
  move : Node → Node → Request

unfoldable pub perform :
    {N : Net} {S : Type 0} → CloudProvider N S → Option N.Addr → Request → M S (Unit {0})
perform P ip (assign node) = P.assign_private_ip ip node
perform P ip (release node) = P.release_private_ip ip node
perform P ip (move to_add to_del) = P.move_private_ip ip to_add to_del

-- The operation that a request asks for, where nodes name owners; a move goes to another owner.
unfoldable pub Asks : {Owner : Type 0} → (Node → Owner → Type 0) → Request → Op Owner → Type 0
Asks names (assign node) (give a) = names node a
Asks names (release node) (take d) = names node d
Asks names (move to_add to_del) (pass a d) = names to_add a × names to_del d × (a ≢ d)
Asks names r o = ⊥

-- A move is asked only of a provider that moves addresses.
unfoldable pub IsAllowed : {N : Net} {S : Type 0} → CloudProvider N S → Request → Type 0
IsAllowed P (assign node) = Unit {0}
IsAllowed P (release node) = Unit {0}
IsAllowed P (move to_add to_del) = P.allows_move_private_ip ≡ true
