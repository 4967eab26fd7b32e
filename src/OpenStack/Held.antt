-- ===== src/OpenStack/Held.antt =====
-- What a success of an assignment on OpenStack means.
use cloud_network_config_con.Base.{
  String, List, [], ◌∷◌, Option, none, some, true, ◌≡◌, Bool-cases, inl, inr, ◌==◌, string_eq, any,
  arith, beq_refl,
}
use cloud_network_config_con.Effect.{ok, M, lift, optional}
use cloud_network_config_con.Effect.Ensures.{Ensures, Anywhere, anything, bind_rule, weaken}
use cloud_network_config_con.Cloud.{Net, Node}
use cloud_network_config_con.OpenStack.{
  Port, Subnet, Neutron, is_allowed, get_server_id, list_server_ports, get_subnets,
}
use cloud_network_config_con.OpenStack.Assign.{
  matching_subnet, or_nothing, chosen, find_in_ports, find_subnet_and_port,
}
use cloud_network_config_con.OpenStack.Store.{Store}
use cloud_network_config_con.OpenStack.Cleared.{Left, Attached, list_rule}

abbrev Among : {S : Type 0} → List Port → Subnet × Port → S → Type 0
Among ps found s = any (λ p. p.id == found.1.id) ps ≡ true

module _ (N : Net) {S : Type 0} (E : Neutron S) (ip : Option N.Addr) (node : Node) where
  chosen_lem :
      (p : Port) (ps : List Port) (rest : M S (Subnet × Port)) (o : Option Subnet)
      → Ensures Anywhere rest (Among ps) Anywhere
      → Ensures Anywhere (chosen N E p o rest) (Among (p ∷ ps)) Anywhere
  chosen_lem p ps rest none h =
      weaken Anywhere (Among ps) (Among (p ∷ ps)) Anywhere Anywhere rest h
        (λ found t h. ground (arith, h)) (λ t _. tt)
  chosen_lem p ps rest (some sub) h = λ t _. ground (arith, beq_refl p.id)

  -- The port that is found is one of those listed.
  found_lem : (ps : List Port) → Ensures Anywhere (find_in_ports N E ip node ps) (Among ps) Anywhere
  unfolding find_in_ports
  found_lem [] s _ = tt
  found_lem (p ∷ ps) s _ = elim (Bool-cases (is_allowed N p ip)) [
    | inl h ↦ rw h tt
    | inr h ↦ rw h (
        bind_rule Anywhere Anywhere (λ _. Anywhere) (Among (p ∷ ps))
          (optional (get_subnets E p.network_id)) _
          (anything (optional (get_subnets E p.network_id)))
          (λ subnets.
            bind_rule Anywhere Anywhere (λ _. Anywhere) (Among (p ∷ ps))
              (lift (matching_subnet N ip node p none (or_nothing N subnets))) _
              (anything (lift (matching_subnet N ip node p none (or_nothing N subnets))))
              (λ o. chosen_lem p ps (find_in_ports N E ip node ps) o (found_lem ps)))
          s tt)
  ]

module _ {N : Net} {S : Type 0} {E : Neutron S} {ip : Option N.Addr} (X : Store N E ip) where
  -- Some port of the server allows the address.
  abbrev pub Held : String → S → Type 0
  Held server s = (q : String) × (X.attached server q ≡ true) × (X.allows s q ≡ true)

  pub port_found :
      (node : Node) (server : String)
      → get_server_id E node.provider_id ≡ ok server
      → Ensures Anywhere
          (find_subnet_and_port N E ip node)
          (λ found s. X.attached server found.1.id ≡ true)
          Anywhere
  unfolding find_subnet_and_port Attached
  port_found node server h = rw h (
      bind_rule Anywhere Anywhere (λ ps s. Left X server ps s × Attached X server ps)
        (λ found s. X.attached server found.1.id ≡ true) (list_server_ports E server)
        (find_in_ports N E ip node) (list_rule X server)
        (λ ps s (l, a).
          weaken Anywhere (Among ps) (λ found s. X.attached server found.1.id ≡ true) Anywhere
            Anywhere (find_in_ports N E ip node ps) (found_lem N E ip node ps)
            (λ found t m. a found.1.id m) (λ t _. tt) s tt))
