-- ===== src/Config/Op/Laws.antt =====
-- The four ways that `computeOp` decides.
use cloud_network_config_con.Base.{true, false, ◌≡◌, ◌≢◌, ◌&&◌, ◌⊎◌, arith, eq_iff, Bool}
use cloud_network_config_con.Effect.{ok}
use cloud_network_config_con.Config.Object.{Config, is_deleting, contains_finalizer}
use cloud_network_config_con.Config.Op.{compute_op, is_unsuccessful}

-- Our finalizer does not yet call for a deletion.
abbrev pub IsLive : Config → Type 0
IsLive c = (is_deleting c && contains_finalizer c) ≡ false

module _ (moves : Bool) (c : Config) where
  pub compute_op-deleting :
      (is_deleting c && contains_finalizer c) ≡ true → compute_op moves c ≡ ok ("", c.status.node)
  unfolding compute_op
  compute_op-deleting h = ground arith

  pub compute_op-add :
      IsLive c
      → (c.status.node ≡ "")
        ⊎ (c.spec_node ≡ c.status.node) × (is_unsuccessful c.status.conditions ≡ ok true)
      → compute_op moves c ≡ ok (c.spec_node, "")
  unfolding compute_op
  compute_op-add live h = ground (arith, eq_iff c.spec_node c.status.node, eq_iff c.status.node "")

  pub compute_op-idle :
      IsLive c
      → c.status.node ≢ ""
      → c.spec_node ≡ c.status.node
      → is_unsuccessful c.status.conditions ≡ ok false
      → compute_op moves c ≡ ok ("", "")
  unfolding compute_op
  compute_op-idle live busy same done =
      ground (arith, eq_iff c.spec_node c.status.node, eq_iff c.status.node "")

module _ (c : Config) where
  pub compute_op-change :
      (moves : Bool)
      → IsLive c
      → c.status.node ≢ ""
      → c.spec_node ≢ c.status.node
      → compute_op moves c ≡ ok (elim moves [ true ↦ c.spec_node | false ↦ "" ], c.status.node)
  unfolding compute_op
  compute_op-change moves live busy other =
      ground (arith, eq_iff c.spec_node c.status.node, eq_iff c.status.node "")
