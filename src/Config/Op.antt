-- ===== src/Config/Op.antt =====
-- `computeOp` and `cloudPrivateIPConfigNameToIP`: what a sync has to do, and for which address.
pub mod Laws
use cloud_network_config_con.Base.{
  String, List, [], ◌∷◌, Option, none, some, Bool, true, false, not, ◌&&◌, ◌==◌, string_eq,
  if◌then◌else◌,
}
use cloud_network_config_con.Base.Text.{replace_all}
use cloud_network_config_con.Cloud.{Net}
use cloud_network_config_con.Effect.{Result, ok, panic}
use cloud_network_config_con.Config.Object.{
  Config, Condition, is_condition_true, is_deleting, contains_finalizer,
}

-- `Conditions[0].Status != metav1.ConditionTrue`; an empty slice is a panic.
abbrev pub is_unsuccessful : List Condition → Result Bool
is_unsuccessful [] = panic
is_unsuccessful (c ∷ _) = ok (not (is_condition_true c.status))

-- `Status.Node == "" || Conditions[0].Status != ConditionTrue`, the second only if the first fails.
abbrev pub needs_add : Config → Result Bool
needs_add c = if c.status.node == "" then ok true else is_unsuccessful c.status.conditions

abbrev add_if : Config → Result Bool → Result (String × String)
add_if c (ok true) = ok (c.spec_node, "")
add_if c (ok false) = ok ("", "")
add_if c _ = panic

-- The node to add and the node to delete; the flag is the provider's `AllowsMovePrivateIP`.
unfoldable pub compute_op : Bool → Config → Result (String × String)
compute_op allows_move c =
    if is_deleting c && contains_finalizer c
    then ok ("", c.status.node)
    else (if not (c.spec_node == c.status.node) && not (c.status.node == "")
        then (if allows_move then ok (c.spec_node, c.status.node) else ok ("", c.status.node))
        else add_if c (needs_add c))

abbrev ip_or : {A : Type 0} → Option A → Option A → Option A
ip_or (some ip) other = some ip
ip_or none other = other

unfoldable pub config_name_to_ip : (N : Net) → String → Option N.Addr
config_name_to_ip N name = ip_or (N.parse_ip name) (N.parse_ip (replace_all b'.' ":" name))
