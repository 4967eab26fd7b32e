-- ===== src/Config/Progress/Handler.antt =====
-- `SyncHandler` over services that answer, and what a few runs of it bring about.
use cloud_network_config_con.Base.{
  String, some, Bool, true, false, ◌≡◌, ◌≢◌, sym, subst, ◌∙◌, ◌⊎◌, string_eq, beq_of_ne,
}
use cloud_network_config_con.Effect.{Result, ok}
use cloud_network_config_con.Effect.Ensures.{Ensures, known_rule, bind_rule}
use cloud_network_config_con.Cloud.{Net, CloudProvider}
use cloud_network_config_con.Config.Object.{Config, add_finalizer, name-add_finalizer}
use cloud_network_config_con.Config.Op.{compute_op, config_name_to_ip, is_unsuccessful}
use cloud_network_config_con.Config.Op.Laws.{IsLive, compute_op-add, compute_op-change}
use cloud_network_config_con.Config.Client.{Kube, get_config}
use cloud_network_config_con.Config.Sync.{dispatch, finish, sync_object, sync_handler}
use cloud_network_config_con.Config.Progress.Services.{Services, Never, with_node, without_node}
use cloud_network_config_con.Config.Progress.Steps.{State, get_total}
use cloud_network_config_con.Config.Progress.Branches.{
  Leaves, Ends, finish_total, sync_delete_total, sync_add_total,
}

module _ {N : Net} {S : Type 0} {K : Kube S} {C : CloudProvider N S} {key : String}
    (X : Services N S K C key) where
  pub handler_total :
      (c : Config) (h : String → Bool) (op : String × String) (base : Config) (node : String)
      (answer : Result Bool) (h' : String → Bool)
      → c.name ≡ key
      → base.name ≡ key
      → compute_op C.allows_move_private_ip c ≡ ok op
      → Ensures
          (State X (some c) h)
          (dispatch N K C key (config_name_to_ip N key) c op)
          (Leaves X base node answer h')
          Never
      → Ensures
          (State X (some c) h)
          (sync_handler N K C key)
          (λ _ s. Ends X base node answer h' s)
          Never
  unfolding sync_handler sync_object
  handler_total c h op base node answer h' named named' e branch =
      known_rule Never (State X (some c) h) (some c) (State X (some c) h)
        (λ _ s. Ends X base node answer h' s) (get_config K key) (sync_object N K C key)
        (get_total X c h named)
        (λ s p. rw e (
          bind_rule Never (State X (some c) h) (Leaves X base node answer h')
            (λ _ t. Ends X base node answer h' t)
            (dispatch N K C key (config_name_to_ip N c.name) c op) (finish K)
            (subst
              (λ k.
                Ensures (State X (some c) h) (dispatch N K C key (config_name_to_ip N k) c op)
                  (Leaves X base node answer h') Never)
              (sym named) branch)
            (λ q. finish_total X base node answer h' q named') s p))

  delete_branch :
      (c : Config) (h : String → Bool)
      → c.name ≡ key
      → IsLive c
      → c.status.node ≢ ""
      → X.listed c.status.node ≡ true
      → Ensures
          (State X (some c) h)
          (dispatch N K C key (config_name_to_ip N key) c ("", c.status.node))
          (Leaves X c "" (ok false) (without_node c.status.node h))
          Never
  unfolding dispatch
  delete_branch c h named live busy found =
      rw (beq_of_ne c.status.node "" busy)
        (sync_delete_total X key c c.status.node h named found live)

  add_branch :
      (c : Config) (h : String → Bool)
      → c.name ≡ key
      → c.spec_node ≢ ""
      → X.listed c.spec_node ≡ true
      → Ensures
          (State X (some c) h)
          (dispatch N K C key (config_name_to_ip N key) c (c.spec_node, ""))
          (Leaves X (add_finalizer c) c.spec_node (ok false) (with_node c.spec_node h))
          Never
  unfolding dispatch
  add_branch c h named busy found =
      rw (beq_of_ne c.spec_node "" busy) (sync_add_total X key c c.spec_node h named found)

  pub idle_total :
      (c : Config) (h : String → Bool)
      → c.name ≡ key
      → compute_op C.allows_move_private_ip c ≡ ok ("", "")
      → Ensures (State X (some c) h) (sync_handler N K C key) (λ _ s. State X (some c) h s) Never
  unfolding sync_handler sync_object dispatch finish
  idle_total c h named e =
      known_rule Never (State X (some c) h) (some c) (State X (some c) h)
        (λ _ s. State X (some c) h s) (get_config K key) (sync_object N K C key)
        (get_total X c h named) (λ s p. rw e p)

  -- A change of the node releases the old one, with a provider that does not move addresses.
  pub change_total :
      C.allows_move_private_ip ≡ false
      → (c : Config) (h : String → Bool) → c.name ≡ key
      → IsLive c
      → c.status.node ≢ ""
      → c.spec_node ≢ c.status.node
      → X.listed c.status.node ≡ true
      → Ensures
          (State X (some c) h)
          (sync_handler N K C key)
          (λ _ s. Ends X c "" (ok false) (without_node c.status.node h) s)
          Never
  change_total fixed c h named live busy other found =
      handler_total c h ("", c.status.node) c "" (ok false) (without_node c.status.node h) named
        named (rw fixed (compute_op-change c false live busy other))
        (delete_branch c h named live busy found)

  -- An object with no node in its status, or one whose last attempt did not succeed, is added.
  pub add_total :
      (c : Config) (h : String → Bool)
      → c.name ≡ key
      → IsLive c
      → (c.status.node ≡ "")
        ⊎ (c.spec_node ≡ c.status.node) × (is_unsuccessful c.status.conditions ≡ ok true)
      → c.spec_node ≢ ""
      → X.listed c.spec_node ≡ true
      → Ensures
          (State X (some c) h)
          (sync_handler N K C key)
          (λ _ s. Ends X (add_finalizer c) c.spec_node (ok false) (with_node c.spec_node h) s)
          Never
  add_total c h named live from busy found =
      handler_total c h (c.spec_node, "") (add_finalizer c) c.spec_node (ok false)
        (with_node c.spec_node h) named (name-add_finalizer c ∙ named)
        (compute_op-add C.allows_move_private_ip c live from) (add_branch c h named busy found)
