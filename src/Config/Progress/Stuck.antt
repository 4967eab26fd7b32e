-- ===== src/Config/Progress/Stuck.antt =====
-- An object that is deleted while its status names no node.
use cloud_network_config_con.Base.{ℕ, zero, suc, String, some, true, ◌≡◌, refl, ap, ◌∙◌, string_eq}
use cloud_network_config_con.Effect.{Result, ok}
use cloud_network_config_con.Effect.Ensures.{Outcome, weaken}
use cloud_network_config_con.Cloud.{Net, CloudProvider}
use cloud_network_config_con.Config.Object.{Config, is_deleting, contains_finalizer}
use cloud_network_config_con.Config.Op.{compute_op}
use cloud_network_config_con.Config.Op.Laws.{compute_op-deleting}
use cloud_network_config_con.Config.Client.{Kube}
use cloud_network_config_con.Config.Sync.{sync_handler}
use cloud_network_config_con.Config.Progress.Services.{Services, Never}
use cloud_network_config_con.Config.Progress.Steps.{State}
use cloud_network_config_con.Config.Progress.Handler.{idle_total}
use cloud_network_config_con.Config.Progress.Converge.{outcome_world, syncs}

module _ {N : Net} {S : Type 0} {K : Kube S} {C : CloudProvider N S} {key : String}
    (X : Services N S K C key) where
  -- An object that is being deleted while its status names no node, as between the two syncs of a
  -- change of nodes, keeps our finalizer and never goes, whatever the number of syncs.
  pub syncs-stuck :
      (c : Config) (s : S) (k : ℕ)
      → c.name ≡ key
      → is_deleting c ≡ true
      → contains_finalizer c ≡ true
      → c.status.node ≡ ""
      → X.object s ≡ some c
      → X.object (syncs X k s) ≡ some c
  unfolding syncs
  syncs-stuck c s zero named d f e stored = stored
  syncs-stuck c s (suc k) named d f e stored =
      outcome_world (λ t. X.object t ≡ some c) (sync_handler N K C key (syncs X k s))
        (stays (syncs X k s) (syncs-stuck c s k named d f e stored))
    where
      delete_from : String → Result (String × String)
      delete_from n = ok ("", n)

      idle : compute_op C.allows_move_private_ip c ≡ ok ("", "")
      idle = compute_op-deleting C.allows_move_private_ip c (rw (d, f)) ∙ ap delete_from e

      stays :
          (t : S)
          → X.object t ≡ some c
          → Outcome (λ _ u. X.object u ≡ some c) Never (sync_handler N K C key t)
      stays t p =
          weaken (State X (some c) (X.held t)) (λ _ u. State X (some c) (X.held t) u)
            (λ _ u. X.object u ≡ some c) Never Never (sync_handler N K C key)
            (idle_total X c (X.held t) named idle) (λ _ u q. q.0) (λ _ q. q) t (p, λ m. refl)
