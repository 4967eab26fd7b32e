-- ===== src/Config/Safety/Steps.antt =====
-- The writes that the branches of `SyncHandler` share: a status, the report of a failure, and the
-- last update.
use cloud_network_config_con.Base.{String, none, some, ◌≡◌, string_eq}
use cloud_network_config_con.Effect.{GoError, pure, raise}
use cloud_network_config_con.Effect.Ensures.{Ensures, bind_rule, on_error_rule, weaken}
use cloud_network_config_con.Cloud.{Net, CloudProvider}
use cloud_network_config_con.Config.Object.{Config, Status, Message}
use cloud_network_config_con.Config.Client.{Kube, update_config_status}
use cloud_network_config_con.Config.Sync.{Pending, write_status, report_failure, finish}
use cloud_network_config_con.Config.Safety.Cluster.{Cluster}
use cloud_network_config_con.Config.Safety.Views
use cloud_network_config_con.Config.Safety.Writes

module _ {N : Net} {S : Type 0} {K : Kube S} {C : CloudProvider N S} {key : String}
    (X : Cluster N S K C key) where
  abbrev Tracked : S → Type 0
  Tracked = Views.Tracked X

  abbrev Only : String → S → Type 0
  Only = Views.Only X

  -- What the last update of the handler may start from.
  abbrev pub Ready : Pending → S → Type 0
  Ready none s = Tracked s
  Ready (some (c, status)) s = (c.name ≡ key) × Only status.node s

  pub write_rule :
      (label k : String) (c : Config) (status : Status)
      → c.name ≡ key
      → Ensures
          (Only status.node)
          (write_status K label k c status)
          (Writes.Wrote X status.node)
          Tracked
  unfolding write_status
  write_rule label k c status named =
      on_error_rule Tracked (Only status.node) (Writes.Wrote X status.node)
        (update_config_status K c status) _
        (weaken (Only status.node) (Writes.Wrote X status.node) (Writes.Wrote X status.node)
          (Only status.node) Tracked (update_config_status K c status)
          (Writes.update_rule X c status named) (λ _ _ w. w) (Views.Only-Tracked X status.node))

  pub report_rule :
      (label k : String) (c : Config) (node : String) (message : Message) (e : GoError)
      → c.name ≡ key
      → Ensures (Only node) (report_failure K label k c node message e) Ready Tracked
  unfolding report_failure
  report_rule label k c node message e named s h =
      bind_rule Tracked (Only node) (λ c' t. Only node t) Ready (write_status K label k c _)
        (λ _. raise e)
        (weaken (Only node) (Writes.Wrote X node) (λ _ t. Only node t) Tracked Tracked
          (write_status K label k c _) (write_rule label k c _ named) (λ _ _ w. w.0) (λ _ t. t))
        (λ c' t o. Views.Only-Tracked X node t o) s h

  pub finish_rule : (p : Pending) → Ensures (Ready p) (finish K p) (λ _ s. Tracked s) Tracked
  unfolding finish
  finish_rule none s h = h
  finish_rule (some (c, status)) s (named, h) =
      bind_rule Tracked (Only status.node) (λ _ t. Tracked t) (λ _ t. Tracked t)
        (update_config_status K c status) (λ _. pure tt)
        (weaken (Only status.node) (Writes.Wrote X status.node) (λ _ t. Tracked t)
          (Only status.node) Tracked (update_config_status K c status)
          (Writes.update_rule X c status named) (λ _ t w. Views.Only-Tracked X status.node t w.0)
          (Views.Only-Tracked X status.node))
        (λ _ t o. o) s h
