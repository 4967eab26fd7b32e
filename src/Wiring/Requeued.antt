-- ===== src/Wiring/Requeued.antt =====
-- Which changes of a CloudPrivateIPConfig come back to its controller.
use cloud_network_config_con.Base.{
  String, Bool, true, false, ◌==◌, string_eq, ◌≡◌, ◌≢◌, refl, arith, eq_iff,
}
use cloud_network_config_con.Effect.{Result, ok}
use cloud_network_config_con.Cloud.{Net, CloudProvider}
use cloud_network_config_con.Queue.{key, WorkQueue, Object, typed, enqueue}
use cloud_network_config_con.Config.Client.{Kube}
use cloud_network_config_con.Config.Object.{Config, is_deleting}
use cloud_network_config_con.Config.Op.{compute_op}
use cloud_network_config_con.Config.Events.{enqueues_update}
use cloud_network_config_con.Wiring.{new_cloud_private_ip_config_controller}

released_lem :
    (allows_move : Bool) (old new : Config)
    → is_deleting new ≡ false
    → old.status.node ≢ ""
    → new.status.node ≡ ""
    → (enqueues_update old new ≡ true) × (compute_op allows_move new ≡ ok (new.spec_node, ""))
unfolding enqueues_update compute_op
released_lem allows_move old new d o n =
    let a : (new.status.node == "") ≡ true = rw n refl in
    (ground (arith, d, n, o, eq_iff old.status.node new.status.node), ground (arith, d, a))

module _ {S : Type 0} (Q : WorkQueue S) (key_func : Object → Result String) (N : Net) (K : Kube S)
    (C : CloudProvider N S) (meta : Config → String) where
  -- When the address is released, that is, when the node of the status becomes empty, on an object
  -- that is not being deleted, the update is enqueued, and the operation that it asks for is the
  -- assignment to the node of the specification, whether or not the provider moves addresses.
  pub on_update-released :
      (k : String) (allows_move : Bool) (old new : Config) (s : S)
      → key_func (typed "*v1.CloudPrivateIPConfig" (meta new)) ≡ ok k
      → is_deleting new ≡ false
      → old.status.node ≢ ""
      → new.status.node ≡ ""
      → ((new_cloud_private_ip_config_controller Q key_func N K C meta).handlers.on_update old new s
          ≡ Q.add (key k) s)
        × (compute_op allows_move new ≡ ok (new.spec_node, ""))
  unfolding new_cloud_private_ip_config_controller enqueue
  on_update-released k m old new s known d o n =
      let e = released_lem m old new d o n in
      (
        rw e.0
            (ground (arith, known, eq_iff "*v1.CloudPrivateIPConfig" "*v1.CloudPrivateIPConfig")),
        e.1,
      )
