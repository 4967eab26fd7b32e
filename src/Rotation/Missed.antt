-- ===== src/Rotation/Missed.antt =====
-- Which events of a secret or a config map make the controller cancel the context.
use cloud_network_config_con.Base.{
  String, none, some, Bool, true, false, string_eq, ◌≡◌, ◌≢◌, ◌↔◌, refl, arith, eq_iff,
}
use cloud_network_config_con.Effect.{ok}
use cloud_network_config_con.Queue.{WorkQueue, Object, typed, enqueue, process_next_work_item}
use cloud_network_config_con.Queue
use cloud_network_config_con.Rotation.{Resource, enqueues_rotation, sync_rotation}

-- An update is enqueued just when the resource is not being deleted, its version is another one and
-- its data differ.
pub enqueues_rotation-changed :
    {Data : Type 0} (equal : Data → Data → Bool) (old new : Resource Data)
    → (enqueues_rotation equal old new ≡ true)
      ↔ (old.resource_version ≢ new.resource_version)
        × (new.deletion_timestamp ≡ none)
        × (equal old.content new.content ≡ false)
unfolding enqueues_rotation
enqueues_rotation-changed equal old new = (
  λ h. ground (arith, eq_iff old.resource_version new.resource_version),
  λ h. ground (arith, eq_iff old.resource_version new.resource_version),
)

-- A key that the worker takes from the queue, whatever it is, cancels the context, and is forgotten
-- and done.
pub process_next_work_item-sync_rotation :
    {S : Type 0} (Q : WorkQueue S) (name k : String) (cancel : S → S) (s t : S)
    → Q.get s ≡ (some (Queue.key k), t)
    → process_next_work_item Q name (sync_rotation cancel) s
      ≡ (ok true, Q.done (Queue.key k) (Q.forget (Queue.key k) (cancel t)))
unfolding process_next_work_item sync_rotation
process_next_work_item-sync_rotation Q name k cancel s t h = rw h refl
