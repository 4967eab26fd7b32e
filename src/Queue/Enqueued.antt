-- ===== src/Queue/Enqueued.antt =====
-- What `Enqueue` adds to the queue.
use cloud_network_config_con.Base.{String, ◌≡◌, ◌≢◌, arith, eq_iff}
use cloud_network_config_con.Effect.{GoError, Result, ok, err}
use cloud_network_config_con.Queue.{key, WorkQueue, Object, typed, tombstone, enqueue}

-- With a key function that refuses tombstones, as `MetaNamespaceKeyFunc` does, a handler for
-- objects of one type adds the key of such an object that has one, ignores the objects of other
-- types, and ignores every tombstone, also one of an object of its type.
pub enqueue-tombstone :
    {S : Type 0} (Q : WorkQueue S) (key_func : Object → Result String) (t : String)
    → t ≢ "cache.DeletedFinalStateUnknown"
    → ((k : String) (o : Object) → (e : GoError) × (key_func (tombstone k o) ≡ err e))
    → (k n meta : String) (o : Object) (s : S) → key_func (typed t meta) ≡ ok n
    → (enqueue Q key_func t (typed t meta) s ≡ Q.add (key n) s)
      × ((u : String) → u ≢ t → enqueue Q key_func t (typed u meta) s ≡ s)
      × (enqueue Q key_func t (tombstone k o) s ≡ s)
unfolding enqueue
enqueue-tombstone Q key_func t other refuses k n meta o s named =
    (ground (arith, named, eq_iff t t), λ u h. ground (arith, eq_iff t u), ignored)
  where
    ignored : enqueue Q key_func t (tombstone k o) s ≡ s
    ignored = ground (arith, (refuses k o).1, eq_iff t "cache.DeletedFinalStateUnknown")
