-- ===== src/Wiring/Missed.antt =====
-- What the deletion of the secret or the config map of the credentials comes to.
use cloud_network_config_con.Base.{String, Bool, true, string_eq, ◌≡◌, ◌≢◌, refl, ◌∙◌, ne_of_beq}
use cloud_network_config_con.Effect.{GoError, Result, ok, err}
use cloud_network_config_con.Queue.{key, WorkQueue, Object, typed, enqueue}
use cloud_network_config_con.Queue
use cloud_network_config_con.Queue.Enqueued.{enqueue-tombstone}
use cloud_network_config_con.Informer.{
  Delivered, object, final_state_unknown, Handlers, IsFiltering, CloudNetworkConfigController,
}
use cloud_network_config_con.Wiring.{
  is_watched, rotation_handlers, new_secret_controller, new_config_map_controller,
}
use cloud_network_config_con.Rotation.{Resource, is_named, filter}

module _ {S Data : Type 0} (Q : WorkQueue S) (key_func : Object → Result String)
    (equal : Data → Data → Bool) (meta : Resource Data → String) (name namespace : String) where
  -- The deletion that is seen is enqueued, and the one that is missed is not.
  abbrev pub Misses :
      CloudNetworkConfigController (Resource Data) S
      → (k x : String) → (r : Resource Data) → S
      → Type 0
  Misses c k x r s =
      (c.handlers.on_delete (object r) s ≡ Q.add (key k) s)
      × (c.handlers.on_delete (final_state_unknown x r) s ≡ s)

  module _
      (filtering : (Delivered (Resource Data) → Bool)
        → Handlers (Resource Data) S
        → Handlers (Resource Data) S)
      (cancel : S → S) where
    -- With a key function that refuses tombstones, and for a resource of the watched name and
    -- namespace: the filter of the controller passes its tombstone; its deletion is enqueued when it
    -- is delivered as the object, and leaves the queue as it is when it is delivered as a tombstone.
    -- This holds of the controller of the secret and of that of the config map.
    pub on_delete-Misses :
        (k x : String) (r : Resource Data) (s : S)
        → ((h : Handlers (Resource Data) S)
            → IsFiltering
                (is_watched Q key_func equal meta name namespace)
                h
                (filtering (is_watched Q key_func equal meta name namespace) h))
        → ((y : String) (o : Object) → (e : GoError) × (key_func (Queue.tombstone y o) ≡ err e))
        → is_named name namespace r ≡ true
        → ((t : String) → key_func (typed t (meta r)) ≡ ok k)
        → (is_watched Q key_func equal meta name namespace (final_state_unknown x r) ≡ true)
          × Misses
              (new_secret_controller Q key_func equal meta name namespace filtering cancel)
              k
              x
              r
              s
          × Misses
              (new_config_map_controller Q key_func equal meta name namespace filtering cancel)
              k
              x
              r
              s
    unfolding new_secret_controller new_config_map_controller filter
    on_delete-Misses k x r s law refuses n known = (
      n,
      missed "*v1.Secret" (ne_of_beq "*v1.Secret" "cache.DeletedFinalStateUnknown" refl),
      missed "*v1.ConfigMap" (ne_of_beq "*v1.ConfigMap" "cache.DeletedFinalStateUnknown" refl),
    )
      where
        h : String → Handlers (Resource Data) S
        h type = rotation_handlers Q key_func equal meta name namespace type

        missed :
            (type : String)
            → type ≢ "cache.DeletedFinalStateUnknown"
            → ((filtering
                    (is_watched Q key_func equal meta name namespace)
                    (rotation_handlers Q key_func equal meta name namespace type)).on_delete
                  (object r)
                  s
                ≡ Q.add (key k) s)
              × ((filtering
                      (is_watched Q key_func equal meta name namespace)
                      (rotation_handlers Q key_func equal meta name namespace type)).on_delete
                    (final_state_unknown x r)
                    s
                  ≡ s)
        missed type other =
            let law' = law (h type) in
            let e =
              enqueue-tombstone Q key_func type other refuses x k (meta r) (typed type (meta r)) s
                (known type) in
            (
              (law'.deletes (object r) s).0 n ∙ e.0,
              (law'.deletes (final_state_unknown x r) s).0 n ∙ e.2,
            )
