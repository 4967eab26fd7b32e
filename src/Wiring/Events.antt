-- ===== src/Wiring/Events.antt =====
-- What the events of an informer come to: a rotation cancels the context, and the release of an
-- address is followed by its assignment.
use cloud_network_config_con.Base.{
  String, none, some, Bool, true, false, ◌&&◌, string_eq, if◌then◌else◌, ◌≡◌, ◌≢◌, refl, ◌∙◌, arith,
  eq_iff, Bool-cases, inl, inr,
}
use cloud_network_config_con.Effect.{Result, ok}
use cloud_network_config_con.Queue.{key, WorkQueue, Object, typed, enqueue, process_next_work_item}
use cloud_network_config_con.Informer.{
  Delivered, Handlers, IsFiltering, CloudNetworkConfigController, enqueue_object,
}
use cloud_network_config_con.Wiring.{
  is_watched, rotation_handlers, new_secret_controller, new_config_map_controller,
}
use cloud_network_config_con.Rotation.Missed.{
  enqueues_rotation-changed, process_next_work_item-sync_rotation,
}
use cloud_network_config_con.Rotation.{Resource, is_named, filter, enqueues_rotation, sync_rotation}

module _ {S Data : Type 0} (Q : WorkQueue S) (key_func : Object → Result String)
    (equal : Data → Data → Bool) (meta : Resource Data → String) (name namespace : String) where
  added_lem :
      (t k : String) (new : Resource Data) (s : S)
      → key_func (typed t (meta new)) ≡ ok k
      → enqueue_object Q key_func meta t new s ≡ Q.add (key k) s
  unfolding enqueue
  added_lem t k new s known = ground (arith, known, eq_iff t t)

  -- An update of the named resource is enqueued if it is a rotation, and ignored otherwise.
  update_lem :
      (t k : String) (h : Handlers (Resource Data) S)
      → IsFiltering
          (is_watched Q key_func equal meta name namespace)
          (rotation_handlers Q key_func equal meta name namespace t)
          h
      → (old new : Resource Data) (s : S)
      → is_named name namespace old ≡ is_named name namespace new
      → key_func (typed t (meta new)) ≡ ok k
      → h.on_update old new s ≡ (
          if is_named name namespace new && enqueues_rotation equal old new
          then Q.add (key k) s
          else s)
  unfolding filter
  update_lem t k h law old new s same known = elim (Bool-cases (is_named name namespace new)) [
    | inl e ↦ (law.updates old new s).0 (same ∙ e) e ∙ rw (e, added_lem t k new s known) refl
    | inr e ↦ (law.updates old new s).1 (same ∙ e) e ∙ rw e refl
  ]

  -- After the update, the next turn of a worker cancels the context, if the resource is the named one,
  -- and is the turn that it would have been, if it is another one.
  abbrev pub Cancels :
      CloudNetworkConfigController (Resource Data) S
      → (S → S)
      → String
      → (old new : Resource Data) → (s t : S) → Type 0
  Cancels c cancel k old new s t =
      process_next_work_item Q c.controller_key c.sync_handler (c.handlers.on_update old new s) ≡ (
        if is_named name namespace new
        then (ok true, Q.done (key k) (Q.forget (key k) (cancel t)))
        else process_next_work_item Q c.controller_key c.sync_handler s)

  abbrev watcher :
      String
      → String
      → (S → S)
      → Handlers (Resource Data) S
      → CloudNetworkConfigController (Resource Data) S
  watcher agent type cancel h = record {
    controller_key = agent;
    controller_type = type;
    sync_handler = sync_rotation cancel;
    handlers = h;
  }

  turn_lem :
      (agent type : String) (cancel : S → S) (h : Handlers (Resource Data) S) (k : String)
      (old new : Resource Data) (s t : S)
      → h.on_update old new s ≡ (
          if is_named name namespace new && enqueues_rotation equal old new
          then Q.add (key k) s
          else s)
      → enqueues_rotation equal old new ≡ true
      → Q.get (Q.add (key k) s) ≡ (some (key k), t)
      → Cancels (watcher agent type cancel h) cancel k old new s t
  turn_lem agent type cancel h k old new s t u r hands =
      elim (Bool-cases (is_named name namespace new)) [
        | inl n ↦
            rw (u, n, r)
              (process_next_work_item-sync_rotation Q agent k cancel (Q.add (key k) s) t hands)
        | inr n ↦ rw (u, n) refl
      ]

  module _
      (filtering : (Delivered (Resource Data) → Bool)
        → Handlers (Resource Data) S
        → Handlers (Resource Data) S)
      (cancel : S → S) where
    -- An update that changes the data of the watched secret or config map, in a new version and not
    -- being deleted, is enqueued, and the next turn of a worker, which the queue hands the key to,
    -- cancels the context; of a resource with another name or namespace nothing is enqueued. Both
    -- hold of the controller of the secret and of that of the config map.
    pub on_update-Cancels :
        (k : String) (old new : Resource Data) (s t : S)
        → ((h : Handlers (Resource Data) S)
            → IsFiltering
                (is_watched Q key_func equal meta name namespace)
                h
                (filtering (is_watched Q key_func equal meta name namespace) h))
        → new.name ≡ old.name
        → new.namespace ≡ old.namespace
        → old.resource_version ≢ new.resource_version
        → new.deletion_timestamp ≡ none
        → equal old.content new.content ≡ false
        → ((t : String) → key_func (typed t (meta new)) ≡ ok k)
        → Q.get (Q.add (key k) s) ≡ (some (key k), t)
        → Cancels
            (new_secret_controller Q key_func equal meta name namespace filtering cancel)
            cancel
            k
            old
            new
            s
            t
          × Cancels
              (new_config_map_controller Q key_func equal meta name namespace filtering cancel)
              cancel
              k
              old
              new
              s
              t
    unfolding new_secret_controller new_config_map_controller
    on_update-Cancels k old new s t law n m v d x known hands =
        (watched "*v1.Secret" "secret", watched "*v1.ConfigMap" "configMap")
      where
        h : String → Handlers (Resource Data) S
        h type = rotation_handlers Q key_func equal meta name namespace type

        watched :
            (type agent : String)
            → Cancels
                (watcher agent type cancel
                  (filtering (is_watched Q key_func equal meta name namespace) (h type)))
                cancel
                k
                old
                new
                s
                t
        watched type agent =
            turn_lem agent type cancel
              (filtering (is_watched Q key_func equal meta name namespace) (h type)) k old new s t
              (update_lem type k
                (filtering (is_watched Q key_func equal meta name namespace) (h type))
                (law (h type)) old new s (rw (n, m) refl) (known type))
              ((enqueues_rotation-changed equal old new).1 (v, d, x)) hands
