-- ===== src/Informer.antt =====
-- What an informer of a library hands to the handlers of a controller, and a controller as
-- `NewCloudNetworkConfigController` of pkg/controller/controller.go and the four constructors of
-- pkg/controller set it up.
use cloud_network_config_con.Base.{String, Bool, true, false, ◌≡◌}
use cloud_network_config_con.Effect.{Result, M}
use cloud_network_config_con.Queue.{WorkQueue, Object, typed, tombstone, enqueue}

-- An object, or `cache.DeletedFinalStateUnknown` with the key and the last known state of an object
-- whose deletion the watch has missed.
pub data Delivered (A : Type 0) : Type 0 where
  object : A → Delivered A
  final_state_unknown : String → A → Delivered A

-- `cache.ResourceEventHandlerFuncs`. Only a deletion may come as a tombstone.
pub record Handlers (A S : Type 0) : Type 0 where
  pub on_add : A → S → S
  pub on_update : A → A → S → S
  pub on_delete : Delivered A → S → S

-- What `cache.FilteringResourceEventHandler` promises of a filter and the handlers behind it.
pub record IsFiltering {A S : Type 0} (f : Delivered A → Bool) (h filtered : Handlers A S)
    : Type 0 where
  pub adds :
      (a : A) (s : S)
      → (f (object a) ≡ true → filtered.on_add a s ≡ h.on_add a s)
        × (f (object a) ≡ false → filtered.on_add a s ≡ s)
  pub updates :
      (old new : A) (s : S)
      → (f (object old) ≡ true
          → f (object new) ≡ true
          → filtered.on_update old new s ≡ h.on_update old new s)
        × (f (object old) ≡ false → f (object new) ≡ false → filtered.on_update old new s ≡ s)
  pub deletes :
      (d : Delivered A) (s : S)
      → (f d ≡ true → filtered.on_delete d s ≡ h.on_delete d s)
        × (f d ≡ false → filtered.on_delete d s ≡ s)

-- A controller: its key, the type of its resource, `SyncHandler`, and the handlers of its informer.
pub record CloudNetworkConfigController (A S : Type 0) : Type 0 where
  pub controller_key : String
  pub controller_type : String
  pub sync_handler : String → M S (Unit {0})
  pub handlers : Handlers A S

-- `Enqueue` of an object of the type of the controller, whose metadata are `meta`, or of its tombstone.
module _ {A S : Type 0} (Q : WorkQueue S) (key_func : Object → Result String) (meta : A → String)
    (controller_type : String) where
  abbrev pub enqueue_object : A → S → S
  enqueue_object a = enqueue Q key_func controller_type (typed controller_type (meta a))

  abbrev pub enqueue_delivered : Delivered A → S → S
  enqueue_delivered (object a) = enqueue_object a
  enqueue_delivered (final_state_unknown k a) =
      enqueue Q key_func controller_type (tombstone k (typed controller_type (meta a)))
