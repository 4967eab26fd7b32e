-- ===== src/Rotation.antt =====
-- pkg/controller/secret/secret_controller.go and pkg/controller/configmap/configmap_controller.go,
-- which are the same but for the resource: a change of the data of one named resource cancels the
-- context of the program.
pub mod Missed
use cloud_network_config_con.Base.{
  String, Option, none, some, Bool, true, false, ◌&&◌, ◌||◌, not, ◌==◌, string_eq, ℕ, if◌then◌else◌,
}
use cloud_network_config_con.Effect.{ok, M}

-- `corev1.Secret` or `corev1.ConfigMap`, as far as the controller reads it; `Data` is the type of its
-- data, which are its content.
pub record Resource (Data : Type 0) : Type 0 where
  pub name : String
  pub namespace : String
  pub resource_version : String
  pub deletion_timestamp : Option ℕ
  pub content : Data

-- What a handler is given: the resource, a tombstone with the resource or with anything else, or
-- anything else.
pub data Event (Data : Type 0) : Type 0 where
  resource : Resource Data → Event Data
  tombstone : Option (Resource Data) → Event Data
  other : Event Data

module _ {Data : Type 0} (name namespace : String) where
  abbrev pub is_named : Resource Data → Bool
  is_named r = r.name == name && r.namespace == namespace

  -- The filter on the events.
  unfoldable pub filter : Event Data → Bool
  filter (resource r) = is_named r
  filter (tombstone (some r)) = is_named r
  filter (tombstone none) = false
  filter other = false

abbrev pub is_set : Option ℕ → Bool
is_set none = false
is_set (some _) = true

-- Whether `UpdateFunc` enqueues the new resource; `equal` is `reflect.DeepEqual` on the data.
unfoldable pub enqueues_rotation :
    {Data : Type 0} → (Data → Data → Bool) → Resource Data → Resource Data → Bool
enqueues_rotation equal old new =
    if old.resource_version == new.resource_version || is_set new.deletion_timestamp
    then false
    else not (equal old.content new.content)

-- `SyncHandler` and `shutdown`: `cancel` is the cancellation of the context.
unfoldable pub sync_rotation : {S : Type 0} → (S → S) → String → M S (Unit {0})
sync_rotation cancel key s = (ok tt, cancel s)
