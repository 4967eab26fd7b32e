-- ===== src/Queue.antt =====
-- pkg/controller/controller.go: the work queue of a controller and the loop that empties it.
pub mod Retries
pub mod Enqueued
pub mod Worker
use cloud_network_config_con.Base.{
  String, [], ◌∷◌, Option, none, some, Bool, true, false, ℕ, zero, suc, leb, ◌==◌, string_eq,
  if◌then◌else◌,
}
use cloud_network_config_con.Effect.{GoError, errorf_of, Result, ok, err, panic, M}

-- What stands in the queue: a key, or an object of another type with its print.
pub data Item : Type 0 where
  key invalid : String → Item

-- `workqueue.RateLimitingInterface` over worlds `S`. `get` gives `none` after the shutdown.
pub record WorkQueue (S : Type 0) : Type 0 where
  pub get : S → Option Item × S
  pub done : Item → S → S
  pub add : Item → S → S
  pub forget : Item → S → S
  pub num_requeues : Item → S → ℕ
  pub add_rate_limited : Item → S → S

-- `maxRetries`
abbrev pub max_retries : ℕ
max_retries = 15

module _ {S : Type 0} (Q : WorkQueue S) (controller_key : String)
    (sync : String → M S (Unit {0})) where
  -- What follows the call of the sync handler.
  abbrev pub after_sync : String → Result (Unit {0}) × S → Result (Option GoError) × S
  after_sync k (ok _, s) = (ok none, Q.forget (key k) s)
  after_sync k (err e, s) =
      if leb (Q.num_requeues (key k) s) max_retries
      then (
        ok (
            some (
              errorf_of "error syncing '%s': %s, requeuing in %s workqueue"
                (k ∷ controller_key ∷ []) e)),
        Q.add_rate_limited (key k) s,
      )
      else (ok none, Q.forget (key k) s)
  after_sync k (panic, s) = (panic, s)

  -- The function that `processNextWorkItem` calls on an item, without its deferred `Done`.
  abbrev pub process_item : Item → M S (Option GoError)
  process_item (invalid text) s = (ok none, Q.forget (invalid text) s)
  process_item (key k) s = after_sync k (sync k s)

  -- `defer c.workqueue.Done(obj)`, which also runs in a panic, and the result, which is true whether
  -- or not there is an error to log.
  abbrev pub finished : Item → Result (Option GoError) × S → Result Bool × S
  finished i (ok _, s) = (ok true, Q.done i s)
  finished i (err e, s) = (ok true, Q.done i s)
  finished i (panic, s) = (panic, Q.done i s)

  abbrev pub process_taken : Option Item × S → Result Bool × S
  process_taken (none, s) = (ok false, s)
  process_taken (some i, s) = finished i (process_item i s)

  unfoldable pub process_next_work_item : M S Bool
  process_next_work_item s = process_taken (Q.get s)

-- What an informer hands to a handler: an object with its type and metadata, or a tombstone
-- `cache.DeletedFinalStateUnknown` with the key and the last known state.
pub data Object : Type 0 where
  typed : String → String → Object
  tombstone : String → Object → Object

-- `reflect.TypeOf`
abbrev pub type_of : Object → String
type_of (typed t _) = t
type_of (tombstone _ _) = "cache.DeletedFinalStateUnknown"

-- `key_func` is `cache.MetaNamespaceKeyFunc`, and `controller_type` the type of the resource.
module _ {S : Type 0} (Q : WorkQueue S) (key_func : Object → Result String)
    (controller_type : String) where
  abbrev pub add_key : Result String → S → S
  add_key (ok k) s = Q.add (key k) s
  add_key _ s = s

  unfoldable pub enqueue : Object → S → S
  enqueue (typed t meta) s = if controller_type == t then add_key (key_func (typed t meta)) s else s
  enqueue (tombstone k obj) s =
      if controller_type == type_of (tombstone k obj)
      then add_key (key_func (tombstone k obj)) s
      else (if controller_type == type_of obj then add_key (key_func (tombstone k obj)) s else s)
