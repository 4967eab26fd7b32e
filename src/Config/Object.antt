-- ===== src/Config/Object.antt =====
-- The CloudPrivateIPConfig resource as the controller reads and writes it, and its finalizer.
use cloud_network_config_con.Base.{
  String, List, [], ◌∷◌, ◌++◌, Option, none, some, Bool, true, false, not, ℕ, ◌==◌, string_eq,
  if◌then◌else◌, contains, keep, ◌≡◌, ◌∙◌, inl, inr, Bool-cases, any-append, arith,
}
use cloud_network_config_con.Effect.{GoError}

-- `metav1.ConditionStatus`
pub data ConditionStatus : Type 0 where
  condition_true condition_false condition_unknown : ConditionStatus

abbrev pub is_condition_true : ConditionStatus → Bool
is_condition_true condition_true = true
is_condition_true _ = false

-- A fixed text, or a text that prints an error behind it.
pub data Message : Type 0 where
  text : String → Message
  text_of : String → GoError → Message

-- `metav1.Condition`
pub record Condition : Type 0 where
  pub type : String
  pub status : ConditionStatus
  pub observed_generation : ℕ
  pub last_transition_time : ℕ
  pub reason : String
  pub message : Message

-- `CloudPrivateIPConfigStatus`
pub record Status : Type 0 where
  pub node : String
  pub conditions : List Condition

-- `CloudPrivateIPConfig`. A deletion timestamp that is zero is `none`.
pub record Config : Type 0 where
  pub name : String
  pub generation : ℕ
  pub deletion_timestamp : Option ℕ
  pub finalizers : List String
  pub spec_node : String
  pub status : Status

-- `cloudPrivateIPConfigFinalizer`
abbrev pub config_finalizer : String
config_finalizer = "cloudprivateipconfig.cloud.network.openshift.io/finalizer"

-- `!DeletionTimestamp.IsZero()`
abbrev pub is_deleting : Config → Bool
is_deleting c = elim (c.deletion_timestamp) [ none ↦ false | some _ ↦ true ]

-- `controllerutil.ContainsFinalizer`, `AddFinalizer` and `RemoveFinalizer`
abbrev pub contains_finalizer : Config → Bool
contains_finalizer c = contains c.finalizers config_finalizer

unfoldable pub add_finalizer : Config → Config
add_finalizer c =
    if contains_finalizer c
    then c
    else record c { finalizers = c.finalizers ++ (config_finalizer ∷ []) }

abbrev pub remove_finalizer : Config → Config
remove_finalizer c = record c { finalizers = keep (λ f. not (f == config_finalizer)) c.finalizers }

-- The three reasons of a condition.
abbrev pub response_pending : String
response_pending = "CloudResponsePending"

abbrev pub response_error : String
response_error = "CloudResponseError"

abbrev pub response_success : String
response_success = "CloudResponseSuccess"

-- The status blocks that `SyncHandler` writes: the node and one condition of type `Assigned`.
abbrev pub assigned_status : Config → ℕ → String → ConditionStatus → String → Message → Status
assigned_status c now node status reason message = record {
  node = node;
  conditions =
      (record {
        type = "Assigned";
        status = status;
        observed_generation = c.generation;
        last_transition_time = now;
        reason = reason;
        message = message;
      })
      ∷ [];
}

pub contains-add_finalizer : (c : Config) → contains_finalizer (add_finalizer c) ≡ true
unfolding add_finalizer
contains-add_finalizer c = elim (Bool-cases (contains_finalizer c)) [
  | inl old ↦ rw old old
  | inr new ↦ rw new (any-append _ c.finalizers _ ∙ rw new)
]

pub name-add_finalizer : (c : Config) → (add_finalizer c).name ≡ c.name
unfolding add_finalizer
name-add_finalizer c = ground arith

-- It changes nothing but the finalizers.
pub spec_node-add_finalizer : (c : Config) → (add_finalizer c).spec_node ≡ c.spec_node
unfolding add_finalizer
spec_node-add_finalizer c = ground arith

pub is_deleting-add_finalizer : (c : Config) → is_deleting (add_finalizer c) ≡ is_deleting c
unfolding add_finalizer
is_deleting-add_finalizer c = ground arith
