-- ===== src/Config/Client.antt =====
-- The controller's calls of the API server: `getCloudPrivateIPConfig`,
-- `updateCloudPrivateIPConfigStatus` and `patchCloudPrivateIPConfigFinalizer`.
use cloud_network_config_con.Base.{String, List, [], ◌∷◌, Option, none, some, ℕ}
use cloud_network_config_con.Effect.{
  errorf_of, api, not_found, Result, ok, err, panic, M, ◌>>=◌, lift, on_error,
}
use cloud_network_config_con.Cloud.{Node}
use cloud_network_config_con.Config.Object.{Config, Status}

pub record FinalizerPatch : Type 0 where
  pub op : String
  pub path : String
  pub value : List String

-- The clients of the controller over worlds `S`: Get, UpdateStatus and Patch of the clientset, the
-- lister of nodes, `retry.RetryOnConflict` with its default back-off, `json.Marshal` of a list of
-- patches to its bytes, and the clock of `metav1.Now`.
pub record Kube (S : Type 0) : Type 1 where
  pub Bytes : Type 0
  pub get : String → M S Config
  pub update_status : Config → M S Config
  pub patch : String → Bytes → M S Config
  pub get_node : String → M S Node
  pub retry_on_conflict : {A : Type 0} → M S A → M S A
  pub marshal : List FinalizerPatch → Result Bytes
  pub now : S → ℕ

module _ {S : Type 0} (K : Kube S) where
  abbrev pub found : Result Config × S → Result (Option Config) × S
  found (ok c, s) = (ok (some c), s)
  found (err (api not_found), s) = (ok none, s)
  found (err e, s) = (err e, s)
  found (panic, s) = (panic, s)

  -- A resource that is gone is no error: `none` stands for the nil pointer.
  unfoldable pub get_config : String → M S (Option Config)
  get_config name s = found (K.get name s)

  -- The object that is passed is changed, so that every attempt sends the same one.
  unfoldable pub update_config_status : Config → Status → M S Config
  update_config_status c status =
      K.retry_on_conflict (λ s. K.update_status (record c { status = status }) s)

  abbrev pub patch_config : String → K.Bytes → M S Config
  patch_config name patch_data = K.patch name patch_data

  abbrev pub finalizer_patch : Config → List FinalizerPatch
  finalizer_patch c =
      (record { op = "replace"; path = "/metadata/finalizers"; value = c.finalizers }) ∷ []

  abbrev pub send_finalizer_patch : Config → M S Config
  send_finalizer_patch c = do
    op ← on_error (lift (K.marshal (finalizer_patch c))) (λ e.
        errorf_of "error serializing finalizer patch: %+v for CloudPrivateIPConfig: %s, err: %v"
          (c.name ∷ []) e)
    patch_config c.name op

  unfoldable pub patch_config_finalizer : Config → M S Config
  patch_config_finalizer c = K.retry_on_conflict (send_finalizer_patch c)
