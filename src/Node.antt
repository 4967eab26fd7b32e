-- ===== src/Node.antt =====
-- pkg/controller/node/node_controller.go: the controller that annotates a node with its egress
-- configuration.
pub mod Annotation
use cloud_network_config_con.Base.{
  String, List, [], ◌∷◌, Option, none, some, Bool, true, false, not, ◌==◌, string_eq, any, keep,
  if◌then◌else◌,
}
use cloud_network_config_con.Effect.{
  errorf_of, api, not_found, Result, ok, err, panic, M, ◌>>=◌, ◌>>◌, pure, crash, lift, on_error,
}
use cloud_network_config_con.Cloud.{Net, Node, NodeEgressIpConfiguration, CloudProvider}

-- `nodeEgressIPConfigAnnotationKey`
abbrev pub annotation_key : String
annotation_key = "cloud.network.openshift.io/egress-ipconfig"

-- The lister and the client of nodes over worlds `S`, `retry.RetryOnConflict` and `json.Marshal`.
pub record NodeClient (S : Type 0) : Type 1 where
  pub lister_get : String → M S Node
  pub get : String → M S Node
  pub update : Node → M S Node
  pub retry_on_conflict : {A : Type 0} → M S A → M S A
  pub marshal : List NodeEgressIpConfiguration → Result String

-- A map with one key set; the keys of an annotation map are all different.
abbrev pub set_key : String → String → List (String × String) → List (String × String)
set_key k v m = (k, v) ∷ keep (λ p. not (p.0 == k)) m

abbrev pub has_key : String → Option (List (String × String)) → Bool
has_key k none = false
has_key k (some m) = any (λ p. p.0 == k) m

-- An assignment to a key of a nil map is a panic.
abbrev pub annotated : String → Node → Option (List (String × String)) → Result Node
annotated annotation node none = panic
annotated annotation node (some m) =
    ok (record node { annotations = some (set_key annotation_key annotation m) })

module _ (N : Net) {S : Type 0} (K : NodeClient S) (C : CloudProvider N S) where
  -- The annotation is set on the latest node, read again at every attempt.
  unfoldable pub annotate_latest : Node → String → M S (Unit {0})
  annotate_latest node annotation = do
    latest ← K.get node.name
    changed ← lift (annotated annotation latest latest.annotations)
    K.update changed
    pure tt

  -- `generateAnnotation`
  abbrev pub generate_annotation : List NodeEgressIpConfiguration → M S String
  generate_annotation configs =
      on_error (lift (K.marshal configs))
        (errorf_of "error serializing cloud subnet annotation, err: %v" [])

  unfoldable pub set_annotation : Node → List NodeEgressIpConfiguration → M S (Unit {0})
  set_annotation node configs = do
    annotation ← generate_annotation configs
    K.retry_on_conflict (annotate_latest node annotation)

  unfoldable pub sync_found : Node → Bool → M S (Unit {0})
  sync_found node true = pure tt
  sync_found node false = do
    configs ← on_error (C.get_node_egress_ip_configuration node) (
        errorf_of "error retrieving the private IP configuration for node: %s, err: %v"
          (node.name ∷ []))
    set_annotation node configs

  -- The lister fails only for a node that is gone, which is no error.
  abbrev pub sync_listed : Result Node × S → Result (Unit {0}) × S
  sync_listed (ok node, s) = sync_found node (has_key annotation_key node.annotations) s
  sync_listed (err e, s) = (ok tt, s)
  sync_listed (panic, s) = (panic, s)

  unfoldable pub sync_node : String → M S (Unit {0})
  sync_node name s = sync_listed (K.lister_get name s)
