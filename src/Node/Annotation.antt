-- ===== src/Node/Annotation.antt =====
-- What the annotation of a node changes.
use cloud_network_config_con.Base.{
  String, List, [], ◌∷◌, Option, none, some, not, ◌==◌, string_eq, keep, if◌then◌else◌, ◌≡◌, ◌≢◌,
  refl, arith, eq_iff,
}
use cloud_network_config_con.Effect.{ok, panic}
use cloud_network_config_con.Cloud.{Node}
use cloud_network_config_con.Node.{annotation_key, set_key, annotated}

-- The value of a key.
abbrev pub lookup : String → List (String × String) → Option String
lookup k [] = none
lookup k ((x, v) ∷ m) = if x == k then some v else lookup k m

lookup-keep :
    (k j : String) (m : List (String × String))
    → j ≢ k
    → lookup j (keep (λ p. not (p.0 == k)) m) ≡ lookup j m
lookup-keep k j [] h = refl
lookup-keep k j ((x, v) ∷ m) h = ground (arith, lookup-keep k j m, eq_iff x k, eq_iff x j)

-- The node that is sent is the latest one but for the annotation: the key has the new value, every
-- other key keeps its value, and the name and the provider id stay; a nil map is a panic.
pub annotated-lookup :
    (text : String) (latest : Node)
    → (annotated text latest none ≡ panic)
      × ((m : List (String × String))
          → (sent : Node) × (after : List (String × String)) × (annotated text latest (some m)
              ≡ ok sent)
            × (sent.annotations ≡ some after)
            × (sent.name ≡ latest.name)
            × (sent.provider_id ≡ latest.provider_id)
            × (lookup annotation_key after ≡ some text)
            × ((j : String) → j ≢ annotation_key → lookup j after ≡ lookup j m))
annotated-lookup text latest = (
  refl,
  λ m. (
    record latest { annotations = some (set_key annotation_key text m) },
    set_key annotation_key text m,
    refl,
    refl,
    refl,
    refl,
    refl,
    λ j h. ground (arith, lookup-keep annotation_key j m, eq_iff annotation_key j),
  ),
)
