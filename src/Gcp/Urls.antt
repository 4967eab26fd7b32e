-- ===== src/Gcp/Urls.antt =====
-- `splitGCPNode` and `parseSubnet`
use cloud_network_config_con.Base.{String, List, [], ◌∷◌, true, ◌≡◌, refl}
use cloud_network_config_con.Base.Text.{split, free, join, split-join}
use cloud_network_config_con.Effect.{errorf, wrapf, unexpected_uri, Result, ok, err, panic}
use cloud_network_config_con.Cloud.{Node}

-- The three components of a provider id.
pub record Location : Type 0 where
  pub project : String
  pub zone : String
  pub instance : String

-- `strings.SplitN(path, "/", 3)`, where the third part is the rest of the path.
abbrev pub location : Node → String → List String → Result Location
location node host (_ ∷ zone ∷ first ∷ rest) =
    ok (record { project = host; zone = zone; instance = join (first ∷ rest) })
location node host _ = err (
    errorf "failed to parse node %s provider id %s: expected two path components"
      (node.name ∷ node.provider_id ∷ []))

abbrev from_url : Node → Result (String × String) → Result Location
from_url node (ok (host, path)) = location node host (split b'/' path)
from_url node (err e) =
    err (wrapf "failed to parse node %s provider id %s: %w" (node.name ∷ node.provider_id ∷ []) e)
from_url node panic = panic

unfoldable pub split_gcp_node : (String → Result (String × String)) → Node → Result Location
split_gcp_node parse_url node = from_url node (parse_url node.provider_id)

-- The region and the name, from the eleven parts of a URL.
abbrev pub subnet_parts : String → List String → Result (String × String)
subnet_parts url (_ ∷ _ ∷ _ ∷ _ ∷ _ ∷ _ ∷ _ ∷ _ ∷ region ∷ _ ∷ name ∷ []) = ok (region, name)
subnet_parts url _ = err (unexpected_uri url)

unfoldable pub parse_subnet : String → Result (String × String)
parse_subnet url = subnet_parts url (split b'/' url)

-- Project, zone and instance are read back from a provider id that `url.Parse` takes apart into the
-- project as host and the path /zone/name, for a zone and a name without slashes.
pub split_gcp_node-path :
    (parse_url : String → Result (String × String)) (node : Node) (project zone name : String)
    → free b'/' zone ≡ true
    → free b'/' name ≡ true
    → parse_url node.provider_id ≡ ok (project, join ("" ∷ zone ∷ name ∷ []))
    → split_gcp_node parse_url node
      ≡ ok (record { project = project; zone = zone; instance = name })
unfolding split_gcp_node join
split_gcp_node-path parse_url node project zone name z n h =
    rw (h, split-join "" (zone ∷ name ∷ []) (rw (z, n) refl)) refl

-- The region and the name are read back from the full URL of a subnet, for parts without slashes. The
-- short form without scheme, host and project, which the source documents as well, is refused.
pub parse_subnet-forms :
    (project region name : String)
    → free b'/' project ≡ true
    → free b'/' region ≡ true
    → free b'/' name ≡ true
    → let path = "regions" ∷ region ∷ "subnetworks" ∷ name ∷ [] in
      let url =
        join
          ("https:" ∷ "" ∷ "www.googleapis.com" ∷ "compute" ∷ "v1" ∷ "projects" ∷ project ∷ path) in
      (parse_subnet url ≡ ok (region, name))
      × (parse_subnet (join path) ≡ err (unexpected_uri (join path)))
unfolding parse_subnet
parse_subnet-forms project region name p r n = (
  rw
      (split-join "https:"
        ("" ∷ "www.googleapis.com" ∷ "compute" ∷ "v1" ∷ "projects" ∷ project ∷ "regions" ∷ region
          ∷ "subnetworks" ∷ name ∷ [])
        (rw (p, r, n) refl))
      refl,
  rw (split-join "regions" (region ∷ "subnetworks" ∷ name ∷ []) (rw (r, n) refl)) refl,
)
