-- ===== src/Tests/Gcp.antt =====
-- The theorems on GCP at one instance with one alias.
use cloud_network_config_con.Base.{
  String, [], ◌∷◌, none, some, true, false, ◌≡◌, refl, arith, eq_iff, string_eq,
}
use cloud_network_config_con.Base.Text.{join, split}
use cloud_network_config_con.Effect.{unexpected_uri, ok, err}
use cloud_network_config_con.Cloud.{Node}
use cloud_network_config_con.Gcp.{
  Interface, Instance, Compute, get_instance, update, release_private_ip,
}
use cloud_network_config_con.Gcp.Urls.{
  Location, parse_subnet, split_gcp_node, parse_subnet-forms, split_gcp_node-path,
}
use cloud_network_config_con.Gcp.Aliases.{is_covered}
use cloud_network_config_con.Gcp.Updates.{release_private_ip-assigned}
use cloud_network_config_con.Tests.Sim.{text_net}

within :
    (r : String) (a : String) (n : String)
    → text_net.parse_cidr r ≡ some (a, n)
    → text_net.ip_equal (some a) (some "10.0.0.5") ≡ true
    → text_net.subnet_contains n (some "10.0.0.5") ≡ true
within r a n h e = ground (arith, eq_iff r "")

free_address : is_covered text_net (some "10.0.0.5") ("10.0.0.1" ∷ []) ≡ false
unfolding is_covered
free_address = refl

abbrev interface : Interface
interface = record {
  name = "nic0";
  subnetwork = "regions/r/subnetworks/s";
  alias_ip_ranges = "10.0.0.1" ∷ [];
  force_send_fields = [];
}

-- The world is the interface that was sent last.
abbrev compute : Compute Interface
compute = record {
  parse_url = λ u. ok ("project", "/zone/a");
  get_instance = λ p z i s. (ok (record { name = i; network_interfaces = some s ∷ [] }), s);
  update_network_interface = λ p z i n nic s. (ok "operation", nic);
  wait = λ p z o s. (ok none, s);
  get_subnetwork = λ p r s w. (ok ("", ""), w);
}

abbrev host : Node
host = record { name = "a"; provider_id = "gce://project/zone/a"; annotations = none }

abbrev place : Location
place = record { project = "project"; zone = "zone"; instance = "a" }

abbrev assigned : Interface
assigned = record interface { alias_ip_ranges = "10.0.0.1" ∷ "10.0.0.5" ∷ [] }

abbrev holder : Instance
holder = record { name = "a"; network_interfaces = some assigned ∷ [] }

found : get_instance text_net compute host assigned ≡ (ok (place, holder), assigned)
unfolding get_instance split_gcp_node split join
found = refl

release_private_ip-assigned_example :
    release_private_ip text_net compute (some "10.0.0.5") host assigned
    ≡ update text_net compute place holder
        (record interface { force_send_fields = "AliasIpRanges" ∷ [] })
        assigned
release_private_ip-assigned_example =
    release_private_ip-assigned text_net compute (some "10.0.0.5") "10.0.0.5" within refl refl host
      place holder interface assigned assigned found refl refl free_address

parse_subnet-forms_example :
    (parse_subnet (
        join (
          "https:" ∷ "" ∷ "www.googleapis.com" ∷ "compute" ∷ "v1" ∷ "projects" ∷ "p" ∷ "regions"
          ∷ "r" ∷ "subnetworks" ∷ "s" ∷ []))
      ≡ ok ("r", "s"))
    × (parse_subnet (join ("regions" ∷ "r" ∷ "subnetworks" ∷ "s" ∷ []))
        ≡ err (unexpected_uri (join ("regions" ∷ "r" ∷ "subnetworks" ∷ "s" ∷ []))))
parse_subnet-forms_example = parse_subnet-forms "p" "r" "s" refl refl refl

path : compute.parse_url host.provider_id ≡ ok ("project", join ("" ∷ "zone" ∷ "a" ∷ []))
unfolding join
path = refl

split_gcp_node-path_example : split_gcp_node compute.parse_url host ≡ ok place
split_gcp_node-path_example =
    split_gcp_node-path compute.parse_url host "project" "zone" "a" refl refl path
