-- ===== src/Gcp.antt =====
-- pkg/cloudprovider/gcp.go: the cloud provider GCP.
pub mod Credentials
pub mod Provider
pub mod Urls
pub mod Aliases
pub mod Egress
pub mod Ledger
pub mod Store
pub mod Updates
use cloud_network_config_con.Base.{
  String, List, [], ◌∷◌, ◌++◌, Option, none, some, Bool, true, false, not, ◌||◌, ◌==◌, string_eq,
  if◌then◌else◌,
}
use cloud_network_config_con.Effect.{
  GoError, no_network_interface, already_existing_ip, non_existing_ip, errorf, errorf_of, Result,
  ok, err, panic, M, ◌>>=◌, ◌>>◌, pure, raise, lift,
}
use cloud_network_config_con.Cloud.{Net, Node}
use cloud_network_config_con.Gcp.Urls.{Location, split_gcp_node}
use cloud_network_config_con.Gcp.Aliases.{is_covered, keep_aliases, has_alias}

-- `google.NetworkInterface`; an alias is its range.
pub record Interface : Type 0 where
  pub name : String
  pub subnetwork : String
  pub alias_ip_ranges : List String
  pub force_send_fields : List String

-- `google.Instance`
pub record Instance : Type 0 where
  pub name : String
  pub network_interfaces : List (Option Interface)

-- The calls of the compute API over worlds `S`, and `url.Parse` with the host and the path. An update
-- gives the name of its operation. The error of an operation is the result of printing it.
pub record Compute (S : Type 0) : Type 0 where
  pub parse_url : String → Result (String × String)
  pub get_instance : String → String → String → M S Instance
  pub update_network_interface : String → String → String → String → Interface → M S String
  pub wait : String → String → String → M S (Option (Result String))
  pub get_subnetwork : String → String → String → M S (String × String)

abbrev first_of : List (Option Interface) → Result Interface
first_of (some n ∷ _) = ok n
first_of _ = err no_network_interface

-- The first one of `getNetworkInterfaces`, which fails when there is none or it is nil.
abbrev pub first_interface : Instance → Result Interface
first_interface i = first_of i.network_interfaces

abbrev operation_error : Option (Result String) → Result (Unit {0})
operation_error none = ok tt
operation_error (some (ok text)) = err (errorf "%s" (text ∷ []))
operation_error (some _) = err (errorf "failed marshaling error %v" [])

module _ (N : Net) {S : Type 0} (G : Compute S) where
  -- The project, the zone and the instance of a node.
  unfoldable pub get_instance : Node → M S (Location × Instance)
  get_instance node = do
    l ← lift (split_gcp_node G.parse_url node)
    i ← G.get_instance l.project l.zone l.instance
    pure (l, i)

  unfoldable pub wait_for_completion : Location → String → M S (Unit {0})
  wait_for_completion l operation =
      G.wait l.project l.zone operation >>= λ e. lift (operation_error e)

  unfoldable pub update : Location → Instance → Interface → M S (Unit {0})
  update l i n =
      G.update_network_interface l.project l.zone i.name n.name n >>= wait_for_completion l

  abbrev pub with_alias : Option N.Addr → Interface → Interface
  with_alias ip n = record n { alias_ip_ranges = n.alias_ip_ranges ++ (N.ip_string ip ∷ []) }

  -- The aliases are sent also when none is left.
  abbrev pub without_alias : Option N.Addr → Interface → Interface
  without_alias ip n = record n {
    alias_ip_ranges = keep_aliases N ip n.alias_ip_ranges;
    force_send_fields = n.force_send_fields ++ ("AliasIpRanges" ∷ []);
  }

  unfoldable pub assign_private_ip : Option N.Addr → Node → M S (Unit {0})
  assign_private_ip ip node = do
    found ← get_instance node
    n ← lift (first_interface found.1)
    if is_covered N ip n.alias_ip_ranges
        then raise already_existing_ip
        else update found.0 found.1 (with_alias ip n)

  unfoldable pub release_private_ip : Option N.Addr → Node → M S (Unit {0})
  release_private_ip ip node = do
    found ← get_instance node
    n ← lift (first_interface found.1)
    if not (has_alias N ip n.alias_ip_ranges)
        then raise non_existing_ip
        else update found.0 found.1 (without_alias ip n)
