-- ===== src/OpenStack.antt =====
-- pkg/cloudprovider/openstack.go: the cloud provider OpenStack. An address is assigned to a server
-- when it is among the allowed address pairs of one of the server's ports, and it is reserved by
-- an unbound port.
pub mod Credentials
pub mod Ids
pub mod Pairs
pub mod Reservation
pub mod Assign
pub mod Release
pub mod Move
pub mod Egress
pub mod Provider
pub mod Store
pub mod Quiet
pub mod Cleared
pub mod Released
pub mod Placed
pub mod Held
pub mod Others
pub mod Kept
pub mod Moved
pub mod Untouched
pub mod Outside
pub mod Ledger
pub mod Undone
pub mod Limits
pub mod Usage
pub mod Tries
use cloud_network_config_con.Base.{
  String, List, [], ◌∷◌, ◌++◌, Option, none, some, Bool, true, false, ℕ, if◌then◌else◌, any,
}
use cloud_network_config_con.Base.Text.{trim_prefix}
use cloud_network_config_con.Effect.{GoError, errorf, Result, ok, err, panic, M, ◌>>=◌, raise, lift}
use cloud_network_config_con.Cloud.{Net}

-- `ports.IP` and `ports.AddressPair`
pub record FixedIp : Type 0 where
  pub subnet_id : String
  pub ip_address : String

pub record AddressPair : Type 0 where
  pub ip_address : String
  pub mac_address : String

-- `ports.Port`
pub record Port : Type 0 where
  pub id : String
  pub network_id : String
  pub device_owner : String
  pub device_id : String
  pub fixed_ips : List FixedIp
  pub allowed_address_pairs : List AddressPair
  pub revision_number : ℕ

-- `subnets.Subnet`
pub record Subnet : Type 0 where
  pub id : String
  pub network_id : String
  pub cidr : String

-- `ports.CreateOpts`, `ports.UpdateOpts` and `ports.ListOpts`; a filter that is empty is not set.
pub record CreateOpts : Type 0 where
  pub network_id : String
  pub fixed_ips : List FixedIp
  pub device_owner : String
  pub device_id : String
  pub name : String

pub record UpdateOpts : Type 0 where
  pub allowed_address_pairs : List AddressPair
  pub revision_number : ℕ

pub record ListOpts : Type 0 where
  pub network_id : String
  pub device_owner : String
  pub device_id : String

-- The calls of Neutron over worlds `S`, `retry.RetryOnConflict`, `uuid.Parse` with its success, and
-- `Error()` of an error. A list is given by the pages that the pager goes through, each of which may
-- fail to be fetched or extracted.
pub record Neutron (S : Type 0) : Type 1 where
  pub is_uuid : String → Bool
  pub error_text : GoError → String
  pub list_ports : ListOpts → M S (List (Result (List Port)))
  pub list_subnets : String → M S (List (Result (List Subnet)))
  pub create_port : CreateOpts → M S Port
  pub delete_port : String → M S (Unit {0})
  pub get_port : String → M S Port
  pub update_port : String → UpdateOpts → M S Port
  pub retry_on_conflict : M S (Unit {0}) → M S (Unit {0})

-- The nova device owner.
abbrev pub nova_device_owner : String
nova_device_owner = "compute:nova"

module _ {A : Type 0} where
  abbrev pub more : List A → Result (List A) → Result (List A)
  more xs (ok ys) = ok (xs ++ ys)
  more xs (err e) = err e
  more xs panic = panic

  -- The loop over the pages that collects all items, up to the first page that fails.
  abbrev pub all_pages : List (Result (List A)) → Result (List A)
  all_pages [] = ok []
  all_pages (ok xs ∷ pages) = more xs (all_pages pages)
  all_pages (err e ∷ _) = err e
  all_pages (panic ∷ _) = panic

module _ (N : Net) where
  -- `isIPAddressAllowedOnNeutronPort`
  abbrev pub is_pair_of : Option N.Addr → AddressPair → Bool
  is_pair_of ip p = N.ip_equal ip (N.parse_ip p.ip_address)

  abbrev pub pairs_allow : Option N.Addr → List AddressPair → Bool
  pairs_allow ip pairs = any (is_pair_of ip) pairs

  unfoldable pub is_allowed : Port → Option N.Addr → Bool
  is_allowed p ip = pairs_allow ip p.allowed_address_pairs

module _ {S : Type 0} (E : Neutron S) where
  -- `getNovaServerIDFromProviderID`
  unfoldable pub get_server_id : String → Result String
  get_server_id provider_id =
      if E.is_uuid (trim_prefix "openstack:///" provider_id)
      then ok (trim_prefix "openstack:///" provider_id)
      else err (errorf "cannot parse valid nova server ID from providerId '%s'" (provider_id ∷ []))

  unfoldable pub list_server_ports : String → M S (List Port)
  list_server_ports server_id =
      if E.is_uuid server_id
      then E.list_ports
          (record { network_id = ""; device_owner = nova_device_owner; device_id = server_id })
        >>= (λ pages. lift (all_pages pages))
      else raise (errorf "serverID '%s' is not a valid UUID" (server_id ∷ []))

  -- `getNeutronSubnetsForNetwork`
  unfoldable pub get_subnets : String → M S (List Subnet)
  get_subnets network_id =
      if E.is_uuid network_id
      then E.list_subnets network_id >>= (λ pages. lift (all_pages pages))
      else raise (errorf "networkID '%s' is not a valid UUID" (network_id ∷ []))
