-- ===== src/Azure.antt =====
-- pkg/cloudprovider/azure.go: the cloud provider Azure. An address is assigned to an instance when one
-- of the configurations of its first network interface has it.
pub mod Credentials
pub mod Interfaces
pub mod Names
pub mod Changes
pub mod Egress
pub mod Provider
pub mod Released
pub mod Order
use cloud_network_config_con.Base.{
  ℕ, String, List, [], ◌∷◌, ◌++◌, Option, none, some, Bool, true, false, not, ◌||◌, if◌then◌else◌,
}
use cloud_network_config_con.Effect.{
  GoError, no_network_interface, non_existing_ip, Result, ok, err, panic, M, ◌>>=◌, ◌>>◌, pure,
  raise, lift, deref,
}
use cloud_network_config_con.Cloud.{Net, Node}
use Prim.Native.String.{◌++◌ as append}

-- `network.InterfaceIPConfigurationPropertiesFormat`; a subnet is given by the pointer to its id, and
-- the load balancer pools by their ids. A pointer that may be nil is an option.
pub record Properties : Type 0 where
  pub private_ip_address : Option String
  pub private_ip_allocation_method : String
  pub subnet : Option (Option String)
  pub primary : Option Bool
  pub load_balancer_backend_address_pools : Option (List String)

-- `network.InterfaceIPConfiguration`
pub record IpConfiguration : Type 0 where
  pub name : Option String
  pub properties : Option Properties

-- `network.Interface`. The list of configurations is `none` where the pointer to it or to the
-- properties that hold it is nil.
pub record Interface : Type 0 where
  pub id : Option String
  pub name : Option String
  pub ip_configurations : Option (List IpConfiguration)

-- `compute.NetworkInterfaceReference`, whose properties have nothing but the flag `Primary`.
pub record InterfaceReference : Type 0 where
  pub id : Option String
  pub properties : Option (Option Bool)

-- `network.Subnet` of a virtual network, whose properties hold the prefix.
pub record VirtualSubnet : Type 0 where
  pub name : Option String
  pub properties : Option (Option String)

-- `network.VirtualNetwork`; the address space is a pointer to a record with the pointer to the prefixes.
pub record VirtualNetwork : Type 0 where
  pub subnets : Option (List VirtualSubnet)
  pub address_space : Option (Option (List String))

-- The calls of Azure over worlds `S`, and the error as a text. A virtual machine is given by its
-- properties, which may be nil, and these by their network profile; a virtual network by its
-- properties. An update gives the operation to wait for.
pub record Azure (S : Type 0) : Type 0 where
  pub error_text : GoError → String
  pub get_machine : String → M S (Option (Option (Option (List InterfaceReference))))
  pub get_interface : String → M S Interface
  pub create_or_update : String → Interface → M S String
  pub wait_for_completion : String → M S (Unit {0})
  pub get_virtual_network : String → String → String → M S (Option VirtualNetwork)

-- The first element of a slice.
abbrev pub first : {A : Type 0} → List A → Option A
first [] = none
first (x ∷ _) = some x

module _ (N : Net) where
  abbrev pub configuration : Option N.Addr → Node → Properties → IpConfiguration
  configuration ip node like = record {
    name = some (append node.name (append "_" (N.ip_string ip)));
    properties = some (record {
      private_ip_address = some (N.ip_string ip);
      private_ip_allocation_method = "Static";
      subnet = like.subnet;
      primary = some false;
      load_balancer_backend_address_pools = like.load_balancer_backend_address_pools;
    });
  }

  -- The interface with one configuration more, like the one whose properties are given.
  abbrev pub with_address :
      Option N.Addr → Node → Properties → Interface → List IpConfiguration → Interface
  with_address ip node like n cs = record n {
    ip_configurations = some (cs ++ (configuration ip node like ∷ []));
  }

  -- What the loop of a release makes of one configuration: whether it is kept, and whether it has
  -- the address. One whose address does not parse is not kept.
  abbrev pub fate_of : Option N.Addr → Option N.Addr → Bool × Bool
  fate_of ip none = (false, false)
  fate_of ip (some a) = (not (N.ip_equal (some a) ip), N.ip_equal (some a) ip)

  abbrev pub address_of : IpConfiguration → Option String
  address_of c = of_properties c.properties
    where
      of_properties : Option Properties → Option String
      of_properties none = none
      of_properties (some p) = p.private_ip_address

  abbrev pub add_fate :
      IpConfiguration
      → Bool × Bool
      → Result (List IpConfiguration × Bool)
      → Result (List IpConfiguration × Bool)
  add_fate c (kept, assigned) (ok (cs, b)) = ok ((if kept then c ∷ cs else cs), assigned || b)
  add_fate c f (err e) = err e
  add_fate c f panic = panic

  abbrev pub judged :
      Option N.Addr
      → IpConfiguration
      → Option String
      → Result (List IpConfiguration × Bool)
      → Result (List IpConfiguration × Bool)
  judged ip c none rest = panic
  judged ip c (some a) rest = add_fate c (fate_of ip (N.parse_ip a)) rest

  -- The configurations that are kept, and whether the address is assigned.
  unfoldable pub keep_configurations :
      Option N.Addr → List IpConfiguration → Result (List IpConfiguration × Bool)
  keep_configurations ip [] = ok ([], false)
  keep_configurations ip (c ∷ cs) = judged ip c (address_of c) (keep_configurations ip cs)

module _ {S : Type 0} (E : Azure S) where
  -- The update with its name, and the wait for its end.
  unfoldable pub send : Interface → M S (Unit {0})
  send n = do name ← deref n.name; result ← E.create_or_update name n; E.wait_for_completion result
