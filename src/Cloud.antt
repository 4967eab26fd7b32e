-- ===== src/Cloud.antt =====
-- pkg/cloudprovider/cloudprovider.go: the interface of a cloud provider and the data that it
-- exchanges with the controllers, with the part of Go's package `net` that all of them call.
pub mod Ledger
use cloud_network_config_con.Base.{String, List, Option, Bool}
use cloud_network_config_con.Base.Int.{ℤ}
use cloud_network_config_con.Effect.{M}

-- `net.IP` is `Option Addr`, since it may be nil, and `*net.IPNet` is `Option Subnet`. The functions
-- are `net.ParseIP`, `IP.String`, `IP.Equal`, `net.ParseCIDR` (with `none` for an error),
-- `IPNet.Contains`, `IPNet.String`, `IPNet.Mask.Size`, and IsIPv4, IsIPv6, IsIPv6String, IsIPv4CIDR and IsIPv6CIDR
-- of the package k8s.io/utils/net.
pub record Net : Type 1 where
  pub Addr : Type 0
  pub Subnet : Type 0
  pub parse_ip : String → Option Addr
  pub ip_string : Option Addr → String
  pub ip_equal : Option Addr → Option Addr → Bool
  pub is_ipv4 : Option Addr → Bool
  pub is_ipv6 : Option Addr → Bool
  pub is_ipv6_string : String → Bool
  pub parse_cidr : String → Option (Addr × Subnet)
  pub subnet_contains : Subnet → Option Addr → Bool
  pub subnet_string : Subnet → String
  pub subnet_prefix : Subnet → ℤ
  pub is_ipv4_cidr : Subnet → Bool
  pub is_ipv6_cidr : Subnet → Bool

-- The fields of `corev1.Node` that the source reads. A nil map of annotations is `none`.
pub record Node : Type 0 where
  pub name : String
  pub provider_id : String
  pub annotations : Option (List (String × String))

-- `ifAddr`
pub record IfAddr : Type 0 where
  pub ipv4 : String
  pub ipv6 : String

-- `capacity`
pub record Capacity : Type 0 where
  pub ipv4 : ℤ
  pub ipv6 : ℤ
  pub ip : ℤ

pub record NodeEgressIpConfiguration : Type 0 where
  pub interface : String
  pub if_addr : IfAddr
  pub capacity : Capacity

-- `CloudProviderConfig`, the command-line options of a provider.
pub record CloudProviderConfig : Type 0 where
  pub platform_type : String
  pub api_override : String
  pub credential_dir : String
  pub config_dir : String
  pub region : String
  pub aws_ca_override : String
  pub azure_environment : String

-- `CloudProviderIntf`, without `initCredentials`, over worlds `S`.
pub record CloudProvider (N : Net) (S : Type 0) : Type 0 where
  pub assign_private_ip : Option N.Addr → Node → M S (Unit {0})
  pub allows_move_private_ip : Bool
  pub move_private_ip : Option N.Addr → Node → Node → M S (Unit {0})
  pub release_private_ip : Option N.Addr → Node → M S (Unit {0})
  pub get_node_egress_ip_configuration : Node → M S (List NodeEgressIpConfiguration)
