-- ===== src/Azure/Egress.antt =====
-- `GetNodeEgressIPConfiguration` of Azure and what it calls.
use cloud_network_config_con.Base.{
  ℕ, suc, String, List, [], ◌∷◌, Option, none, some, Bool, true, false, ◌==◌, string_eq,
  if◌then◌else◌,
}
use cloud_network_config_con.Base.Text.{split, trim_prefix}
use cloud_network_config_con.Base.Int.{ℤ, pos, ◌-ℤ◌}
use cloud_network_config_con.Effect.{
  errorf, errorf_of, unexpected_uri, Result, ok, err, panic, M, ◌>>=◌, pure, lift, deref, on_error,
}
use cloud_network_config_con.Cloud.{Net, Node, NodeEgressIpConfiguration}
use cloud_network_config_con.Azure.{
  Properties, IpConfiguration, Interface, VirtualSubnet, VirtualNetwork, Azure, address_of,
}
use cloud_network_config_con.Azure.Interfaces.{get_name_from_resource_id}
use cloud_network_config_con.Azure.Changes.{first_interface}

-- `defaultAzurePrivateIPCapacity`
abbrev pub default_azure_capacity : ℕ
default_azure_capacity = 256

abbrev subnet_id_parts : String → List String → Result (String × String × String)
subnet_id_parts id (_ ∷ _ ∷ _ ∷ _ ∷ group ∷ _ ∷ _ ∷ _ ∷ network ∷ _ ∷ subnet ∷ []) =
    ok (group, network, subnet)
subnet_id_parts id _ = err (unexpected_uri id)

-- `getNetworkResourceGroupAndSubnetAndNetnames`
unfoldable pub get_subnet_names : String → Result (String × String × String)
get_subnet_names id = subnet_id_parts id (split b'/' id)

abbrev names_of_subnet : Option (Option String) → Result (String × String × String)
names_of_subnet (some (some id)) = get_subnet_names id
names_of_subnet _ = panic

abbrev names_if :
    Option Bool
    → Option (Option String)
    → Result (String × String × String)
    → Result (String × String × String)
names_if none subnet rest = panic
names_if (some true) subnet rest = names_of_subnet subnet
names_if (some false) subnet rest = rest

abbrev names_from :
    Option Properties → Result (String × String × String) → Result (String × String × String)
names_from none rest = panic
names_from (some p) rest = names_if p.primary p.subnet rest

-- The names in the subnet id of the first primary configuration; all empty where there is none.
unfoldable pub primary_names : List IpConfiguration → Result (String × String × String)
primary_names [] = ok ("", "", "")
primary_names (c ∷ cs) = names_from c.properties (primary_names cs)

-- Whether a subnet of the network is the one with the name, for which it needs a prefix.
abbrev prefix_if : String → VirtualSubnet → Result (Option String) → Result (Option String)
prefix_if subnet s rest = by_name s.name s.properties
  where
    by_prefix : String → Option (Option String) → Result (Option String)
    by_prefix name none = panic
    by_prefix name (some none) = rest
    by_prefix name (some (some prefix)) = if name == subnet then ok (some prefix) else rest

    by_name : Option String → Option (Option String) → Result (Option String)
    by_name none properties = rest
    by_name (some name) properties = by_prefix name properties

unfoldable pub prefix_of_subnet : String → List VirtualSubnet → Result (Option String)
prefix_of_subnet subnet [] = ok none
prefix_of_subnet subnet (s ∷ ss) = prefix_if subnet s (prefix_of_subnet subnet ss)

-- The prefixes of the whole network.
abbrev pub address_space_prefixes : Option (Option (List String)) → Result (List String)
address_space_prefixes none = err (errorf "nil subnet address space" [])
address_space_prefixes (some (some (p ∷ ps))) = ok (p ∷ ps)
address_space_prefixes _ = err (errorf "no subnet address prefixes defined" [])

abbrev or_space : Option (Option (List String)) → Result (Option String) → Result (List String)
or_space space (ok (some prefix)) = ok (prefix ∷ [])
or_space space (ok none) = address_space_prefixes space
or_space space (err e) = err e
or_space space panic = panic

unfoldable pub network_prefixes : String → VirtualNetwork → Result (List String)
network_prefixes subnet v = of_subnets v.subnets
  where
    of_subnets : Option (List VirtualSubnet) → Result (List String)
    of_subnets none = address_space_prefixes v.address_space
    of_subnets (some ss) = or_space v.address_space (prefix_of_subnet subnet ss)

module _ (N : Net) where
  abbrev or_else : Option N.Subnet → N.Subnet → Option N.Subnet
  or_else none s = some s
  or_else (some t) s = some t

  abbrev add_subnet :
      Option N.Subnet × Option N.Subnet → N.Subnet → Option N.Subnet × Option N.Subnet
  add_subnet (v4, v6) s = if N.is_ipv6_cidr s then (v4, or_else v6 s) else (or_else v4 s, v6)

  -- The first subnet of either family, up to a prefix that does not parse.
  unfoldable pub first_subnets :
      Option N.Subnet × Option N.Subnet → List String → Result (Option N.Subnet × Option N.Subnet)
  first_subnets found [] = ok found
  first_subnets found (p ∷ ps) =
      by_parse (N.parse_cidr p) (λ s. first_subnets (add_subnet found s) ps)
    where
      by_parse :
          Option (N.Addr × N.Subnet)
          → (N.Subnet → Result (Option N.Subnet × Option N.Subnet))
          → Result (Option N.Subnet × Option N.Subnet)
      by_parse none rest = err (
          errorf "error: unable to parse found AddressPrefix: %s for network interface, err: %v"
            (p ∷ []))
      by_parse (some (_, s)) rest = rest s

  abbrev pub count : Option N.Addr → ℕ → ℕ
  count none n = n
  count (some _) n = suc n

  abbrev pub add_use : Option String → Result ℕ → Result ℕ
  add_use none rest = panic
  add_use (some a) (ok n) = ok (count (N.parse_ip a) n)
  add_use (some a) (err e) = err e
  add_use (some a) panic = panic

  -- The configurations whose address parses, those of IPv4 and of IPv6 together.
  unfoldable pub usage : List IpConfiguration → Result ℕ
  usage [] = ok 0
  usage (c ∷ cs) = add_use (address_of N c) (usage cs)

  abbrev text_of : Option N.Subnet → String
  text_of none = ""
  text_of (some s) = N.subnet_string s

  module _ {S : Type 0} (E : Azure S) where
    unfoldable pub get_address_prefixes : Interface → M S (List String)
    get_address_prefixes n = do
      cs ← deref n.ip_configurations
      names ← lift (primary_names cs)
      network ←
          on_error (E.get_virtual_network names.0 names.1 "")
            (errorf_of "error retrieving subnet IP configuration, err: %v" [])
      v ← deref network
      lift (network_prefixes names.2 v)

    unfoldable pub get_subnet : Interface → M S (Option N.Subnet × Option N.Subnet)
    get_subnet n = do
      prefixes ←
          on_error (get_address_prefixes n) (
            errorf_of "error retrieving associated address prefix for network interface, err: %v"
              [])
      lift (first_subnets (none, none) prefixes)

    unfoldable pub get_capacity : Interface → M S ℤ
    get_capacity n = do
      cs ← deref n.ip_configurations
      used ← lift (usage cs)
      pure (pos default_azure_capacity -ℤ pos used)

    unfoldable pub get_node_egress_ip_configuration : Node → M S (List NodeEgressIpConfiguration)
    get_node_egress_ip_configuration node = do
      n ← first_interface N E node
      id ← deref n.id
      name ← deref (get_name_from_resource_id id)
      subnets ←
          on_error (get_subnet n)
            (errorf_of "error retrieving the network interface subnets, err: %v" [])
      capacity ← get_capacity n
      pure (
          (record {
            interface = trim_prefix "/" name;
            if_addr = record { ipv4 = text_of subnets.0; ipv6 = text_of subnets.1 };
            capacity = record { ipv4 = pos 0; ipv6 = pos 0; ip = capacity };
          })
          ∷ [])
