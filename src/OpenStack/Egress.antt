-- ===== src/OpenStack/Egress.antt =====
-- `GetNodeEgressIPConfiguration`, `getNeutronPortNodeEgressIPConfiguration` and `getIPsOnPort`
use cloud_network_config_con.Base.{
  ℕ, ◌-◌, ◌^◌, String, List, [], ◌∷◌, Option, none, some, not, ◌==◌, string_eq, leb, if◌then◌else◌,
  contains, length,
}
use cloud_network_config_con.Base.Int.{ℤ, pos, negsuc, sub_ℕ, min_ℤ, ◌-ℤ◌, pos_part}
use cloud_network_config_con.Effect.{
  errorf, errorf_of, Result, ok, err, panic, M, ◌>>=◌, pure, raise, lift, on_error,
}
use cloud_network_config_con.Cloud.{Net, Node, NodeEgressIpConfiguration}
use cloud_network_config_con.OpenStack.{
  Port, FixedIp, AddressPair, Subnet, Neutron, get_server_id, list_server_ports, get_subnets,
}

-- `openstackMaxCapacity`
abbrev pub max_capacity : ℕ
max_capacity = 64

-- `int(math.Pow(2, bits-prefix) - 2)` in floating point: a prefix beyond the bits, which an IPv4 range
-- that is written as an IPv6 one has, gives -1 or, where the power vanishes in the sum, -2.
unfoldable pub addresses_of : ℕ → ℕ → ℤ
addresses_of bits prefix =
    if leb prefix bits
    then sub_ℕ (2 ^ (bits - prefix)) 2
    else (if leb (prefix - bits) 52 then negsuc 0 else negsuc 1)

-- The number of addresses of a range, up to the maximum.
unfoldable pub ceiling : ℕ → ℕ → ℤ
ceiling bits prefix = min_ℤ (pos max_capacity) (addresses_of bits prefix)

-- A key of a Go map that is used as a set.
unfoldable pub add_text : List String → String → List String
add_text keys k = if contains keys k then keys else k ∷ keys

-- What the loop over the subnets of a port has found.
pub record Families : Type 0 where
  pub ipv4 : String
  pub ipv6 : String
  pub ipv4_cap : ℤ
  pub ipv6_cap : ℤ

module _ (N : Net) where
  -- The IPv4 addresses and the others, each once.
  unfoldable pub add_address : List String × List String → String → List String × List String
  add_address (v4, v6) a =
      if N.is_ipv4 (N.parse_ip a) then (add_text v4 a, v6) else (v4, add_text v6 a)

  unfoldable pub add_addresses : List String × List String → List String → List String × List String
  add_addresses used [] = used
  add_addresses used (a ∷ as') = add_addresses (add_address used a) as'

  abbrev pub fixed_texts : List FixedIp → List String
  fixed_texts [] = []
  fixed_texts (f ∷ fs) = f.ip_address ∷ fixed_texts fs

  abbrev pub pair_texts : List AddressPair → List String
  pair_texts [] = []
  pair_texts (p ∷ ps) = p.ip_address ∷ pair_texts ps

  unfoldable pub get_ips_on_port : Port → ℕ × ℕ
  get_ips_on_port p =
      let used =
        add_addresses (add_addresses ([], []) (fixed_texts p.fixed_ips))
          (pair_texts p.allowed_address_pairs) in
      (length used.0, length used.1)

  abbrev add_parsed : Port → Families → Subnet → Option (N.Addr × N.Subnet) → Result Families
  add_parsed p f s none = err (
      errorf "could not parse subnet information %s for network %s, err: %q"
        (s.cidr ∷ p.network_id ∷ []))
  add_parsed p f s (some (a, n)) =
      if N.is_ipv4 (some a)
      then (if not (f.ipv4 == "")
          then err (
              errorf "found multiple IPv4 subnets attached to port %s, this is not supported"
                (p.id ∷ []))
          else ok (record f {
            ipv4 = N.subnet_string n;
            ipv4_cap = ceiling 32 (pos_part (N.subnet_prefix n));
          }))
      else (if not (f.ipv6 == "")
          then err (
              errorf "found multiple IPv6 subnets attached to port %s, this is not supported"
                (p.id ∷ []))
          else ok (record f {
            ipv6 = N.subnet_string n;
            ipv6_cap = ceiling 128 (pos_part (N.subnet_prefix n));
          }))

  abbrev pub and_then : {A B : Type 0} → Result A → (A → Result B) → Result B
  and_then (ok a) f = f a
  and_then (err e) f = err e
  and_then panic f = panic

  -- The one IPv4 and the one IPv6 subnet of a port.
  unfoldable pub add_subnets : Port → Families → List Subnet → Result Families
  add_subnets p f [] = ok f
  add_subnets p f (s ∷ ss) =
      and_then (add_parsed p f s (N.parse_cidr s.cidr)) (λ f'. add_subnets p f' ss)

  abbrev no_families : Families
  no_families = record { ipv4 = ""; ipv6 = ""; ipv4_cap = pos 0; ipv6_cap = pos 0 }

  abbrev pub port_configuration : Port → Families → NodeEgressIpConfiguration
  port_configuration p f = record {
    interface = p.id;
    if_addr = record { ipv4 = f.ipv4; ipv6 = f.ipv6 };
    capacity = record {
      ipv4 = f.ipv4_cap -ℤ pos (get_ips_on_port p).0;
      ipv6 = f.ipv6_cap -ℤ pos (get_ips_on_port p).1;
      ip = pos 0;
    };
  }

  -- A range that another port of the server has already is an error; an empty one is not looked up.
  unfoldable pub add_cidr : String → Node → List String → String → Result (List String)
  add_cidr format node cidrs cidr =
      if cidr == ""
      then ok cidrs
      else (if contains cidrs cidr
          then err (errorf format (cidr ∷ node.name ∷ []))
          else ok (cidr ∷ cidrs))

  module _ {S : Type 0} (E : Neutron S) where
    unfoldable pub get_port_configuration : Port → M S NodeEgressIpConfiguration
    get_port_configuration p = do
      subnets ← on_error (get_subnets E p.network_id) (
          errorf_of "could not find subnet information for network %s, err: %q" (p.network_id ∷ []))
      families ← lift (add_subnets p no_families subnets)
      pure (port_configuration p families)

    unfoldable pub get_configurations :
        Node → List String → List Port → M S (List NodeEgressIpConfiguration)
    get_configurations node cidrs [] = pure []
    get_configurations node cidrs (p ∷ ps) = do
      c ← get_port_configuration p
      cidrs4 ← lift (
          add_cidr "IPv4 CIDR '%s' is attached more than once to node %s" node cidrs c.if_addr.ipv4)
      cidrs6 ← lift (
          add_cidr "IPv6 CIDR '%s' is attached more than once to node %s" node cidrs4
            c.if_addr.ipv6)
      rest ← get_configurations node cidrs6 ps
      pure (c ∷ rest)

    unfoldable pub get_node_egress_ip_configuration :
        Option Node → M S (List NodeEgressIpConfiguration)
    get_node_egress_ip_configuration none = raise (
        errorf
          "invalid nil pointer provided for node when trying to get node EgressIP configuration" [])
    get_node_egress_ip_configuration (some node) = do
      server_id ← lift (get_server_id E node.provider_id)
      ports ← list_server_ports E server_id
      get_configurations node [] ports
