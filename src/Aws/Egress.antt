-- ===== src/Aws/Egress.antt =====
-- `GetNodeEgressIPConfiguration` of AWS and what it calls.
use cloud_network_config_con.Base.{
  String, List, [], ◌∷◌, Option, none, some, Bool, true, false, ◌==◌, string_eq, ℕ, suc,
  if◌then◌else◌,
}
use cloud_network_config_con.Base.Int.{ℤ, pos, ◌-ℤ◌}
use cloud_network_config_con.Effect.{
  errorf, errorf_of, Result, ok, err, panic, M, ◌>>=◌, pure, raise, lift, deref, on_error,
}
use cloud_network_config_con.Cloud.{Net, Node, NodeEgressIpConfiguration}
use cloud_network_config_con.Aws.{
  Interface, Instance, Ec2Subnet, TypeLimits, Ec2, first_interface, get_instance,
}

abbrev int64_value : Option ℕ → ℕ
int64_value none = 0
int64_value (some n) = n

-- `getInstanceCapacity` for the one instance type that must be listed; without network information
-- both capacities are 0.
unfoldable pub limits_of : List (Option TypeLimits) → Result (ℤ × ℤ)
limits_of (some t ∷ []) = ok (
  pos (int64_value t.ipv4_addresses_per_interface),
  pos (int64_value t.ipv6_addresses_per_interface),
)
limits_of (none ∷ []) = ok (pos 0, pos 0)
limits_of _ = err (errorf "multiple or no instance types found" [])

abbrev block_of : Option String → String
block_of none = ""
block_of (some s) = s

abbrev first_block : List (Option String) → String
first_block [] = ""
first_block (b ∷ _) = block_of b

abbrev counted : Bool → Result ℕ → Result ℕ
counted parses (ok n) = ok (if parses then suc n else n)
counted parses r = r

module _ (N : Net) where
  -- The error of `net.ParseCIDR` stands as the text that it names.
  abbrev parsed : String → String → Option (N.Addr × N.Subnet) → Result (Option N.Subnet)
  parsed format s none = err (errorf format (s ∷ []))
  parsed format s (some (_, subnet)) = ok (some subnet)

  -- A block that is nil or empty gives no subnet.
  abbrev pub parse_block : String → String → Result (Option N.Subnet)
  parse_block format s = if s == "" then ok none else parsed format s (N.parse_cidr s)

  abbrev is_parsed : Option N.Addr → Bool
  is_parsed none = false
  is_parsed (some _) = true

  -- The number of addresses that parse; a nil address is a panic.
  abbrev pub usage : List (Option String) → Result ℕ
  usage [] = ok 0
  usage (none ∷ _) = panic
  usage (some s ∷ ss) = counted (is_parsed (N.parse_ip s)) (usage ss)

  abbrev left : ℤ → Result ℕ → Result ℤ
  left capacity (ok n) = ok (capacity -ℤ pos n)
  left capacity (err e) = err e
  left capacity panic = panic

  abbrev text_of : Option N.Subnet → String
  text_of none = ""
  text_of (some s) = N.subnet_string s

  module _ {S : Type 0} (E : Ec2 S) where
    unfoldable pub get_instance_capacity : Instance → M S (ℤ × ℤ)
    get_instance_capacity i =
        E.describe_instance_types i.instance_type >>= λ ts. lift (limits_of ts)

    abbrev one_subnet : Interface → List Ec2Subnet → M S Ec2Subnet
    one_subnet n [] = lift panic
    one_subnet n (subnet ∷ []) = pure subnet
    one_subnet n _ = do
      id ← deref n.subnet_id
      raise (errorf "error: multiple subnets found for the subnet ID: %s" (id ∷ []))

    -- The first IPv4 and the first IPv6 block of the subnet of an interface.
    unfoldable pub get_subnet : Interface → M S (Option N.Subnet × Option N.Subnet)
    get_subnet n = do
      subnets ←
          on_error (E.describe_subnets n.subnet_id)
            (errorf_of "error: cannot list ec2 subnets, err: %v" [])
      subnet ← one_subnet n subnets
      v4 ←
          lift
            (parse_block "error: unable to parse IPv4 subnet, err: %v" (block_of subnet.cidr_block))
      v6 ← lift (
          parse_block "error: unable to parse IPv6 subnet, err: %v"
            (first_block subnet.ipv6_cidr_blocks))
      pure (v4, v6)

    -- `getCapacity`: the capacity of the instance less the addresses in use, per family.
    unfoldable pub get_capacity : ℤ → ℤ → Interface → M S (ℤ × ℤ)
    get_capacity capacity_v4 capacity_v6 n = do
      v6 ← lift (left capacity_v6 (usage n.ipv6_addresses))
      v4 ← lift (left capacity_v4 (usage n.private_ip_addresses))
      pure (v4, v6)

    unfoldable pub get_node_egress_ip_configuration : Node → M S (List NodeEgressIpConfiguration)
    get_node_egress_ip_configuration node = do
      i ← get_instance N E node
      capacities ←
          on_error (get_instance_capacity i)
            (errorf_of "error retrieving the instance capacities, err: %v" [])
      n ← lift (first_interface i)
      id ← deref n.network_interface_id
      subnets ←
          on_error (get_subnet n)
            (errorf_of "error retrieving the network interface subnets, err: %v" [])
      rest ← get_capacity capacities.0 capacities.1 n
      pure (
          (record {
            interface = id;
            if_addr = record { ipv4 = text_of subnets.0; ipv6 = text_of subnets.1 };
            capacity = record { ipv4 = rest.0; ipv6 = rest.1; ip = pos 0 };
          })
          ∷ [])
