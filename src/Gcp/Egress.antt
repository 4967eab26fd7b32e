-- ===== src/Gcp/Egress.antt =====
-- `GetNodeEgressIPConfiguration` of GCP and what it calls.
use cloud_network_config_con.Base.{
  String, List, [], ◌∷◌, ◌++◌, Option, none, some, ◌==◌, string_eq, ℕ, ◌+◌, if◌then◌else◌, ◌≡◌,
  refl, arith, ap, ◌∙◌,
}
use cloud_network_config_con.Base.Int.{ℤ, pos, ◌-ℤ◌}
use cloud_network_config_con.Effect.{errorf_of, M, ◌>>=◌, pure, lift, on_error}
use cloud_network_config_con.Cloud.{Net, Node, NodeEgressIpConfiguration}
use cloud_network_config_con.Gcp.{Interface, Compute, first_interface, get_instance}
use cloud_network_config_con.Gcp.Urls.{parse_subnet}
use cloud_network_config_con.Gcp.Aliases.{is_readable, reads}

-- `defaultGCPPrivateIPCapacity`
abbrev pub default_capacity : ℕ
default_capacity = 10

module _ (N : Net) where
  -- The families of the aliases that are readable: IPv4 and all others.
  abbrev pub cidr_family : Option (N.Addr × N.Subnet) → ℕ × ℕ
  cidr_family none = (0, 0)
  cidr_family (some (_, subnet)) = if N.is_ipv4_cidr subnet then (1, 0) else (0, 1)

  abbrev pub family : Option N.Addr → ℕ × ℕ → ℕ × ℕ
  family none other = other
  family (some a) other = if N.is_ipv4 (some a) then (1, 0) else (0, 1)

  unfoldable pub usage : List String → ℕ × ℕ
  usage [] = (0, 0)
  usage (r ∷ rs) =
      let rest = usage rs in
      let one = family (N.parse_ip r) (cidr_family (N.parse_cidr r)) in
      (one.0 + rest.0, one.1 + rest.1)

  unfoldable pub get_capacity : Interface → ℤ
  get_capacity n =
      (pos default_capacity -ℤ pos (usage n.alias_ip_ranges).0) -ℤ pos (usage n.alias_ip_ranges).1

  abbrev subnet_of : Option (N.Addr × N.Subnet) → Option N.Subnet
  subnet_of none = none
  subnet_of (some (_, subnet)) = some subnet

  -- A block that is empty or does not parse gives no subnet.
  abbrev block : String → Option N.Subnet
  block s = if s == "" then none else subnet_of (N.parse_cidr s)

  abbrev text_of : Option N.Subnet → String
  text_of none = ""
  text_of (some s) = N.subnet_string s

  module _ {S : Type 0} (G : Compute S) where
    unfoldable pub get_subnet : String → Interface → M S (Option N.Subnet × Option N.Subnet)
    get_subnet project n = do
      parts ← lift (parse_subnet n.subnetwork)
      blocks ← G.get_subnetwork project parts.0 parts.1
      pure (block blocks.0, block blocks.1)

    -- The loop returns at its first interface.
    unfoldable pub get_node_egress_ip_configuration : Node → M S (List NodeEgressIpConfiguration)
    get_node_egress_ip_configuration node = do
      found ←
          on_error (get_instance N G node)
            (errorf_of "error retrieving instance associated with node, err: %v" [])
      n ← lift (first_interface found.1)
      subnets ←
          on_error (get_subnet found.0.project n)
            (errorf_of "error retrieving the network interface subnets, err: %v" [])
      pure (
          (record {
            interface = n.name;
            if_addr = record { ipv4 = text_of subnets.0; ipv6 = text_of subnets.1 };
            capacity = record { ipv4 = pos 0; ipv6 = pos 0; ip = get_capacity n };
          })
          ∷ [])

  usage-append :
      (rs qs : List String)
      → ((usage (rs ++ qs)).0 ≡ (usage rs).0 + (usage qs).0)
        × ((usage (rs ++ qs)).1 ≡ (usage rs).1 + (usage qs).1)
  unfolding usage
  usage-append [] qs = (omega arith, omega arith)
  usage-append (r ∷ rs) qs = ground (arith, usage-append rs qs)

  -- One alias counts for one of the families if it is readable.
  usage_one :
      (r : String) → (usage (r ∷ [])).0 + (usage (r ∷ [])).1 ≡ (if is_readable N r then 1 else 0)
  unfolding usage
  usage_one r = by_cases (N.parse_ip r) (N.parse_cidr r)
    where
      by_cases :
          (o : Option N.Addr) (c : Option (N.Addr × N.Subnet))
          → (family o (cidr_family c)).0 + 0 + ((family o (cidr_family c)).1 + 0)
            ≡ (if reads N o c then 1 else 0)
      by_cases none none = refl
      by_cases none (some (a, n)) = ground arith
      by_cases (some a) c = ground arith

  less :
      (c u v a b : ℕ)
      → (pos c -ℤ pos (u + a)) -ℤ pos (v + b) ≡ ((pos c -ℤ pos u) -ℤ pos v) -ℤ pos (a + b)
  less c u v a b = ground arith

  -- One more alias takes one from the capacity of an interface if the package `net` reads it, of
  -- whatever family, and leaves it alone if not.
  pub get_capacity-append :
      (n : Interface) (r : String)
      → get_capacity (record n { alias_ip_ranges = n.alias_ip_ranges ++ (r ∷ []) })
        ≡ get_capacity n -ℤ pos (if is_readable N r then 1 else 0)
  unfolding get_capacity
  get_capacity-append n r =
      let more = usage-append n.alias_ip_ranges (r ∷ []) in
      rw (more.0, more.1)
        (less default_capacity (usage n.alias_ip_ranges).0 (usage n.alias_ip_ranges).1
            (usage (r ∷ [])).0 (usage (r ∷ [])).1
          ∙ ap (λ k. get_capacity n -ℤ pos k) (usage_one r))
