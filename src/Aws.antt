-- ===== src/Aws.antt =====
-- pkg/cloudprovider/aws.go: the cloud provider AWS.
pub mod Credentials
pub mod Provider
pub mod ProviderId
pub mod Waiting
pub mod Changes
pub mod Agreement
pub mod Egress
use cloud_network_config_con.Base.{
  String, List, [], ◌∷◌, ◌++◌, Option, none, some, Bool, true, false, not, ◌&&◌, ◌==◌, string_eq, ℕ,
  if◌then◌else◌, any, all, contains, count,
}
use cloud_network_config_con.Base.Int.{ℤ, pos, ◌-ℤ◌}
use cloud_network_config_con.Effect.{
  no_network_interface, already_existing_ip, non_existing_ip, errorf, errorf_of, Result, ok, err,
  panic, M, ◌>>=◌, ◌>>◌, pure, raise, crash, lift, deref, on_error,
}
use cloud_network_config_con.Cloud.{Net, Node, IfAddr, Capacity, NodeEgressIpConfiguration}
use cloud_network_config_con.Aws.ProviderId.{get_instance_id_from_provider_id}

-- `ec2.InstanceNetworkInterface`; an address that is nil is `none`.
pub record Interface : Type 0 where
  pub network_interface_id : Option String
  pub subnet_id : Option String
  pub ipv6_addresses : List (Option String)
  pub private_ip_addresses : List (Option String)

-- `ec2.Instance`
pub record Instance : Type 0 where
  pub instance_type : Option String
  pub network_interfaces : List (Option Interface)

-- `ec2.Subnet`, with the blocks of its IPv6 associations.
pub record Ec2Subnet : Type 0 where
  pub cidr_block : Option String
  pub ipv6_cidr_blocks : List (Option String)

-- `ec2.NetworkInfo` of an instance type, by its two limits.
pub record TypeLimits : Type 0 where
  pub ipv4_addresses_per_interface : Option ℕ
  pub ipv6_addresses_per_interface : Option ℕ

-- The calls of the EC2 API over worlds `S`, with the instances by reservations, and
-- `wait.PollImmediate` with the interval and the timeout of the source.
pub record Ec2 (S : Type 0) : Type 0 where
  pub describe_instances : String → M S (List (List Instance))
  pub describe_subnets : Option String → M S (List Ec2Subnet)
  pub describe_instance_types : Option String → M S (List (Option TypeLimits))
  pub assign_ipv6_addresses : Option String → List String → M S (Unit {0})
  pub assign_private_ip_addresses : Option String → List String → M S (Unit {0})
  pub unassign_ipv6_addresses : Option String → List String → M S (Unit {0})
  pub unassign_private_ip_addresses : Option String → List String → M S (Unit {0})
  pub poll_immediate : M S Bool → M S (Unit {0})

abbrev first_of : List (Option Interface) → Result Interface
first_of (some n ∷ _) = ok n
first_of _ = err no_network_interface

-- The first one of `getNetworkInterfaces`, which fails when there is none or it is nil.
abbrev pub first_interface : Instance → Result Interface
first_interface i = first_of i.network_interfaces

-- The same without the check: `instance.NetworkInterfaces[0]` and a use of its fields.
abbrev taken : List (Option Interface) → Result Interface
taken (some n ∷ _) = ok n
taken _ = panic

abbrev one_instance : Node → List Instance → Result Instance
one_instance node (i ∷ []) = ok i
one_instance node _ = err (
    errorf "error: found conflicting instance replicas for node: %s, instances: %v"
      (node.name ∷ []))

abbrev concat : List (List Instance) → List Instance
concat [] = []
concat (r ∷ rs) = r ++ concat rs

abbrev pub and_also : String → Result (List String) → Result (List String)
and_also s (ok ss) = ok (s ∷ ss)
and_also s r = r

abbrev head : List String → Option String
head [] = none
head (s ∷ _) = some s

module _ (N : Net) where
  -- `assignedIP != nil && assignedIP.Equal(ip)` for the address that a text stands for.
  abbrev equals : Option N.Addr → Option N.Addr → Bool
  equals ip none = false
  equals ip (some a) = N.ip_equal (some a) ip

  abbrev pub is_address : Option N.Addr → String → Bool
  is_address ip s = equals ip (N.parse_ip s)

  -- The loop that stops at the first address that is `ip`.
  abbrev pub has_address : Option N.Addr → List (Option String) → Result Bool
  has_address ip [] = ok false
  has_address ip (none ∷ _) = panic
  has_address ip (some s ∷ ss) = if is_address ip s then ok true else has_address ip ss

  -- The loop that collects the addresses to delete.
  abbrev pub matching : Option N.Addr → List (Option String) → Result (List String)
  matching ip [] = ok []
  matching ip (none ∷ _) = panic
  matching ip (some s ∷ ss) =
      if is_address ip s then and_also s (matching ip ss) else matching ip ss

  abbrev print : Option N.Addr → Result (List String) → Result (List String)
  print none r = r
  print (some a) r = and_also (N.ip_string (some a)) r

  -- The printed forms of the addresses that parse.
  abbrev pub assigned_ips : List (Option String) → Result (List String)
  assigned_ips [] = ok []
  assigned_ips (none ∷ _) = panic
  assigned_ips (some s ∷ ss) = print (N.parse_ip s) (assigned_ips ss)

  abbrev pub addresses : Bool → Interface → List (Option String)
  addresses ipv6 n = if ipv6 then n.ipv6_addresses else n.private_ip_addresses

  -- The addresses of the family of the first one to wait for.
  abbrev pub sampled : Option String → Result Interface → Result (List String)
  sampled (some sample) (ok n) = assigned_ips (addresses (N.is_ipv6_string sample) n)
  sampled _ _ = panic

  abbrev pub compare_ips : List String → Bool → Result (List String) → Result Bool
  compare_ips ips delete_op (ok assigned) =
      ok (if delete_op then not (any (contains assigned) ips) else all (contains assigned) ips)
  compare_ips ips delete_op (err e) = err e
  compare_ips ips delete_op panic = panic

  unfoldable pub fulfilled : List String → Bool → Instance → Result Bool
  fulfilled ips delete_op i =
      compare_ips ips delete_op (sampled (head ips) (taken i.network_interfaces))

  module _ {S : Type 0} (E : Ec2 S) where
    unfoldable pub get_instance : Node → M S Instance
    get_instance node = do
      id ← lift (get_instance_id_from_provider_id node.provider_id)
      reservations ←
          on_error (E.describe_instances id)
            (errorf_of "error: cannot list ec2 instance for node: %s, err: %v" (node.name ∷ []))
      lift (one_instance node (concat reservations))

    -- The condition that `waitForCompletion` polls.
    unfoldable pub completed : Node → List String → Bool → M S Bool
    completed node ips delete_op = get_instance node >>= λ i. lift (fulfilled ips delete_op i)

    unfoldable pub wait_for_completion : Node → List String → Bool → M S (Unit {0})
    wait_for_completion node ips delete_op = E.poll_immediate (completed node ips delete_op)

    abbrev pub assign_call : Bool → Option String → List String → M S (Unit {0})
    assign_call ipv6 = if ipv6 then E.assign_ipv6_addresses else E.assign_private_ip_addresses

    abbrev pub unassign_call : Bool → Option String → List String → M S (Unit {0})
    unassign_call ipv6 = if ipv6 then E.unassign_ipv6_addresses else E.unassign_private_ip_addresses

    unfoldable pub assign_new : Option N.Addr → Node → Interface → Bool → M S (Unit {0})
    assign_new ip node n true = raise already_existing_ip
    assign_new ip node n false = do
      assign_call (N.is_ipv6 ip) n.network_interface_id (N.ip_string ip ∷ [])
      wait_for_completion node (N.ip_string ip ∷ []) false

    unfoldable pub assign_private_ip : Option N.Addr → Node → M S (Unit {0})
    assign_private_ip ip node = do
      i ← get_instance node
      n ← lift (first_interface i)
      exists ← lift (has_address ip (addresses (N.is_ipv6 ip) n))
      assign_new ip node n exists

    unfoldable pub release_all : Option N.Addr → Node → Interface → List String → M S (Unit {0})
    release_all ip node n [] = raise non_existing_ip
    release_all ip node n (s ∷ ss) = do
      unassign_call (N.is_ipv6 ip) n.network_interface_id (s ∷ ss)
      wait_for_completion node (s ∷ ss) true

    unfoldable pub release_private_ip : Option N.Addr → Node → M S (Unit {0})
    release_private_ip ip node = do
      i ← get_instance node
      n ← lift (first_interface i)
      delete_ips ← lift (matching ip (addresses (N.is_ipv6 ip) n))
      release_all ip node n delete_ips
