-- ===== src/OpenStack/Assign.antt =====
-- `findAssignSubnetAndPort` and `AssignPrivateIP`. A node that is nil is `none`.
use cloud_network_config_con.Base.{
  ℕ, zero, suc, String, List, [], ◌∷◌, Option, none, some, Bool, false, if◌then◌else◌,
}
use cloud_network_config_con.Effect.{
  GoError, errorf, errorf_of, already_existing_ip, is_already_existing_ip, Result, ok, err, M,
  ◌>>=◌, pure, raise, lift, attempt, optional, unless,
}
use cloud_network_config_con.Cloud.{Net, Node}
use cloud_network_config_con.OpenStack.{
  Port, Subnet, Neutron, is_allowed, get_server_id, list_server_ports, get_subnets,
}
use cloud_network_config_con.OpenStack.Pairs.{allow_on_port}
use cloud_network_config_con.OpenStack.Reservation.{reserve, release_reservation}

module _ (N : Net) where
  abbrev contains_ip : Option N.Addr → Option (N.Addr × N.Subnet) → Bool
  contains_ip ip none = false
  contains_ip ip (some (_, n)) = N.subnet_contains n ip

  -- Whether the range of a subnet contains the address; one that does not parse is passed over.
  unfoldable pub fits : Option N.Addr → Subnet → Bool
  fits ip s = contains_ip ip (N.parse_cidr s.cidr)

  abbrev two_subnets : Option N.Addr → Node → Port → Subnet → Subnet → GoError
  two_subnets ip node p a b =
      errorf
        "requested IP address %s for node %s and port %s matches 2 different subnets, %s and %s"
        (N.ip_string ip ∷ node.name ∷ p.id ∷ a.id ∷ b.id ∷ [])

  -- The one subnet that contains the address; a second one is an error.
  unfoldable pub matching_subnet :
      Option N.Addr → Node → Port → Option Subnet → List Subnet → Result (Option Subnet)
  matching_subnet ip node p found [] = ok found
  matching_subnet ip node p none (s ∷ ss) =
      matching_subnet ip node p (if fits ip s then some s else none) ss
  matching_subnet ip node p (some m) (s ∷ ss) =
      let rest = matching_subnet ip node p (some m) ss in
      if fits ip s then err (two_subnets ip node p m s) else rest

  abbrev pub or_nothing : Option (List Subnet) → List Subnet
  or_nothing none = []
  or_nothing (some ss) = ss

  module _ {S : Type 0} (E : Neutron S) where
    abbrev pub not_assigned : Option N.Addr → Node → GoError
    not_assigned ip node =
        errorf "could not assign IP address %s to node %s" (N.ip_string ip ∷ node.name ∷ [])

    abbrev pub chosen : Port → Option Subnet → M S (Subnet × Port) → M S (Subnet × Port)
    chosen p none rest = rest
    chosen p (some s) rest = pure (s, p)

    -- The first port of the server with a subnet for the address. Subnets that cannot be listed are
    -- passed over.
    unfoldable pub find_in_ports : Option N.Addr → Node → List Port → M S (Subnet × Port)
    find_in_ports ip node [] = raise (not_assigned ip node)
    find_in_ports ip node (p ∷ ps) =
        let rest = find_in_ports ip node ps in
        if is_allowed N p ip then raise already_existing_ip else do
          subnets ← optional (get_subnets E p.network_id)
          found ← lift (matching_subnet ip node p none (or_nothing subnets))
          chosen p found rest

    unfoldable pub find_subnet_and_port : Option N.Addr → Node → M S (Subnet × Port)
    find_subnet_and_port ip node = do
      server_id ← lift (get_server_id E node.provider_id)
      ports ← list_server_ports E server_id
      find_in_ports ip node ports

    -- A success ends the loop.
    abbrev pub until_done : Option GoError → M S (Option GoError) → M S (Option GoError)
    until_done none rest = pure none
    until_done (some e) rest = rest

    -- What the ten attempts to give a reservation back have come to: `none` after a success, else
    -- the last error.
    unfoldable pub release_tries : ℕ → Port → String → Option GoError → M S (Option GoError)
    release_tries zero p server_id last = pure last
    release_tries (suc n) p server_id last = attempt (release_reservation N E p server_id) >>= λ e.
        until_done e (release_tries n p server_id e)

    abbrev pub status_format : Option GoError → String
    status_format none =
        "could not allow IP address %s on port %s, err: %q. Released neutron port reservation."
    status_format (some _) =
        "could not allow IP address %s on port %s, err: %q. Could not release neutron port reservation after 10 tries, err: %q"

    abbrev pub status_operands : Option GoError → List String
    status_operands none = []
    status_operands (some e) = E.error_text e ∷ []

    -- What follows the attempt to allow the address.
    unfoldable pub after_allow :
        Option N.Addr → String → Port → Port → Option GoError → M S (Unit {0})
    after_allow ip server_id p unbound none = pure tt
    after_allow ip server_id p unbound (some e) = do
      status ← release_tries 10 unbound server_id none
      raise (errorf_of (status_format status) (N.ip_string ip ∷ p.id ∷ status_operands status) e)

    unfoldable pub assign_private_ip : Option N.Addr → Option Node → M S (Unit {0})
    assign_private_ip ip none = raise (
        errorf "invalid nil pointer provided for node when trying to assign private IP %s"
          (N.ip_string ip ∷ []))
    assign_private_ip ip (some node) = do
      server_id ← lift (get_server_id E node.provider_id)
      found ← find_subnet_and_port ip node
      unbound ← reserve N E found.0 ip server_id
      e ← attempt (allow_on_port N E found.1.id ip)
      after_allow ip server_id found.1 unbound (unless is_already_existing_ip e)
