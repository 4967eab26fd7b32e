-- ===== src/OpenStack/Reservation.antt =====
-- The unbound ports that reserve addresses: `reserveNeutronIPAddress`, `releaseNeutronIPAddress` and
-- `getNeutronPortWithIPAddressAndMachineID`.
use cloud_network_config_con.Base.{
  String, List, [], ◌∷◌, Option, none, some, Bool, not, ◌&&◌, ◌==◌, string_eq, if◌then◌else◌, any,
}
use cloud_network_config_con.Effect.{GoError, errorf, Result, ok, err, panic, M, ◌>>=◌, raise, lift}
use cloud_network_config_con.Cloud.{Net}
use cloud_network_config_con.OpenStack.{Port, Subnet, Neutron}
use cloud_network_config_con.OpenStack.Ids.{egress_ip_tag, generate_device_id, is_invalid_id}
use Prim.Native.String.{◌++◌ as append}

-- Whether the port is a reservation for the server.
unfoldable pub is_reservation : String → Port → Bool
is_reservation server_id p =
    p.device_owner == egress_ip_tag && p.device_id == generate_device_id server_id

module _ (N : Net) where
  abbrev pub has_fixed_ip : Subnet → Option N.Addr → Port → Bool
  has_fixed_ip s ip p = any (λ f. f.subnet_id == s.id && f.ip_address == N.ip_string ip) p.fixed_ips

  -- The first port of a page that is a reservation of the address for the server.
  unfoldable pub find_reservation : Subnet → Option N.Addr → String → List Port → Option Port
  find_reservation s ip server_id [] = none
  find_reservation s ip server_id (p ∷ ps) =
      let rest = find_reservation s ip server_id ps in
      if is_reservation server_id p && has_fixed_ip s ip p then some p else rest

  abbrev no_reservation : GoError
  no_reservation = errorf "expected to find a single port, instead found 0 ports" []

  abbrev pub or_later : Option Port → Result Port → Result Port
  or_later (some p) later = ok p
  or_later none later = later

  -- The search ends at the first such port, and at a page that fails.
  unfoldable pub search_pages :
      Subnet → Option N.Addr → String → List (Result (List Port)) → Result Port
  search_pages s ip server_id [] = err no_reservation
  search_pages s ip server_id (ok ps ∷ pages) =
      or_later (find_reservation s ip server_id ps) (search_pages s ip server_id pages)
  search_pages s ip server_id (err e ∷ pages) = err e
  search_pages s ip server_id (panic ∷ pages) = panic

  module _ {S : Type 0} (E : Neutron S) where
    unfoldable pub reserve : Subnet → Option N.Addr → String → M S Port
    reserve s ip server_id =
        if is_invalid_id server_id
        then raise (
            errorf "cannot assign IP address %s on subnet %s with an invalid serverID '%s'"
              (N.ip_string ip ∷ s.id ∷ server_id ∷ []))
        else E.create_port (record {
          network_id = s.network_id;
          fixed_ips = (record { subnet_id = s.id; ip_address = N.ip_string ip }) ∷ [];
          device_owner = egress_ip_tag;
          device_id = generate_device_id server_id;
          name = append "egressip-" (N.ip_string ip);
        })

    unfoldable pub release_reservation : Port → String → M S (Unit {0})
    release_reservation p server_id =
        if is_invalid_id server_id
        then raise (
            errorf "cannot release neutron port %s. An invalid serverID was provided '%s'"
              (p.id ∷ server_id ∷ []))
        else (if not (is_reservation server_id p)
            then raise (
                errorf
                  "cannot delete port '%s' for node with serverID '%s', it belongs to another device owner (%s) and/or device (%s)"
                  (p.id ∷ server_id ∷ p.device_owner ∷ p.device_id ∷ []))
            else E.delete_port p.id)

    unfoldable pub get_reservation : Subnet → Option N.Addr → String → M S Port
    get_reservation s ip server_id =
        if is_invalid_id server_id
        then raise (
            errorf
              "cannot retrieve neutron port with IP address %s on subnet %s with an invalid serverID '%s'"
              (N.ip_string ip ∷ s.id ∷ server_id ∷ []))
        else E.list_ports (record { network_id = s.network_id; device_owner = ""; device_id = "" })
          >>= (λ pages. lift (search_pages s ip server_id pages))
