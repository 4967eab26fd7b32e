-- ===== src/OpenStack/Release.antt =====
-- `ReleasePrivateIP`
use cloud_network_config_con.Base.{
  String, List, [], ◌∷◌, Option, none, some, Bool, true, false, if◌then◌else◌,
}
use cloud_network_config_con.Effect.{
  non_existing_ip, errorf, M, ◌>>=◌, ◌>>◌, pure, raise, lift, optional,
}
use cloud_network_config_con.Cloud.{Net, Node}
use cloud_network_config_con.OpenStack.{
  Port, Subnet, Neutron, is_allowed, get_server_id, list_server_ports, get_subnets,
}
use cloud_network_config_con.OpenStack.Pairs.{unallow_on_port}
use cloud_network_config_con.OpenStack.Reservation.{release_reservation, get_reservation}
use cloud_network_config_con.OpenStack.Assign.{fits, or_nothing}

module _ (N : Net) {S : Type 0} (E : Neutron S) where
  -- The reservation that was found, if any, is given back; the flag is `isFound`.
  unfoldable pub release_found : Bool → String → Option Port → M S Bool
  release_found found server_id none = pure found
  release_found found server_id (some p) = release_reservation N E p server_id >> pure true

  -- The reservations on all subnets whose range contains the address; what cannot be found is passed
  -- over.
  unfoldable pub release_subnets : Bool → Option N.Addr → String → List Subnet → M S Bool
  release_subnets found ip server_id [] = pure found
  release_subnets found ip server_id (s ∷ ss) =
      (if fits N ip s
        then optional (get_reservation N E s ip server_id) >>= release_found found server_id
        else pure found)
      >>= λ found'. release_subnets found' ip server_id ss

  unfoldable pub unallow_if : Bool → Option N.Addr → Port → M S Bool
  unallow_if found ip p =
      if is_allowed N p ip then unallow_on_port N E p.id ip >> pure true else pure found

  unfoldable pub release_ports : Bool → Option N.Addr → String → List Port → M S Bool
  release_ports found ip server_id [] = pure found
  release_ports found ip server_id (p ∷ ps) = do
    found' ← unallow_if found ip p
    subnets ← optional (get_subnets E p.network_id)
    found'' ← release_subnets found' ip server_id (or_nothing N subnets)
    release_ports found'' ip server_id ps

  unfoldable pub release_private_ip : Option N.Addr → Option Node → M S (Unit {0})
  release_private_ip ip none = raise (
      errorf "invalid nil pointer provided for node when trying to release IP %s"
        (N.ip_string ip ∷ []))
  release_private_ip ip (some node) = do
    server_id ← lift (get_server_id E node.provider_id)
    ports ← list_server_ports E server_id
    found ← release_ports false ip server_id ports
    if found then pure tt else raise non_existing_ip
