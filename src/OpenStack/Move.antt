-- ===== src/OpenStack/Move.antt =====
-- `MovePrivateIP`
use cloud_network_config_con.Base.{List, [], ◌∷◌, Option, none, some, if◌then◌else◌}
use cloud_network_config_con.Effect.{
  GoError, is_already_existing_ip, errorf, errorf_of, M, ◌>>=◌, ◌>>◌, pure, raise, lift, attempt,
  unless,
}
use cloud_network_config_con.Cloud.{Net, Node}
use cloud_network_config_con.OpenStack.{Port, Neutron, is_allowed, get_server_id, list_server_ports}
use cloud_network_config_con.OpenStack.Pairs.{allow_on_port, unallow_on_port}
use cloud_network_config_con.OpenStack.Assign.{find_subnet_and_port}

module _ (N : Net) {S : Type 0} (E : Neutron S) where
  -- The address is taken off all ports of a server.
  unfoldable pub unallow_ports : Option N.Addr → List Port → M S (Unit {0})
  unallow_ports ip [] = pure tt
  unallow_ports ip (p ∷ ps) =
      (if is_allowed N p ip then unallow_on_port N E p.id ip else pure tt) >> unallow_ports ip ps

  unfoldable pub after_move_allow : Option N.Addr → Port → Option GoError → M S (Unit {0})
  after_move_allow ip p none = pure tt
  after_move_allow ip p (some e) =
      raise (
        errorf_of "could not allow IP address %s on port %s, err: %q" (N.ip_string ip ∷ p.id ∷ [])
          e)

  unfoldable pub move_between : Option N.Addr → Node → Node → M S (Unit {0})
  move_between ip node_to_add node_to_del = do
    server_id ← lift (get_server_id E node_to_del.provider_id)
    ports ← list_server_ports E server_id
    unallow_ports ip ports
    found ← find_subnet_and_port N E ip node_to_add
    e ← attempt (allow_on_port N E found.1.id ip)
    after_move_allow ip found.1 (unless is_already_existing_ip e)

  unfoldable pub move_private_ip : Option N.Addr → Option Node → Option Node → M S (Unit {0})
  move_private_ip ip (some node_to_add) (some node_to_del) = move_between ip node_to_add node_to_del
  move_private_ip ip _ _ = raise (
      errorf "invalid nil pointer provided for node when trying to move IP %s"
        (N.ip_string ip ∷ []))
