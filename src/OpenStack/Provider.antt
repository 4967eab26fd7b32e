-- ===== src/OpenStack/Provider.antt =====
-- OpenStack as a provider of the controllers, which never pass a nil node. Addresses are moved.
use cloud_network_config_con.Base.{true, some}
use cloud_network_config_con.Cloud.{Net, CloudProvider}
use cloud_network_config_con.OpenStack.{Neutron}
use cloud_network_config_con.OpenStack.Assign.{assign_private_ip}
use cloud_network_config_con.OpenStack.Release.{release_private_ip}
use cloud_network_config_con.OpenStack.Move.{move_private_ip}
use cloud_network_config_con.OpenStack.Egress.{get_node_egress_ip_configuration}

abbrev pub provider : (N : Net) {S : Type 0} → Neutron S → CloudProvider N S
provider N E = record {
  assign_private_ip = λ ip node. assign_private_ip N E ip (some node);
  allows_move_private_ip = true;
  move_private_ip = λ ip add del. move_private_ip N E ip (some add) (some del);
  release_private_ip = λ ip node. release_private_ip N E ip (some node);
  get_node_egress_ip_configuration = λ node. get_node_egress_ip_configuration N E (some node);
}
