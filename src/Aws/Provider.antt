-- ===== src/Aws/Provider.antt =====
-- AWS as a provider of the controllers. Addresses are never moved.
use cloud_network_config_con.Base.{false}
use cloud_network_config_con.Effect.{pure}
use cloud_network_config_con.Cloud.{Net, CloudProvider}
use cloud_network_config_con.Aws.{Ec2, assign_private_ip, release_private_ip}
use cloud_network_config_con.Aws.Egress.{get_node_egress_ip_configuration}

abbrev pub provider : (N : Net) {S : Type 0} → Ec2 S → CloudProvider N S
provider N E = record {
  assign_private_ip = assign_private_ip N E;
  allows_move_private_ip = false;
  move_private_ip = λ ip add del. pure tt;
  release_private_ip = release_private_ip N E;
  get_node_egress_ip_configuration = get_node_egress_ip_configuration N E;
}
