-- ===== src/Gcp/Provider.antt =====
-- GCP as a provider of the controllers. Addresses are never moved.
use cloud_network_config_con.Base.{false}
use cloud_network_config_con.Effect.{pure}
use cloud_network_config_con.Cloud.{Net, CloudProvider}
use cloud_network_config_con.Gcp.{Compute, assign_private_ip, release_private_ip}
use cloud_network_config_con.Gcp.Egress.{get_node_egress_ip_configuration}

abbrev pub provider : (N : Net) {S : Type 0} → Compute S → CloudProvider N S
provider N G = record {
  assign_private_ip = assign_private_ip N G;
  allows_move_private_ip = false;
  move_private_ip = λ ip add del. pure tt;
  release_private_ip = release_private_ip N G;
  get_node_egress_ip_configuration = get_node_egress_ip_configuration N G;
}
