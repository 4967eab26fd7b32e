-- ===== src/Azure/Changes.antt =====
-- `AssignPrivateIP` and `ReleasePrivateIP` of Azure.
use cloud_network_config_con.Base.{List, Option, none, some, not, if◌then◌else◌}
use cloud_network_config_con.Effect.{non_existing_ip, M, ◌>>=◌, raise, lift, deref}
use cloud_network_config_con.Cloud.{Net, Node}
use cloud_network_config_con.Azure.{
  Properties, IpConfiguration, Interface, Azure, first, with_address, keep_configurations, send,
}
use cloud_network_config_con.Azure.Interfaces.{get_instance, get_network_interfaces}

abbrev pub first_properties : List IpConfiguration → Option Properties
first_properties cs = of_first (first cs)
  where
    of_first : Option IpConfiguration → Option Properties
    of_first none = none
    of_first (some c) = c.properties

module _ (N : Net) {S : Type 0} (E : Azure S) where
  -- The first interface of the instance of a node.
  unfoldable pub first_interface : Node → M S Interface
  first_interface node = do
    instance' ← get_instance E node
    interfaces ← get_network_interfaces E instance'
    deref (first interfaces)

  unfoldable pub assign_private_ip : Option N.Addr → Node → M S (Unit {0})
  assign_private_ip ip node = do
    n ← first_interface node
    cs ← deref n.ip_configurations
    like ← deref (first_properties cs)
    send E (with_address N ip node like n cs)

  unfoldable pub release_private_ip : Option N.Addr → Node → M S (Unit {0})
  release_private_ip ip node = do
    n ← first_interface node
    cs ← deref n.ip_configurations
    kept ← lift (keep_configurations N ip cs)
    if not kept.1
        then raise non_existing_ip
        else send E (record n { ip_configurations = some kept.0 })
