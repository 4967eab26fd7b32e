-- ===== src/Tests/Azure.antt =====
-- The theorems on Azure at one machine with two interfaces, the second of which is the primary one.
use cloud_network_config_con.Base.{
  List, [], ◌∷◌, none, some, true, ◌≡◌, refl, ◌==◌, string_eq, if◌then◌else◌,
}
use cloud_network_config_con.Base.Text.{split}
use cloud_network_config_con.Effect.{ok}
use cloud_network_config_con.Cloud.{Node}
use cloud_network_config_con.Azure.{
  Properties, IpConfiguration, Interface, InterfaceReference, Azure, with_address, send,
}
use cloud_network_config_con.Azure.Interfaces.{
  get_name_from_resource_id, get_instance, get_network_interface, primary_interface,
  other_interfaces, get_network_interfaces,
}
use cloud_network_config_con.Azure.Changes.{first_interface, release_private_ip}
use cloud_network_config_con.Azure.Order.{ordered, fetch_all, get_network_interfaces-ordered}
use cloud_network_config_con.Azure.Released.{release_private_ip-with_address}
use cloud_network_config_con.Tests.Sim.{text_net}

abbrev properties : Properties
properties = record {
  private_ip_address = some "10.0.0.1";
  private_ip_allocation_method = "Dynamic";
  subnet = none;
  primary = some true;
  load_balancer_backend_address_pools = none;
}

abbrev configurations : List IpConfiguration
configurations = (record { name = some "main"; properties = some properties }) ∷ []

abbrev interface : Interface
interface = record { id = some "/nic"; name = some "nic"; ip_configurations = some configurations }

abbrev plain : InterfaceReference
plain = record { id = some "x/other"; properties = some none }

abbrev primary : InterfaceReference
primary = record { id = some "x/nic"; properties = some (some true) }

-- The world is the interface that was sent last, which is the primary one.
abbrev azure : Azure Interface
azure = record {
  error_text = λ _. "";
  get_machine = λ name s. (ok (some (some (some (plain ∷ primary ∷ [])))), s);
  get_interface = λ name s. (ok (if name == "/nic" then s else interface), s);
  create_or_update = λ name n s. (ok "operation", n);
  wait_for_completion = λ o s. (ok tt, s);
  get_virtual_network = λ g n e s. (ok none, s);
}

abbrev host : Node
host = record { name = "a"; provider_id = "azure:///s/i/r/g/p/m/v/name"; annotations = none }

abbrev assigned : Interface
assigned = with_address text_net (some "10.0.0.5") host properties interface configurations

found : first_interface text_net azure host assigned ≡ (ok assigned, assigned)
unfolding first_interface get_instance split get_network_interfaces primary_interface
    other_interfaces get_network_interface get_name_from_resource_id
found = refl

release_private_ip-with_address_example :
    release_private_ip text_net azure (some "10.0.0.5") host assigned
    ≡ send azure (record interface { ip_configurations = some configurations }) assigned
release_private_ip-with_address_example =
    release_private_ip-with_address text_net azure (some "10.0.0.5") "10.0.0.5" refl refl host
      properties interface configurations assigned assigned found refl

get_network_interfaces-ordered_example :
    get_network_interfaces azure (some (some (plain ∷ primary ∷ []))) assigned
    ≡ fetch_all azure (ordered plain (primary ∷ [])) assigned
get_network_interfaces-ordered_example =
    get_network_interfaces-ordered azure plain (primary ∷ []) assigned
