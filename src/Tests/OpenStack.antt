-- ===== src/Tests/OpenStack.antt =====
-- The theorems on OpenStack at a Neutron with two servers, each with one port.
use cloud_network_config_con.Base.{
  ap, String, [], ◌∷◌, none, some, ◌||◌, subst, true, false, ◌≡◌, ◌≢◌, refl, arith, string_eq,
  if◌then◌else◌,
}
use cloud_network_config_con.Effect.{already_existing_ip, ok, err}
use cloud_network_config_con.Cloud.{Node}
use cloud_network_config_con.OpenStack.{get_server_id}
use cloud_network_config_con.OpenStack.{is_allowed, list_server_ports, get_subnets}
use cloud_network_config_con.OpenStack.Ids.{is_invalid_id}
use cloud_network_config_con.OpenStack.Reservation.{
  is_reservation, find_reservation, search_pages, reserve, get_reservation,
}
use cloud_network_config_con.OpenStack.Pairs.{
  update_pairs, allow_latest, unallow_latest, allow_on_port, unallow_on_port,
}
use cloud_network_config_con.OpenStack.Assign.{
  fits, matching_subnet, find_in_ports, find_subnet_and_port, assign_private_ip, after_allow,
}
use cloud_network_config_con.OpenStack.Release.{
  release_private_ip, release_found, release_ports, release_subnets, unallow_if,
}
use cloud_network_config_con.OpenStack.Move.{
  move_private_ip, move_between, unallow_ports, after_move_allow,
}
use cloud_network_config_con.OpenStack.Cleared.{Cleared}
use cloud_network_config_con.OpenStack.Released.{release_private_ip-Cleared}
use cloud_network_config_con.OpenStack.Held.{Held}
use cloud_network_config_con.OpenStack.Moved.{assign_private_ip-Held, move_private_ip-Moved}
use cloud_network_config_con.Base.{eq_iff, ◌==◌}
use cloud_network_config_con.Base.Text.{trim_prefix, behind}
use cloud_network_config_con.OpenStack.Provider.{provider}
use cloud_network_config_con.OpenStack.Ledger.{provider-Step}
use cloud_network_config_con.Cloud.Ledger.{Step, pass, move, perform, Asks}
use cloud_network_config_con.Tests.Sim.{text_net}
use cloud_network_config_con.Tests.SimNeutron.{exclusive, World, neutron, store, address}

abbrev first : Node
first = record { name = "a"; provider_id = "openstack:///u1"; annotations = none }

abbrev second : Node
second = record { name = "b"; provider_id = "openstack:///u2"; annotations = none }

abbrev nowhere : World
nowhere q = []

abbrev on_first : World
on_first q = if q == "p1" then record { ip_address = "10.0.0.5"; mac_address = "" } ∷ [] else []

first_id : get_server_id neutron first.provider_id ≡ ok "u1"
unfolding get_server_id trim_prefix behind
first_id = refl

second_id : get_server_id neutron second.provider_id ≡ ok "u2"
unfolding get_server_id trim_prefix behind
second_id = refl

assigned : (assign_private_ip text_net neutron address (some first) nowhere).0 ≡ ok tt
unfolding assign_private_ip find_subnet_and_port find_in_ports get_server_id list_server_ports
    is_allowed get_subnets matching_subnet fits reserve is_invalid_id allow_on_port allow_latest
    update_pairs after_allow trim_prefix behind
assigned = refl

assign_private_ip-Held_example :
    Held store "u1" (assign_private_ip text_net neutron address (some first) nowhere).1
assign_private_ip-Held_example =
    assign_private_ip-Held store refl first "u1" nowhere first_id assigned

released : (release_private_ip text_net neutron address (some first) on_first).0 ≡ ok tt
unfolding release_private_ip release_found release_ports unallow_if get_server_id list_server_ports
    is_allowed get_subnets release_subnets fits get_reservation is_invalid_id unallow_on_port
    unallow_latest update_pairs search_pages find_reservation is_reservation trim_prefix behind
released = refl

release_private_ip-Cleared_example :
    Cleared store "u1" (release_private_ip text_net neutron address (some first) on_first).1
release_private_ip-Cleared_example =
    release_private_ip-Cleared store "u1" first on_first first_id released

moved : (move_private_ip text_net neutron address (some second) (some first) on_first).0 ≡ ok tt
unfolding move_private_ip move_between unallow_ports after_move_allow find_subnet_and_port
    find_in_ports get_server_id list_server_ports is_allowed get_subnets matching_subnet fits
    allow_on_port allow_latest unallow_on_port unallow_latest update_pairs trim_prefix behind
moved = refl

apart : (q : String) → store.attached "u1" q ≡ true → store.attached "u2" q ≡ false
apart q h = on_two q h
  where
    on_two : (q : String) → (("p1" == q) || false) ≡ true → (("p2" == q) || false) ≡ false
    on_two q h =
        subst (λ x. (("p2" == x) || false) ≡ false) ((eq_iff "p1" q).0 (ground (arith, h))) refl

move_private_ip-Moved_example :
    Cleared store "u1"
      (move_private_ip text_net neutron address (some second) (some first) on_first).1
    × Held store "u2"
        (move_private_ip text_net neutron address (some second) (some first) on_first).1
move_private_ip-Moved_example =
    move_private_ip-Moved store refl second first "u2" "u1" apart on_first first_id second_id moved

abbrev u2 : String
u2 = "u2"

others : u2 ≢ "u1"
others e = ground (arith, ap (λ s. s == "u1") e)

passed : (perform (provider text_net neutron) address (move second first) on_first).0 ≡ ok tt
unfolding perform
passed = moved

provider-Step_example :
    Step
      (pass "u2" "u1")
      (λ b. Held store b on_first)
      (λ b.
        Held store b (perform (provider text_net neutron) address (move second first) on_first).1)
unfolding Asks
provider-Step_example =
    provider-Step store refl exclusive (move second first) (pass "u2" "u1") on_first
      (second_id, first_id, others) passed

-- The address is where it should be already, so the same move is refused.
move_again :
    (move_private_ip text_net neutron address
      (some second)
      (some first)
      (move_private_ip text_net neutron address (some second) (some first) on_first).1).0
    ≡ err already_existing_ip
unfolding move_private_ip move_between unallow_ports after_move_allow find_subnet_and_port
    find_in_ports get_server_id list_server_ports is_allowed get_subnets matching_subnet fits
    allow_on_port allow_latest unallow_on_port unallow_latest update_pairs trim_prefix behind
move_again = refl
