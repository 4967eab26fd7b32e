-- ===== src/Tests/OpenStackPorts.antt =====
-- The theorems on ids, capacities, reservations and pairs of OpenStack at concrete ports.
use cloud_network_config_con.Base.{
  String, [], some, true, false, ◌≡◌, ◌≢◌, ◌≤◌, ◌<◌, ◌+◌, ◌↔◌, refl, arith, ℕ, string_eq, suc,
}
use cloud_network_config_con.Base.Int.{pos, ◌≤ℤ◌}
use cloud_network_config_con.Effect.{already_existing_ip, ok, err}
use cloud_network_config_con.OpenStack.{Port}
use cloud_network_config_con.OpenStack.{is_allowed, Neutron}
use cloud_network_config_con.OpenStack.Ids.{
  generate_device_id, is_invalid_id, generate_device_id-bounds, generate_device_id-injective,
}
use cloud_network_config_con.OpenStack.Reservation.{is_reservation, release_reservation}
use cloud_network_config_con.OpenStack.Pairs.{with_pair, update_pairs, unallow_latest}
use cloud_network_config_con.OpenStack.Assign.{release_tries, after_allow}
use cloud_network_config_con.OpenStack.Egress.{ceiling}
use cloud_network_config_con.OpenStack.Limits.{ceiling-bounds}
use cloud_network_config_con.OpenStack.Tries.{after_allow-bounds}
use Prim.Native.String.{len}
use cloud_network_config_con.OpenStack.Undone.{unallow_latest-with_pair}
use cloud_network_config_con.Tests.Sim.{text_net}
use cloud_network_config_con.Tests.SimNeutron.{World, neutron, address, port}

abbrev nowhere : World
nowhere q = []

abbrev u1 : String
u1 = "u1"

generate_device_id-bounds_example :
    (is_invalid_id u1 ≡ false) ↔ (u1 ≢ "") × (len (generate_device_id u1) ≤ 255)
generate_device_id-bounds_example = generate_device_id-bounds "u1"

generate_device_id-injective_example : u1 ≡ u1
generate_device_id-injective_example = generate_device_id-injective "u1" "u1" refl

ceiling-bounds_example :
    (ceiling 32 24 ≤ℤ pos 64)
    × ((ceiling 32 24 ≡ pos 64) ↔ (24 + 7 ≤ 32))
    × ((pos 0 ≤ℤ ceiling 32 24) ↔ (24 < 32))
ceiling-bounds_example = ceiling-bounds 32 24

-- The worlds count the deletions of ports.
abbrev counting : Neutron ℕ
counting = record {
  is_uuid = λ _. true;
  error_text = λ _. "";
  list_ports = λ opts s. (ok [], s);
  list_subnets = λ n s. (ok [], s);
  create_port = λ opts s. (ok (port "p1" nowhere), s);
  delete_port = λ id s. (err already_existing_ip, suc s);
  get_port = λ id s. (ok (port id nowhere), s);
  update_port = λ id opts s. (ok (port id nowhere), s);
  retry_on_conflict = λ m s. m s;
}

counted : (id : String) (s : ℕ) → (counting.delete_port id s).1 ≤ s + 1
counted id s = ground arith

abbrev reserved : Port
reserved = record (port "r" nowhere) {
  device_owner = "OpenShiftEgressIP";
  device_id = "OpenShiftEgressIP_u1";
}

ten_deletions :
    (after_allow text_net counting address "u1"
      (port "p1" nowhere)
      reserved
      (some already_existing_ip)
      0).1
    ≡ 10
unfolding after_allow release_tries release_reservation is_invalid_id is_reservation
    generate_device_id
ten_deletions = refl

after_allow-bounds_example :
    ((after_allow text_net counting address "u1"
        (port "p1" nowhere)
        reserved
        (some already_existing_ip)
        0).1
      ≤ 0 + 10)
    × ((after_allow text_net counting address "u1"
          (port "p1" nowhere)
          reserved
          (some already_existing_ip)
          0).0
        ≢ ok tt)
after_allow-bounds_example =
    after_allow-bounds text_net counting (λ n. n) counted address "u1" (port "p1" nowhere) reserved
      already_existing_ip 0

not_allowed : is_allowed text_net (port "p1" nowhere) address ≡ false
unfolding is_allowed
not_allowed = refl

unallow_latest-with_pair_example :
    unallow_latest text_net neutron address
      (record (port "p1" nowhere) { allowed_address_pairs = with_pair text_net address [] })
    ≡ update_pairs text_net neutron
        (record (port "p1" nowhere) { allowed_address_pairs = with_pair text_net address [] })
        []
unallow_latest-with_pair_example =
    unallow_latest-with_pair text_net address refl neutron (port "p1" nowhere) not_allowed
