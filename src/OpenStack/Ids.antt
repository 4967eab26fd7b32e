-- ===== src/OpenStack/Ids.antt =====
-- `generateDeviceID`, and the test on server ids before a reservation.
use Prim.Native.String.{len, ◌++◌}
use text.Mathlib.TextPositions.{len-append}
use text.Mathlib.TextLemmas.{append_cancel_left}
use cloud_network_config_con.Base.{
  String, Bool, false, ◌||◌, ◌==◌, string_eq, ltb, ◌-◌, ◌≤◌, ◌≡◌, ◌≢◌, arith, eq_iff, ◌↔◌,
}

-- `egressIPTag`
abbrev pub egress_ip_tag : String
egress_ip_tag = "OpenShiftEgressIP"

unfoldable pub generate_device_id : String → String
generate_device_id server_id = egress_ip_tag ++ ("_" ++ server_id)

-- `serverID == "" || len(serverID) > 254-len(egressIPTag)`; the characters of an id that `uuid.Parse`
-- takes are its bytes.
unfoldable pub is_invalid_id : String → Bool
is_invalid_id server_id = server_id == "" || ltb (254 - len egress_ip_tag) (len server_id)

-- The test refuses just the empty server ids and those whose device id has more than 255 characters.
pub generate_device_id-bounds :
    (server_id : String)
    → (is_invalid_id server_id ≡ false)
      ↔ (server_id ≢ "") × (len (generate_device_id server_id) ≤ 255)
unfolding is_invalid_id generate_device_id
generate_device_id-bounds server_id = (
  λ h. ground (
    arith,
    eq_iff server_id "",
    len-append egress_ip_tag ("_" ++ server_id),
    len-append "_" server_id,
  ),
  λ h. ground (
    arith,
    eq_iff server_id "",
    len-append egress_ip_tag ("_" ++ server_id),
    len-append "_" server_id,
  ),
)

-- Different servers have different device ids.
pub generate_device_id-injective :
    (a b : String) → generate_device_id a ≡ generate_device_id b → a ≡ b
unfolding generate_device_id
generate_device_id-injective a b h =
    append_cancel_left "_" a b (append_cancel_left egress_ip_tag ("_" ++ a) ("_" ++ b) h)
