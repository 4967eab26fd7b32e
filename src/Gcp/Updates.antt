-- ===== src/Gcp/Updates.antt =====
-- The interface that a release sends to GCP.
use cloud_network_config_con.Base.{String, [], ◌∷◌, ◌++◌, Option, some, true, false, all, ◌≡◌, refl}
use cloud_network_config_con.Effect.{ok}
use cloud_network_config_con.Cloud.{Net, Node}
use cloud_network_config_con.Gcp.{
  Interface, Instance, Compute, first_interface, get_instance, update, with_alias,
  release_private_ip,
}
use cloud_network_config_con.Gcp.Urls.{Location}
use cloud_network_config_con.Gcp.Aliases.{keep_aliases-assigned, is_readable, is_covered}

-- A release from an instance whose first interface is `n` with the address assigned to it sends `n`
-- as it was, but for the field that forces the aliases to be sent: for readable aliases of `n` none
-- of which covers the address, an address whose printed form reads back as an equal one, and ranges
-- that contain the address that they are written with.
pub release_private_ip-assigned :
    (N : Net) {S : Type 0} (G : Compute S) (ip : Option N.Addr) (a : N.Addr)
    → ((r : String) (b : N.Addr) (subnet : N.Subnet)
        → N.parse_cidr r ≡ some (b, subnet)
        → N.ip_equal (some b) ip ≡ true
        → N.subnet_contains subnet ip ≡ true)
    → N.parse_ip (N.ip_string ip) ≡ some a
    → N.ip_equal (some a) ip ≡ true
    → (node : Node) (l : Location) (i : Instance) (n : Interface) (s t : S)
    → get_instance N G node s ≡ (ok (l, i), t)
    → first_interface i ≡ ok (with_alias N G ip n)
    → all (is_readable N) n.alias_ip_ranges ≡ true
    → is_covered N ip n.alias_ip_ranges ≡ false
    → release_private_ip N G ip node s
      ≡ update N G l i
          (record n { force_send_fields = n.force_send_fields ++ ("AliasIpRanges" ∷ []) })
          t
unfolding release_private_ip
release_private_ip-assigned N G ip a within p e node l i n s t found first readable free =
    let back = keep_aliases-assigned N ip within a n.alias_ip_ranges p e readable free in
    rw (found, first, back.0, back.1) refl
