-- ===== src/OpenStack/Undone.antt =====
-- The pairs of a port after an address is allowed and no longer allowed.
use cloud_network_config_con.Base.{
  List, [], ◌∷◌, Option, true, false, ◌≡◌, refl, ap, arith, Bool-cases, inl, inr,
}
use cloud_network_config_con.Cloud.{Net}
use cloud_network_config_con.OpenStack.{
  Port, AddressPair, Neutron, is_allowed, is_pair_of, pairs_allow,
}
use cloud_network_config_con.OpenStack.Pairs.{with_pair, without_pair, update_pairs, unallow_latest}

module _ (N : Net) (ip : Option N.Addr)
    (reads : N.ip_equal ip (N.parse_ip (N.ip_string ip)) ≡ true) where
  undone_lem :
      (pairs : List AddressPair)
      → pairs_allow N ip pairs ≡ false
      → (without_pair N ip (with_pair N ip pairs) ≡ pairs)
        × (pairs_allow N ip (with_pair N ip pairs) ≡ true)
  undone_lem [] h = rw reads (refl, refl)
  undone_lem (p ∷ pairs) h = elim (Bool-cases (is_pair_of N ip p)) [
    | inl e ↦ ground (arith, h, e)
    | inr e ↦ rw e (
      ap (λ ps. p ∷ ps) (undone_lem pairs (ground (arith, h, e))).0,
      (undone_lem pairs (ground (arith, h, e))).1,
    )
  ]

  -- Where the address reads back as itself: on a port that does not allow it, what `allow_latest` has
  -- added `unallow_latest` takes away, and it sends the pairs that the port had, in their order.
  pub unallow_latest-with_pair :
      {S : Type 0} (E : Neutron S) (p : Port)
      → is_allowed N p ip ≡ false
      → unallow_latest N E ip
          (record p { allowed_address_pairs = with_pair N ip p.allowed_address_pairs })
        ≡ update_pairs N E
            (record p { allowed_address_pairs = with_pair N ip p.allowed_address_pairs })
            p.allowed_address_pairs
  unfolding is_allowed unallow_latest
  unallow_latest-with_pair E p h =
      let back = undone_lem p.allowed_address_pairs h in rw (back.0, back.1) refl
