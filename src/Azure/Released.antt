-- ===== src/Azure/Released.antt =====
-- The interface that a release sends to Azure.
use cloud_network_config_con.Base.{
  String, List, [], ◌∷◌, ◌++◌, all, Option, none, some, Bool, true, false, not, Bool-cases, inl,
  inr, ◌≡◌, refl, arith,
}
use cloud_network_config_con.Effect.{Result, ok}
use cloud_network_config_con.Cloud.{Net, Node}
use cloud_network_config_con.Azure.{
  Properties, IpConfiguration, Interface, Azure, configuration, with_address, fate_of, address_of,
  add_fate, judged, keep_configurations, send,
}
use cloud_network_config_con.Azure.Changes.{first_interface, release_private_ip}

module _ (N : Net) (ip : Option N.Addr) where
  abbrev parsed_other : Option N.Addr → Bool
  parsed_other none = false
  parsed_other (some a) = not (N.ip_equal (some a) ip)

  abbrev address_other : Option String → Bool
  address_other none = false
  address_other (some a) = parsed_other (N.parse_ip a)

  -- The configuration has an address that parses, and not the one given.
  abbrev pub is_other : IpConfiguration → Bool
  is_other c = address_other (address_of N c)

  fate_lem : (o : Option N.Addr) → parsed_other o ≡ true → fate_of N ip o ≡ (true, false)
  fate_lem none h = cc
  fate_lem (some a) h = elim (Bool-cases (N.ip_equal (some a) ip)) [
    | inl e ↦ ground (arith, h, e)
    | inr e ↦ rw e refl
  ]

  judged_lem :
      (c : IpConfiguration) (o : Option String) (rest : Result (List IpConfiguration × Bool))
      → address_other o ≡ true
      → judged N ip c o rest ≡ add_fate N c (true, false) rest
  judged_lem c none rest h = cc
  judged_lem c (some a) rest h = rw (fate_lem (N.parse_ip a) h) refl

  -- A release of what an assignment has added leaves what was there.
  keep_configurations-with_address :
      (node : Node) (like : Properties) (a : N.Addr) (cs : List IpConfiguration)
      → N.parse_ip (N.ip_string ip) ≡ some a
      → N.ip_equal (some a) ip ≡ true
      → all is_other cs ≡ true
      → keep_configurations N ip (cs ++ (configuration N ip node like ∷ [])) ≡ ok (cs, true)
  unfolding keep_configurations
  keep_configurations-with_address node like a [] p e h = rw (p, e) refl
  keep_configurations-with_address node like a (c ∷ cs) p e h =
      rw
        (
          judged_lem c (address_of N c)
              (keep_configurations N ip (cs ++ (configuration N ip node like ∷ [])))
              (ground (arith, h)),
          keep_configurations-with_address node like a cs p e (ground (arith, h)),
        )
        refl

-- A release from an instance whose first interface is `n` with the address added by an assignment
-- sends `n` with just the configurations it had before: for an address whose printed form reads back
-- as an equal one, and configurations before each of which has an address that parses and is another.
pub release_private_ip-with_address :
    (N : Net) {S : Type 0} (E : Azure S) (ip : Option N.Addr) (a : N.Addr)
    → N.parse_ip (N.ip_string ip) ≡ some a
    → N.ip_equal (some a) ip ≡ true
    → (node : Node) (like : Properties) (n : Interface) (cs : List IpConfiguration) (s t : S)
    → first_interface N E node s ≡ (ok (with_address N ip node like n cs), t)
    → all (is_other N ip) cs ≡ true
    → release_private_ip N E ip node s ≡ send E (record n { ip_configurations = some cs }) t
unfolding release_private_ip
release_private_ip-with_address N E ip a p e node like n cs s t found others =
    rw (found, keep_configurations-with_address N ip node like a cs p e others) refl
