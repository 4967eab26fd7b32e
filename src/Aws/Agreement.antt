-- ===== src/Aws/Agreement.antt =====
-- The errors of an assignment and of a release on AWS agree on whether the address is there.
use cloud_network_config_con.Base.{
  String, List, [], ◌∷◌, Option, none, some, Bool, true, false, ◌≡◌, refl, ap, all, ◌⊎◌, inl, inr,
  if◌then◌else◌,
}
use cloud_network_config_con.Effect.{already_existing_ip, non_existing_ip, ok, err}
use cloud_network_config_con.Cloud.{Net, Node}
use cloud_network_config_con.Aws.{
  Ec2, Instance, Interface, first_interface, is_address, has_address, matching, and_also, addresses,
  get_instance, assign_new, assign_private_ip, release_all, release_private_ip,
}

abbrev pub is_set : Option String → Bool
is_set none = false
is_set (some _) = true

module _ (N : Net) (ip : Option N.Addr) where
  -- An address is found, and there is something to delete; or neither.
  Found : List (Option String) → Type 0
  Found l =
      (has_address N ip l ≡ ok true)
        × ((s : String) × (ss : List String) × (matching N ip l ≡ ok (s ∷ ss)))
      ⊎ (has_address N ip l ≡ ok false) × (matching N ip l ≡ ok [])

  complete_matching :
      (l : List (Option String))
      → all is_set l ≡ true
      → (ss : List String) × (matching N ip l ≡ ok ss)
  complete_matching [] h = ([], refl)
  complete_matching (none ∷ l) h = cc
  complete_matching (some x ∷ l) h = step (is_address N ip x) (complete_matching l h)
    where
      step :
          (b : Bool)
          → (ss : List String) × (matching N ip l ≡ ok ss)
          → (ss : List String) × ((if b then and_also x (matching N ip l) else matching N ip l)
              ≡ ok ss)
      step true (ss, e) = (x ∷ ss, ap (and_also x) e)
      step false (ss, e) = (ss, e)

  found : (l : List (Option String)) → all is_set l ≡ true → Found l
  unfolding Found
  found [] h = inr (refl, refl)
  found (none ∷ l) h = cc
  found (some x ∷ l) h = step (is_address N ip x) (complete_matching l h) (found l h)
    where
      step :
          (b : Bool)
          → (ss : List String) × (matching N ip l ≡ ok ss)
          → Found l
          → ((if b then ok true else has_address N ip l) ≡ ok true)
              × ((s : String) × (ss : List String) × ((if b
                      then and_also x (matching N ip l)
                      else matching N ip l)
                    ≡ ok (s ∷ ss)))
            ⊎ ((if b then ok true else has_address N ip l) ≡ ok false)
              × ((if b then and_also x (matching N ip l) else matching N ip l) ≡ ok [])
      step true (ss, e) f = inl (refl, (x, ss, ap (and_also x) e))
      step false e f = f

-- On an instance whose first interface lists no nil addresses, an assignment is refused with
-- `AlreadyExistingIPError` or a release with `NonExistingIPError`, without more calls
-- of EC2 than the read of the instance.
pub assign_private_ip-release_private_ip :
    (N : Net) {S : Type 0} (E : Ec2 S) (ip : Option N.Addr) (node : Node) (i : Instance)
    (n : Interface) (s t : S)
    → get_instance N E node s ≡ (ok i, t)
    → first_interface i ≡ ok n
    → all is_set (addresses N (N.is_ipv6 ip) n) ≡ true
    → (assign_private_ip N E ip node s ≡ (err already_existing_ip, t))
      ⊎ (release_private_ip N E ip node s ≡ (err non_existing_ip, t))
unfolding assign_private_ip release_private_ip assign_new release_all Found
assign_private_ip-release_private_ip N E ip node i n s t read first set =
    elim (found N ip (addresses N (N.is_ipv6 ip) n) set) [
      | inl (h, _) ↦ inl (rw (read, first, h) refl)
      | inr (_, m) ↦ inr (rw (read, first, m) refl)
    ]
