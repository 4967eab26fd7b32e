-- ===== src/Azure/Order.antt =====
-- The order of the interfaces of an instance.
use cloud_network_config_con.Base.{
  List, [], ◌∷◌, ◌++◌, keep, some, Bool-cases, inl, inr, if◌then◌else◌, ◌≡◌, refl, sym, ap, ◌∙◌,
}
use cloud_network_config_con.Effect.{Result, ok, err, panic, M, continue, ◌>>=◌, pure}
use cloud_network_config_con.Azure.{InterfaceReference, Interface, Azure}
use cloud_network_config_con.Azure.Interfaces.{
  is_primary, is_secondary, get_network_interface, primary_interface, other_interfaces, or_first,
  get_network_interfaces,
}

unfoldable pub first_primary : List InterfaceReference → List InterfaceReference
first_primary [] = []
first_primary (r ∷ rs) =
    let rest = first_primary rs in if is_primary r.properties then r ∷ [] else rest

abbrev pub or_head : InterfaceReference → List InterfaceReference → List InterfaceReference
or_head r [] = r ∷ []
or_head r (x ∷ xs) = x ∷ xs

-- The references in the order that the documentation promises: the first primary one, then those that
-- are not primary as they are listed; the first one of the list where there are none of these.
unfoldable pub ordered : InterfaceReference → List InterfaceReference → List InterfaceReference
ordered r rs = or_head r (first_primary (r ∷ rs) ++ keep (λ x. is_secondary x.properties) (r ∷ rs))

module _ {S A B : Type 0} where
  continue_cong :
      (f g : A → M S B) (o : Result A × S)
      → ((a : A) (s : S) → f a s ≡ g a s)
      → continue f o ≡ continue g o
  continue_cong f g (ok a, s) h = h a s
  continue_cong f g (err e, s) h = refl
  continue_cong f g (panic, s) h = refl

continue_assoc :
    {S A B C : Type 0} (f : A → M S B) (g : B → M S C) (o : Result A × S)
    → continue g (continue f o) ≡ continue (λ a s. continue g (f a s)) o
continue_assoc f g (ok a, s) = refl
continue_assoc f g (err e, s) = refl
continue_assoc f g (panic, s) = refl

module _ {S : Type 0} (E : Azure S) where
  unfoldable pub fetch_all : List InterfaceReference → M S (List Interface)
  fetch_all [] = pure []
  fetch_all (r ∷ rs) = get_network_interface E r >>= λ i. fetch_all rs >>= λ is. pure (i ∷ is)

  primary_lem :
      (rs : List InterfaceReference) (s : S)
      → primary_interface E rs s ≡ fetch_all (first_primary rs) s
  unfolding primary_interface fetch_all first_primary
  primary_lem [] s = refl
  primary_lem (r ∷ rs) s = elim (Bool-cases (is_primary r.properties)) [
    | inl h ↦ rw h refl
    | inr h ↦ rw h (primary_lem rs s)
  ]

  others_lem :
      (rs : List InterfaceReference) (s : S)
      → other_interfaces E rs s ≡ fetch_all (keep (λ x. is_secondary x.properties) rs) s
  unfolding other_interfaces fetch_all
  others_lem [] s = refl
  others_lem (r ∷ rs) s = elim (Bool-cases (is_secondary r.properties)) [
    | inl h ↦ rw h (
        continue_cong _ _ (get_network_interface E r s)
          (λ i t. ap (continue (λ is. pure (i ∷ is))) (others_lem rs t)))
    | inr h ↦ rw h (others_lem rs s)
  ]

  -- The two loops one after the other fetch the references of both.
  append_lem :
      (k : List Interface → M S (List Interface)) (xs ys : List InterfaceReference) (s : S)
      → (fetch_all xs >>= λ ps. fetch_all ys >>= λ os. k (ps ++ os)) s
        ≡ (fetch_all (xs ++ ys) >>= k) s
  unfolding fetch_all
  append_lem k [] ys s = refl
  append_lem k (x ∷ xs) ys s =
      continue_assoc (λ i. fetch_all xs >>= λ is. pure (i ∷ is))
        (λ ps. fetch_all ys >>= λ os. k (ps ++ os)) (get_network_interface E x s)
      ∙ (continue_cong _ _ (get_network_interface E x s) (λ i t.
            continue_assoc (λ is. pure (i ∷ is)) (λ ps. fetch_all ys >>= λ os. k (ps ++ os))
              (fetch_all xs t)
            ∙ (append_lem (λ zs. k (i ∷ zs)) xs ys t
                ∙ sym (continue_assoc (λ is. pure (i ∷ is)) k (fetch_all (xs ++ ys) t))))
          ∙ sym (
              continue_assoc (λ i. fetch_all (xs ++ ys) >>= λ is. pure (i ∷ is)) k
                (get_network_interface E x s)))

  or_first_lem :
      (r : InterfaceReference) (xs : List InterfaceReference) (s : S)
      → (fetch_all xs >>= or_first E r) s ≡ fetch_all (or_head r xs) s
  unfolding fetch_all
  or_first_lem r [] s = refl
  or_first_lem r (x ∷ xs) s =
      continue_assoc (λ i. fetch_all xs >>= λ is. pure (i ∷ is)) (or_first E r)
        (get_network_interface E x s)
      ∙ continue_cong _ _ (get_network_interface E x s)
          (λ i t. continue_assoc (λ is. pure (i ∷ is)) (or_first E r) (fetch_all xs t))

  -- The interfaces of an instance with a first reference `r` and others `rs` are those that the calls
  -- for the references in the documented order give, one after the other, with the same world and the
  -- same error or panic.
  pub get_network_interfaces-ordered :
      (r : InterfaceReference) (rs : List InterfaceReference) (s : S)
      → get_network_interfaces E (some (some (r ∷ rs))) s ≡ fetch_all (ordered r rs) s
  unfolding get_network_interfaces ordered
  get_network_interfaces-ordered r rs s = rw (primary_lem (r ∷ rs) s) (
      continue_cong _ _ (fetch_all (first_primary (r ∷ rs)) s)
        (λ ps t. ap (continue (λ os. or_first E r (ps ++ os))) (others_lem (r ∷ rs) t))
      ∙ (append_lem (or_first E r) (first_primary (r ∷ rs))
            (keep (λ x. is_secondary x.properties) (r ∷ rs)) s
          ∙ or_first_lem r
              (first_primary (r ∷ rs) ++ keep (λ x. is_secondary x.properties) (r ∷ rs)) s))
