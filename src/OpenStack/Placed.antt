-- ===== src/OpenStack/Placed.antt =====
-- The update that allows an address on a port: what its success means.
use cloud_network_config_con.Base.{
  String, List, [], ◌∷◌, Option, none, true, ◌≡◌, refl, ◌∙◌, subst, ap, Bool-cases, inl, inr,
  string_eq, arith,
}
use cloud_network_config_con.Base.Text.{has_text}
use cloud_network_config_con.Effect.{
  GoError, Result, ok, err, panic, continue, recast, ◌>>=◌, pure, attempt, unless,
  is_already_existing_ip,
}
use cloud_network_config_con.Effect.Ensures.{Ensures, Answer, Anywhere, attempt_rule}
use cloud_network_config_con.Effect.Retry.{Runs, last, again}
use cloud_network_config_con.Cloud.{Net}
use cloud_network_config_con.OpenStack.{
  Port, Neutron, UpdateOpts, AddressPair, is_allowed, pairs_allow,
}
use cloud_network_config_con.OpenStack.Pairs.{
  with_pair, as_conflict, update_pairs, allow_latest, allow_on_port,
}
use cloud_network_config_con.OpenStack.Store.{Store}

module _ {N : Net} {S : Type 0} {E : Neutron S} {ip : Option N.Addr} (X : Store N E ip)
    (id : String) where
  -- What the caller of an allowing takes as a success: none, or the error that the address is there.
  abbrev pub Allowed : Option GoError → S → Type 0
  Allowed e s = unless is_already_existing_ip e ≡ none → X.allows s id ≡ true

  -- The address reads back as itself.
  module _ (reads : N.ip_equal ip (N.parse_ip (N.ip_string ip)) ≡ true) where
    with_pair_lem : (pairs : List AddressPair) → pairs_allow N ip (with_pair N ip pairs) ≡ true
    with_pair_lem [] = rw reads refl
    with_pair_lem (p ∷ ps) = ground (arith, with_pair_lem ps)

    -- Only a success of the update counts.
    update-Answer :
        (p : Port) (s : S)
        → p.id ≡ id
        → Answer Anywhere Allowed (update_pairs N E p (with_pair N ip p.allowed_address_pairs) s)
    unfolding update_pairs
    update-Answer p s same = by_result (E.update_port p.id opts s) refl
      where
        opts : UpdateOpts
        opts = record {
          allowed_address_pairs = with_pair N ip p.allowed_address_pairs;
          revision_number = p.revision_number;
        }

        by_result :
            (o : Result Port × S)
            → E.update_port p.id opts s ≡ o
            → Answer Anywhere Allowed (continue (λ _. pure tt) (recast (as_conflict N E) o))
        by_result (ok r, t) h = λ _.
            subst (λ u. X.allows u id ≡ true) (ap (λ o. o.1) h)
              (subst (λ q. X.allows (E.update_port p.id opts s).1 q ≡ true) same
                (X.update_writes p.id opts s (ap (λ o. o.0) h)
                  ∙ with_pair_lem p.allowed_address_pairs))
        by_result (err e, t) h =
            elim (Bool-cases (has_text "RevisionNumberConstraintFailed" (E.error_text e))) [
              | inl c ↦ rw c (λ a. cc)
              | inr c ↦ rw (c, X.update_errors p.id opts s (ap (λ o. o.0) h)) (λ a. cc)
            ]
        by_result (panic, t) h = tt

    latest-Answer :
        (p : Port) (s : S)
        → p.id ≡ id
        → X.allows s id ≡ pairs_allow N ip p.allowed_address_pairs
        → Answer Anywhere Allowed (allow_latest N E ip p s)
    unfolding allow_latest is_allowed
    latest-Answer p s same h = elim (Bool-cases (pairs_allow N ip p.allowed_address_pairs)) [
      | inl a ↦ rw a (λ _. h ∙ a)
      | inr a ↦ rw a (update-Answer p s same)
    ]

    attempt-Answer : (s : S) → Answer Anywhere Allowed ((E.get_port id >>= allow_latest N E ip) s)
    attempt-Answer s = by_result (E.get_port id s) refl
      where
        by_result :
            (o : Result Port × S)
            → E.get_port id s ≡ o
            → Answer Anywhere Allowed (continue (allow_latest N E ip) o)
        by_result (ok p, t) h = latest-Answer p t (X.get_reads id s (ap (λ o. o.0) h)).0 (
            subst (λ u. X.allows u id ≡ pairs_allow N ip p.allowed_address_pairs) (ap (λ o. o.1) h)
              (X.get_reads id s (ap (λ o. o.0) h)).1)
        by_result (err e, t) h = rw (X.get_errors id s (ap (λ o. o.0) h)) (λ a. cc)
        by_result (panic, t) h = tt

    Runs-Answer :
        {s : S} {o : Result (Unit {0}) × S}
        → Runs (E.get_port id >>= allow_latest N E ip) s o
        → Answer Anywhere Allowed o
    Runs-Answer (last s) = attempt-Answer s
    Runs-Answer (again s t e r) = Runs-Answer r

    pub allow_rule :
        (P : S → Type 0) → Ensures P (attempt (allow_on_port N E id ip)) Allowed Anywhere
    unfolding allow_on_port
    allow_rule P =
        attempt_rule Anywhere P Allowed (allow_on_port N E id ip)
          (λ s _. Runs-Answer (X.retry_runs (E.get_port id >>= allow_latest N E ip) s))
