-- ===== src/OpenStack/Others.antt =====
-- The updates of one port leave the other ports alone.
use cloud_network_config_con.Base.{
  String, List, Option, ◌≡◌, ◌≢◌, refl, ◌∙◌, subst, ap, Bool-cases, inl, inr, string_eq,
}
use cloud_network_config_con.Effect.{Result, ok, err, panic, M, continue, ◌>>=◌, on_error}
use cloud_network_config_con.Effect.Steps.{Steps, Steps-bind, Steps-on_error, Runs-Steps}
use cloud_network_config_con.Cloud.{Net}
use cloud_network_config_con.OpenStack.{Port, Neutron, UpdateOpts, AddressPair, is_allowed}
use cloud_network_config_con.OpenStack.Pairs.{
  with_pair, without_pair, as_conflict, update_pairs, allow_latest, unallow_latest, allow_on_port,
  unallow_on_port,
}
use cloud_network_config_con.OpenStack.Store.{Store}

module _ {N : Net} {S : Type 0} {E : Neutron S} {ip : Option N.Addr} (X : Store N E ip)
    (id : String) where
  -- The ports other than `id` allow what they did.
  unfoldable pub Others : S → S → Type 0
  Others s t = (q : String) → q ≢ id → X.allows t q ≡ X.allows s q

  pub Others-trans : (s t u : S) → Others s t → Others t u → Others s u
  unfolding Others
  Others-trans s t u h k q ne = k q ne ∙ h q ne

  update-Others :
      (p : Port) (pairs : List AddressPair) → p.id ≡ id → Steps Others (update_pairs N E p pairs)
  unfolding update_pairs Others
  update-Others p pairs same =
      Steps-bind Others Others-trans (on_error (E.update_port p.id opts) (as_conflict N E)) _
        (Steps-on_error Others (E.update_port p.id opts) (as_conflict N E) updated)
        (λ _ s q ne. refl)
    where
      opts : UpdateOpts
      opts = record { allowed_address_pairs = pairs; revision_number = p.revision_number }

      updated : Steps Others (E.update_port p.id opts)
      updated s q ne = X.update_others p.id opts s q (λ e. ne (e ∙ same))

  latest-Others : (p : Port) → p.id ≡ id → Steps Others (allow_latest N E ip p)
  unfolding allow_latest Others
  latest-Others p same = elim (Bool-cases (is_allowed N p ip)) [
    | inl h ↦ rw h (λ s q ne. refl)
    | inr h ↦ rw h (update-Others p (with_pair N ip p.allowed_address_pairs) same)
  ]

  unallow_latest-Others : (p : Port) → p.id ≡ id → Steps Others (unallow_latest N E ip p)
  unfolding unallow_latest Others
  unallow_latest-Others p same = elim (Bool-cases (is_allowed N p ip)) [
    | inl h ↦ rw h (update-Others p (without_pair N ip p.allowed_address_pairs) same)
    | inr h ↦ rw h (λ s q ne. refl)
  ]

  -- The port that is read is the one that was asked for.
  attempt-Others :
      (k : Port → M S (Unit {0}))
      → ((p : Port) → p.id ≡ id → Steps Others (k p))
      → Steps Others (E.get_port id >>= k)
  unfolding Others
  attempt-Others k part s = by_result (E.get_port id s) refl
    where
      kept : (t : S) → (E.get_port id s).1 ≡ t → Others s t
      kept t h q ne = subst (λ u. X.allows u q ≡ X.allows s q) h (X.get_keeps id s q)

      by_result : (o : Result Port × S) → E.get_port id s ≡ o → Others s (continue k o).1
      by_result (ok p, t) h =
          Others-trans s t (k p t).1 (kept t (ap (λ o. o.1) h))
            (part p (X.get_reads id s (ap (λ o. o.0) h)).0 t)
      by_result (err e, t) h = kept t (ap (λ o. o.1) h)
      by_result (panic, t) h = kept t (ap (λ o. o.1) h)

  repeated-Others :
      (k : Port → M S (Unit {0}))
      → ((p : Port) → p.id ≡ id → Steps Others (k p))
      → Steps Others (E.retry_on_conflict (E.get_port id >>= k))
  unfolding Others
  repeated-Others k part s =
      Runs-Steps Others Others-trans (E.get_port id >>= k) (attempt-Others k part)
        (X.retry_runs (E.get_port id >>= k) s)

  pub allow_on_port-Others : Steps Others (allow_on_port N E id ip)
  unfolding allow_on_port
  allow_on_port-Others = repeated-Others (allow_latest N E ip) latest-Others

  pub unallow_on_port-Others : Steps Others (unallow_on_port N E id ip)
  unfolding unallow_on_port
  unallow_on_port-Others = repeated-Others (unallow_latest N E ip) unallow_latest-Others
