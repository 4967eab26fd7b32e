-- ===== src/OpenStack/Tries.antt =====
-- The attempts to give a reservation back.
use cloud_network_config_con.Base.{
  ℕ, zero, suc, ◌+◌, ◌≤◌, String, ◌∷◌, Option, none, some, Bool-cases, inl, inr, ◌≡◌, ◌≢◌, refl,
  arith,
}
use cloud_network_config_con.Effect.{
  GoError, Result, ok, err, panic, M, attempt, caught, continue, raise, errorf_of,
}
use cloud_network_config_con.Cloud.{Net}
use cloud_network_config_con.OpenStack.{Port, Neutron}
use cloud_network_config_con.OpenStack.Ids.{is_invalid_id}
use cloud_network_config_con.OpenStack.Reservation.{is_reservation, release_reservation}
use cloud_network_config_con.OpenStack.Assign.{
  until_done, release_tries, after_allow, status_format, status_operands,
}

module _ (N : Net) {S : Type 0} (E : Neutron S) (deletes : S → ℕ)
    (counted : (id : String) (s : S) → deletes (E.delete_port id s).1 ≤ deletes s + 1) where
  release_once :
      (p : Port) (id : String) (s : S) → deletes (release_reservation N E p id s).1 ≤ deletes s + 1
  unfolding release_reservation
  release_once p id s = elim (Bool-cases (is_invalid_id id)) [
    | inl h ↦ rw h (ground arith)
    | inr h ↦ rw h (elim (Bool-cases (is_reservation id p)) [
      | inl r ↦ rw r (counted p.id s)
      | inr r ↦ rw r (ground arith)
    ])
  ]

  -- One attempt, after which the others follow unless it has succeeded.
  next_lem :
      (m n : ℕ) (rest : Option GoError → M S (Option GoError)) (o : Result (Option GoError) × S)
      → deletes o.1 ≤ m + 1
      → ((e : Option GoError) (t : S) → deletes (rest e t).1 ≤ deletes t + n)
      → deletes (continue (λ e. until_done N E e (rest e)) o).1 ≤ m + suc n
  next_lem m n rest (ok none, t) h k = ground (arith, h)
  next_lem m n rest (ok (some e), t) h k = ground (arith, h, k (some e) t)
  next_lem m n rest (err e, t) h k = ground (arith, h)
  next_lem m n rest (panic, t) h k = ground (arith, h)

  attempt_lem : (o : Result (Unit {0}) × S) → (caught o).1 ≡ o.1
  attempt_lem (ok a, s) = refl
  attempt_lem (err e, s) = refl
  attempt_lem (panic, s) = refl

  tries_lem :
      (n : ℕ) (p : Port) (id : String) (last : Option GoError) (s : S)
      → deletes (release_tries N E n p id last s).1 ≤ deletes s + n
  unfolding release_tries
  tries_lem zero p id last s = ground arith
  tries_lem (suc n) p id last s =
      next_lem (deletes s) n (λ e. release_tries N E n p id e)
        (attempt (release_reservation N E p id) s)
        (rw (attempt_lem (release_reservation N E p id s)) (release_once p id s))
        (λ e t. tries_lem n p id e t)

  -- Where a deletion of a port counts as one: an assignment whose address could not be allowed deletes
  -- a port at most ten times, and it gives an error or panics.
  pub after_allow-bounds :
      (ip : Option N.Addr) (server_id : String) (p unbound : Port) (e : GoError) (s : S)
      → (deletes (after_allow N E ip server_id p unbound (some e) s).1 ≤ deletes s + 10)
        × ((after_allow N E ip server_id p unbound (some e) s).0 ≢ ok tt)
  unfolding after_allow
  after_allow-bounds ip server_id p unbound e s =
      by_tries (release_tries N E 10 unbound server_id none s)
        (tries_lem 10 unbound server_id none s)
    where
      raised : Option GoError → M S (Unit {0})
      raised status = raise (
          errorf_of (status_format N E status) (N.ip_string ip ∷ p.id ∷ status_operands N E status)
            e)

      by_tries :
          (o : Result (Option GoError) × S)
          → deletes o.1 ≤ deletes s + 10
          → (deletes (continue raised o).1 ≤ deletes s + 10) × ((continue raised o).0 ≢ ok tt)
      by_tries (ok a, t) h = (h, λ x. cc)
      by_tries (err a, t) h = (h, λ x. cc)
      by_tries (panic, t) h = (h, λ x. cc)
