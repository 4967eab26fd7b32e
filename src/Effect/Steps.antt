-- ===== src/Effect/Steps.antt =====
-- A relation between the world before a call and the world after it, however the call ends, for a
-- relation that is reflexive and transitive.
use cloud_network_config_con.Base.{subst}
use cloud_network_config_con.Effect.{
  GoError, Result, ok, err, panic, M, continue, ◌>>=◌, on_error, recast, attempt, caught, optional,
  answered,
}
use cloud_network_config_con.Effect.Ensures.{Ensures, Outcome-intro}
use cloud_network_config_con.Effect.Retry.{Runs, last, again}

module _ {S : Type 0} (R : S → S → Type 0) where
  abbrev pub Steps : {A : Type 0} → M S A → Type 0
  Steps m = (s : S) → R s (m s).1

  module _ (trans : (s t u : S) → R s t → R t u → R s u) where
    pub Steps-bind :
        {A B : Type 0} (m : M S A) (f : A → M S B)
        → Steps m
        → ((a : A) → Steps (f a))
        → Steps (m >>= f)
    Steps-bind {A = A} {B = B} m f h k s = by_result (m s) (h s)
      where
        by_result : (o : Result A × S) → R s o.1 → R s (continue f o).1
        by_result (ok a, t) r = trans s t (f a t).1 r (k a t)
        by_result (err e, t) r = r
        by_result (panic, t) r = r

  pub Steps-on_error :
      {A : Type 0} (m : M S A) (g : GoError → GoError) → Steps m → Steps (on_error m g)
  Steps-on_error {A = A} m g h s = by_result (m s) (h s)
    where
      by_result : (o : Result A × S) → R s o.1 → R s (recast g o).1
      by_result (ok a, t) r = r
      by_result (err e, t) r = r
      by_result (panic, t) r = r

  pub Steps-attempt : {A : Type 0} (m : M S A) → Steps m → Steps (attempt m)
  Steps-attempt {A = A} m h s = by_result (m s) (h s)
    where
      by_result : (o : Result A × S) → R s o.1 → R s (caught o).1
      by_result (ok a, t) r = r
      by_result (err e, t) r = r
      by_result (panic, t) r = r

  pub Steps-optional : {A : Type 0} (m : M S A) → Steps m → Steps (optional m)
  Steps-optional {A = A} m h s = by_result (m s) (h s)
    where
      by_result : (o : Result A × S) → R s o.1 → R s (answered o).1
      by_result (ok a, t) r = r
      by_result (err e, t) r = r
      by_result (panic, t) r = r

  -- A property that survives the relation holds after the call.
  pub Steps-Ensures :
      {A : Type 0} (P : S → Type 0) (m : M S A)
      → ((s t : S) → R s t → P s → P t)
      → Steps m
      → Ensures P m (λ _. P) P
  Steps-Ensures P m stable h s p =
      Outcome-intro (λ _. P) P (m s) (λ a e. stable s (m s).1 (h s) p) (stable s (m s).1 (h s) p)

  -- So does a call that is repeated on conflicts.
  pub Runs-Steps :
      {A : Type 0} (trans : (s t u : S) → R s t → R t u → R s u) (call : M S A)
      → Steps call
      → {s : S} {o : Result A × S} → Runs call s o
      → R s o.1
  Runs-Steps trans call h (last s) = h s
  Runs-Steps trans call h (again s t {o} e r) =
      trans s t o.1 (subst (λ p. R s p.1) e (h s)) (Runs-Steps trans call h r)
