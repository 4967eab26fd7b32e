-- ===== src/Effect/Success.antt =====
-- What a call that succeeds has done: each of its parts has succeeded.
use cloud_network_config_con.Base.{
  ◌≡◌, refl, sym, ap, Option, none, some, Bool, true, false, if◌then◌else◌,
}
use cloud_network_config_con.Effect.{
  GoError, Result, ok, err, panic, M, continue, ◌>>=◌, recast, on_error, deref, lift, pure, raise,
}

-- The call gives a value and a world.
abbrev pub Gives : {S A : Type 0} → M S A → S → A → S → Type 0
Gives m s a t = m s ≡ (ok a, t)

module _ {S A : Type 0} where
  gives_lem : (o : Result A × S) (a : A) → o.0 ≡ ok a → (t : S) × (o ≡ (ok a, t))
  gives_lem (r, t) a h = (t, ap (λ x. (x, t)) h)

  pub gives : (m : M S A) (s : S) (a : A) → (m s).0 ≡ ok a → (t : S) × Gives m s a t
  gives m s a h = gives_lem (m s) a h

  parts :
      {B : Type 0} (f : A → M S B) (o : Result A × S) (b : B) (u : S)
      → continue f o ≡ (ok b, u)
      → (a : A) × (t : S) × (o ≡ (ok a, t)) × Gives (f a) t b u
  parts f (ok a, t) b u h = (a, t, refl, h)
  parts f (err e, t) b u h = cc
  parts f (panic, t) b u h = cc

  pub Gives-bind :
      {B : Type 0} (m : M S A) (f : A → M S B) (s : S) (b : B) (u : S)
      → Gives (m >>= f) s b u
      → (a : A) × (t : S) × Gives m s a t × Gives (f a) t b u
  Gives-bind m f s b u h = parts f (m s) b u h

  recast_lem :
      (g : GoError → GoError) (o : Result A × S) (a : A) (t : S)
      → recast g o ≡ (ok a, t)
      → o ≡ (ok a, t)
  recast_lem g (ok x, t') a t h = h
  recast_lem g (err e, t') a t h = cc
  recast_lem g (panic, t') a t h = cc

  pub Gives-on_error :
      (m : M S A) (g : GoError → GoError) (s : S) (a : A) (t : S)
      → Gives (on_error m g) s a t
      → Gives m s a t
  Gives-on_error m g s a t h = recast_lem g (m s) a t h

  pub Gives-pure : (a b : A) (s t : S) → Gives (pure a) s b t → a ≡ b
  Gives-pure a b s t h = cc

  -- The world too stays as it is.
  pub Gives-pure_world : (a b : A) (s t : S) → Gives (pure a) s b t → (a ≡ b) × (s ≡ t)
  Gives-pure_world a b s t h = (Gives-pure a b s t h, ap (λ x. x.1) h)

  pub Gives-lift :
      (r : Result A) (s : S) (a : A) (t : S) → Gives (lift r) s a t → (r ≡ ok a) × (t ≡ s)
  Gives-lift r s a t h = (ap (λ x. x.0) h, sym (ap (λ x. x.1) h))

  pub Gives-deref :
      (o : Option A) (s : S) (a : A) (t : S) → Gives (deref o) s a t → (o ≡ some a) × (t ≡ s)
  Gives-deref none s a t h = cc
  Gives-deref (some x) s a t h = (cc, cc)

  -- A guard that fails when its test holds.
  pub Gives-guard :
      (b : Bool) (e : GoError) (m : M S A) (s : S) (a : A) (t : S)
      → Gives (if b then raise e else m) s a t
      → (b ≡ false) × Gives m s a t
  Gives-guard true e m s a t h = cc
  Gives-guard false e m s a t h = (refl, h)
