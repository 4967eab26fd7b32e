-- ===== src/Effect/Ensures.antt =====
-- What a call guarantees, on success and on failure, and the rules for its parts.
use cloud_network_config_con.Base.{Option, none, some, ◌≡◌, refl, sym, subst, arith}
use cloud_network_config_con.Effect.{
  GoError, Result, ok, err, panic, M, continue, ◌>>=◌, on_error, recast, attempt, caught,
}

-- `Q` holds of the value and the world after a success, `E` of the world after an error or a panic.
abbrev pub Outcome : {S A : Type 0} → (A → S → Type 0) → (S → Type 0) → Result A × S → Type 0
Outcome Q E (ok a, s) = Q a s
Outcome Q E (err e, s) = E s
Outcome Q E (panic, s) = E s

-- From every world that satisfies `P` the call ends in one that satisfies `Q`, or fails with `E`.
abbrev pub Ensures :
    {S A : Type 0} → (S → Type 0) → M S A → (A → S → Type 0) → (S → Type 0) → Type 0
Ensures {S} P m Q E = (s : S) → P s → Outcome Q E (m s)

module _ {S : Type 0} (E : S → Type 0) where
  Outcome-bind :
      {A B : Type 0} (Q : A → S → Type 0) (R : B → S → Type 0) (f : A → M S B) (o : Result A × S)
      → Outcome Q E o
      → ((a : A) → Ensures (Q a) (f a) R E)
      → Outcome R E (continue f o)
  Outcome-bind Q R f (ok a, s) h k = k a s h
  Outcome-bind Q R f (err e, s) h k = h
  Outcome-bind Q R f (panic, s) h k = h

  -- `x ← m` and the rest.
  pub bind_rule :
      {A B : Type 0} (P : S → Type 0) (Q : A → S → Type 0) (R : B → S → Type 0) (m : M S A)
      (f : A → M S B)
      → Ensures P m Q E
      → ((a : A) → Ensures (Q a) (f a) R E)
      → Ensures P (m >>= f) R E
  bind_rule P Q R m f h k s p = Outcome-bind Q R f (m s) (h s p) k

  Outcome-recast :
      {A : Type 0} (Q : A → S → Type 0) (g : GoError → GoError) (o : Result A × S)
      → Outcome Q E o
      → Outcome Q E (recast g o)
  Outcome-recast Q g (ok a, s) h = h
  Outcome-recast Q g (err e, s) h = h
  Outcome-recast Q g (panic, s) h = h

  -- Rewording the error changes nothing.
  pub on_error_rule :
      {A : Type 0} (P : S → Type 0) (Q : A → S → Type 0) (m : M S A) (g : GoError → GoError)
      → Ensures P m Q E
      → Ensures P (on_error m g) Q E
  on_error_rule P Q m g h s p = Outcome-recast Q g (m s) (h s p)

  -- The same of a call whose error is caught.
  abbrev pub Answer : {A : Type 0} → (Option GoError → S → Type 0) → Result A × S → Type 0
  Answer Q (ok a, s) = Q none s
  Answer Q (err e, s) = Q (some e) s
  Answer Q (panic, s) = E s

  Outcome-caught :
      {A : Type 0} (Q : Option GoError → S → Type 0) (o : Result A × S)
      → Answer Q o
      → Outcome Q E (caught o)
  Outcome-caught Q (ok a, s) h = h
  Outcome-caught Q (err e, s) h = h
  Outcome-caught Q (panic, s) h = h

  pub attempt_rule :
      {A : Type 0} (P : S → Type 0) (Q : Option GoError → S → Type 0) (m : M S A)
      → ((s : S) → P s → Answer Q (m s))
      → Ensures P (attempt m) Q E
  attempt_rule P Q m h s p = Outcome-caught Q (m s) (h s p)

module _ {S A : Type 0} where
  -- From what a call answers and the world that it leaves.
  pub Outcome-intro :
      (Q : A → S → Type 0) (E : S → Type 0) (o : Result A × S)
      → ((a : A) → o.0 ≡ ok a → Q a o.1)
      → E o.1
      → Outcome Q E o
  Outcome-intro Q E (ok a, s) h k = h a refl
  Outcome-intro Q E (err e, s) h k = k
  Outcome-intro Q E (panic, s) h k = k

  pub Outcome-weaken :
      (Q R : A → S → Type 0) (E F : S → Type 0) (o : Result A × S)
      → Outcome Q E o
      → ((a : A) (s : S) → Q a s → R a s)
      → ((s : S) → E s → F s)
      → Outcome R F o
  Outcome-weaken Q R E F (ok a, s) h k l = k a s h
  Outcome-weaken Q R E F (err e, s) h k l = l s h
  Outcome-weaken Q R E F (panic, s) h k l = l s h

  -- The rule of consequence, on both ends.
  pub weaken :
      (P : S → Type 0) (Q R : A → S → Type 0) (E F : S → Type 0) (m : M S A)
      → Ensures P m Q E
      → ((a : A) (s : S) → Q a s → R a s)
      → ((s : S) → E s → F s)
      → Ensures P m R F
  weaken P Q R E F m h k l s p = Outcome-weaken Q R E F (m s) (h s p) k l

  pub Answer-intro :
      (E : S → Type 0) (Q : Option GoError → S → Type 0) (o : Result A × S)
      → ((a : A) → o.0 ≡ ok a → Q none o.1)
      → ((e : GoError) → o.0 ≡ err e → Q (some e) o.1)
      → E o.1
      → Answer E Q o
  Answer-intro E Q (ok a, s) h k l = h a refl
  Answer-intro E Q (err e, s) h k l = k e refl
  Answer-intro E Q (panic, s) h k l = l

module _ {S : Type 0} (E : S → Type 0) where
  Outcome-known :
      {A B : Type 0} (a : A) (Q : S → Type 0) (R : B → S → Type 0) (f : A → M S B)
      (o : Result A × S)
      → Outcome (λ b s. (b ≡ a) × Q s) E o
      → Ensures Q (f a) R E
      → Outcome R E (continue f o)
  Outcome-known a Q R f (ok b, s) (e, q) k = subst (λ c. Outcome R E (f c s)) (sym e) (k s q)
  Outcome-known a Q R f (err e, s) h k = h
  Outcome-known a Q R f (panic, s) h k = h

  -- The rest after a call whose value is known.
  pub known_rule :
      {A B : Type 0} (P : S → Type 0) (a : A) (Q : S → Type 0) (R : B → S → Type 0) (m : M S A)
      (f : A → M S B)
      → Ensures P m (λ b s. (b ≡ a) × Q s) E
      → Ensures Q (f a) R E
      → Ensures P (m >>= f) R E
  known_rule P a Q R m f h k s p = Outcome-known a Q R f (m s) (h s p) k

abbrev pub Anywhere : {S : Type 0} → S → Type 0
Anywhere _ = Unit {0}

pub outcome_of_ok :
    {S A : Type 0} (Q : S → Type 0) (o : Result A × S) (a : A)
    → Outcome (λ _ s. Q s) Anywhere o
    → o.0 ≡ ok a
    → Q o.1
outcome_of_ok Q (ok x, s) a q h = q
outcome_of_ok Q (err e, s) a q h = cc
outcome_of_ok Q (panic, s) a q h = cc

-- Nothing is said of the world.
pub anything : {S A : Type 0} (m : M S A) → Ensures Anywhere m (λ _. Anywhere) Anywhere
anything m s p = by_result (m s)
  where
    by_result : {S A : Type 0} (o : Result A × S) → Outcome (λ _. Anywhere) Anywhere o
    by_result (ok a, t) = tt
    by_result (err e, t) = tt
    by_result (panic, t) = tt

module _ {S A : Type 0} (Q : A → S → Type 0) where
  -- What holds of the value that a call answered.
  pub value_of_ok : (o : Result A × S) (a : A) → Outcome Q Anywhere o → o.0 ≡ ok a → Q a o.1
  value_of_ok (ok x, s) a q h = subst (λ y. Q y s) (ground arith) q
  value_of_ok (err e, s) a q h = cc
  value_of_ok (panic, s) a q h = cc

  -- Two descriptions of one call together.
  pub Outcome-both :
      (R : A → S → Type 0) (o : Result A × S)
      → Outcome Q Anywhere o
      → Outcome R Anywhere o
      → Outcome (λ a s. Q a s × R a s) Anywhere o
  Outcome-both R (ok a, s) q r = (q, r)
  Outcome-both R (err e, s) q r = tt
  Outcome-both R (panic, s) q r = tt
