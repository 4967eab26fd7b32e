-- ===== src/Effect/Retry.antt =====
-- `retry.RetryOnConflict`, which is client-go's: it repeats a call as long as the call fails with a
-- conflict, up to a number of steps, and gives the last result.
use cloud_network_config_con.Base.{◌≡◌, subst}
use cloud_network_config_con.Effect.{Result, err, api, conflict, M}
use cloud_network_config_con.Effect.Ensures.{Outcome, Ensures}

-- The runs of a call from a world: the last one, after any number that ended in a conflict.
pub data Runs {S A : Type 0} (call : M S A) : S → Result A × S → Type 0 where
  last : (s : S) → Runs call s (call s)
  again :
      (s t : S) {o : Result A × S}
      → call s ≡ (err (api conflict), t)
      → Runs call t o
      → Runs call s o

module _ {S A : Type 0} (P : S → Type 0) (Q : A → S → Type 0) (call : M S A) where
  -- What every attempt keeps when it fails, the last attempt finds.
  pub Runs-rule :
      {s : S} {o : Result A × S} → Ensures P call Q P → Runs call s o → P s → Outcome Q P o
  Runs-rule h (last s) p = h s p
  Runs-rule h (again s t e r) p = Runs-rule h r (subst (Outcome Q P) e (h s p))
