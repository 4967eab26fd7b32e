-- ===== src/Config/Safety/Views.antt =====
-- The bond between the address in the cloud and the object in the API server, as predicates of a
-- world, and what a call that only reads keeps of it.
use cloud_network_config_con.Base.{String, some, Bool, true, ◌≡◌, sym, ◌∙◌, subst}
use cloud_network_config_con.Cloud.{Net, CloudProvider}
use cloud_network_config_con.Config.Client.{Kube}
use cloud_network_config_con.Config.Safety.Cluster.{Cluster, Drift}

module _ {N : Net} {S : Type 0} {K : Kube S} {C : CloudProvider N S} {key : String}
    (X : Cluster N S K C key) where
  -- Wherever the cloud has the address, the object says so and our finalizer holds it.
  abbrev pub Tracked : S → Type 0
  Tracked s = (m : String) → X.held s m ≡ true → X.bond s ≡ some (m, true)

  -- The address is nowhere but on `n`.
  abbrev pub Only : String → S → Type 0
  Only n s = (m : String) → X.held s m ≡ true → (m ≡ n) × (X.bond s ≡ some (n, true))

  abbrev pub Free : S → Type 0
  Free s = (m : String) → X.held s m ≡ true → ⊥

  -- The object, if it is there, says `n`.
  abbrev pub At : String → S → Type 0
  At n s = (x : String) (f : Bool) → X.bond s ≡ some (x, f) → n ≡ x

  -- The object is there, says `n` and has our finalizer.
  abbrev pub Bound : String → S → Type 0
  Bound n s = ((m : String) → X.held s m ≡ true → m ≡ n) × (X.bond s ≡ some (n, true))

  pub Only-Tracked : (n : String) (s : S) → Only n s → Tracked s
  Only-Tracked n s h m e = let (p, b) = h m e in subst (λ x. X.bond s ≡ some (x, true)) (sym p) b

  pub Free-Only : (n : String) (s : S) → Free s → Only n s
  Free-Only n s h m e = absurd (h m e)

  pub Bound-Only : (n : String) (s : S) → Bound n s → Only n s
  Bound-Only n s h m e = (h.0 m e, h.1)

  -- A call that only reads keeps all of these.
  abbrev pub Keeps : S → S → Type 0
  Keeps s s' = ((m : String) → X.held s' m ≡ X.held s m) × Drift (X.bond s) (X.bond s')

  pub Keeps-Only : (n : String) (s s' : S) → Keeps s s' → Only n s → Only n s'
  Keeps-Only n s s' k h m e = let old = h m (sym (k.0 m) ∙ e) in (old.0, k.1.0 n old.1)

  pub Keeps-Tracked : (s s' : S) → Keeps s s' → Tracked s → Tracked s'
  Keeps-Tracked s s' k h m e = k.1.0 m (h m (sym (k.0 m) ∙ e))

  pub Keeps-Bound : (n : String) (s s' : S) → Keeps s s' → Bound n s → Bound n s'
  Keeps-Bound n s s' k h = (λ m e. h.0 m (sym (k.0 m) ∙ e), k.1.0 n h.1)
