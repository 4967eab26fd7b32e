-- ===== src/Config/Safety/Writes.antt =====
-- The writes to the API server: `updateCloudPrivateIPConfigStatus` and
-- `patchCloudPrivateIPConfigFinalizer`, with their retries.
use cloud_network_config_con.Base.{
  String, List, some, true, ◌≡◌, refl, sym, ◌∙◌, subst, inl, inr, contains,
}
use cloud_network_config_con.Effect.{Result, ok, err, panic}
use cloud_network_config_con.Effect.Ensures.{Outcome, Ensures, Outcome-intro, weaken}
use cloud_network_config_con.Effect.Retry.{Runs-rule}
use cloud_network_config_con.Cloud.{Net, CloudProvider}
use cloud_network_config_con.Config.Object.{Config, Status, contains_finalizer, config_finalizer}
use cloud_network_config_con.Config.Client.{
  Kube, update_config_status, finalizer_patch, send_finalizer_patch, patch_config_finalizer,
}
use cloud_network_config_con.Config.Safety.Cluster.{Cluster, finalizers_patch}
use cloud_network_config_con.Config.Safety.Views

module _ {N : Net} {S : Type 0} {K : Kube S} {C : CloudProvider N S} {key : String}
    (X : Cluster N S K C key) where
  abbrev Tracked : S → Type 0
  Tracked = Views.Tracked X

  abbrev Only : String → S → Type 0
  Only = Views.Only X

  abbrev Free : S → Type 0
  Free = Views.Free X

  abbrev At : String → S → Type 0
  At = Views.At X

  abbrev Bound : String → S → Type 0
  Bound = Views.Bound X

  -- After an update of the status to `n`: the object has the key's name, says `n`, and it is there
  -- if the answer has our finalizer.
  abbrev pub Wrote : String → Config → S → Type 0
  Wrote n c s =
      Only n s × (c.name ≡ key) × At n s × (contains_finalizer c ≡ true → X.bond s ≡ some (n, true))

  update_keeps-Only :
      (c : Config) (s : S) → Only c.status.node s → Only c.status.node (K.update_status c s).1
  update_keeps-Only c s h m e =
      let k = X.update_keeps c s in
      let old = h m (sym (k.0 m) ∙ e) in
      (old.0, elim (k.1 c.status.node old.1) [ inl same ↦ same | inr set ↦ set ])

  pub update_rule :
      (c : Config) (status : Status)
      → c.name ≡ key
      → Ensures
          (Only status.node)
          (update_config_status K c status)
          (Wrote status.node)
          (Only status.node)
  unfolding update_config_status
  update_rule c status named s h =
      let sent : Config = record c { status = status } in
      Runs-rule (Only status.node) (Wrote status.node) (λ t. K.update_status sent t)
        (λ t o.
          Outcome-intro _ _ (K.update_status sent t)
            (λ c' e.
              let w = X.update_writes sent t e in
              (update_keeps-Only sent t o, w.0 ∙ named, w.1, w.2))
            (update_keeps-Only sent t o))
        (X.retry_runs (λ t. K.update_status sent t) s) h

  -- What a patch that sets our finalizer needs and gives.
  abbrev Settling : String → S → Type 0
  Settling n s = Only n s × At n s

  patch_keeps-Settling :
      (n : String) (fs : List String) (op : K.Bytes) (s : S)
      → K.marshal (finalizers_patch fs) ≡ ok op
      → contains fs config_finalizer ≡ true
      → Settling n s
      → Settling n (K.patch key op s).1
  patch_keeps-Settling n fs op s e ours (only, at) =
      let k = X.patch_keeps fs op s e in
      (
        (λ m h. let old = only m (sym (k.0 m) ∙ h) in (old.0, k.1.0 ours n old.1)),
        (λ x f b. let before = k.1.1 x f b in at x before.0 before.1),
      )

  patch_adds :
      (n : String) (fs : List String) (op : K.Bytes) (s : S) (c : Config)
      → K.marshal (finalizers_patch fs) ≡ ok op
      → contains fs config_finalizer ≡ true
      → Settling n s
      → (K.patch key op s).0 ≡ ok c
      → (c.name ≡ key) × Bound n (K.patch key op s).1
  patch_adds n fs op s c e ours h done =
      let (named, found) = X.patch_writes fs op s e done ours in
      let (x, f, before, after) = found in
      let q : n ≡ x = h.1 x f before in
      let kept = patch_keeps-Settling n fs op s e ours h in
      (
        named,
        (
          (λ m g. (kept.0 m g).0),
          subst (λ y. X.bond (K.patch key op s).1 ≡ some (y, true)) (sym q) after,
        ),
      )

  send_adds :
      (n : String) (c : Config)
      → c.name ≡ key
      → contains_finalizer c ≡ true
      → Ensures
          (Settling n)
          (send_finalizer_patch K c)
          (λ c' s. (c'.name ≡ key) × Bound n s)
          (Settling n)
  send_adds n c named ours s h = sent (K.marshal (finalizer_patch K c)) refl
    where
      sent :
          (r : Result K.Bytes)
          → K.marshal (finalizer_patch K c) ≡ r
          → Outcome (λ c' t. (c'.name ≡ key) × Bound n t) (Settling n) (send_finalizer_patch K c s)
      sent (ok op) e =
          rw (e, named)
            (Outcome-intro _ _ (K.patch key op s)
              (λ c' done. patch_adds n c.finalizers op s c' e ours h done)
              (patch_keeps-Settling n c.finalizers op s e ours h))
      sent (err x) e = rw e h
      sent panic e = rw e h

  pub add_finalizer_rule :
      (n : String) (c : Config)
      → c.name ≡ key
      → contains_finalizer c ≡ true
      → Ensures
          (Settling n)
          (patch_config_finalizer K c)
          (λ c' s. (c'.name ≡ key) × Bound n s)
          Tracked
  unfolding patch_config_finalizer
  add_finalizer_rule n c named ours =
      weaken (Settling n) (λ c' s. (c'.name ≡ key) × Bound n s)
        (λ c' s. (c'.name ≡ key) × Bound n s) (Settling n) Tracked
        (K.retry_on_conflict (send_finalizer_patch K c))
        (λ s h.
          Runs-rule (Settling n) (λ c' t. (c'.name ≡ key) × Bound n t) (send_finalizer_patch K c)
            (send_adds n c named ours) (X.retry_runs (send_finalizer_patch K c) s) h)
        (λ _ _ b. b) (λ s h. Views.Only-Tracked X n s h.0)

  -- Once the address is gone, the finalizers may be patched at will.
  send_keeps-Free :
      (c : Config) → c.name ≡ key → Ensures Free (send_finalizer_patch K c) (λ _ s. Free s) Free
  send_keeps-Free c named s h = sent (K.marshal (finalizer_patch K c)) refl
    where
      still : (op : K.Bytes) → K.marshal (finalizer_patch K c) ≡ ok op → Free (K.patch key op s).1
      still op e m g = h m (sym ((X.patch_keeps c.finalizers op s e).0 m) ∙ g)

      sent :
          (r : Result K.Bytes)
          → K.marshal (finalizer_patch K c) ≡ r
          → Outcome (λ _ t. Free t) Free (send_finalizer_patch K c s)
      sent (ok op) e =
          rw (e, named) (Outcome-intro _ _ (K.patch key op s) (λ c' done. still op e) (still op e))
      sent (err x) e = rw e h
      sent panic e = rw e h

  pub remove_finalizer_rule :
      (c : Config) → c.name ≡ key → Ensures Free (patch_config_finalizer K c) (λ _ s. Free s) Free
  unfolding patch_config_finalizer
  remove_finalizer_rule c named s h =
      Runs-rule Free (λ _ t. Free t) (send_finalizer_patch K c) (send_keeps-Free c named)
        (X.retry_runs (send_finalizer_patch K c) s) h
