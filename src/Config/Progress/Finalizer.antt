-- ===== src/Config/Progress/Finalizer.antt =====
-- Adding and removing the finalizer over services that answer.
use cloud_network_config_con.Base.{
  String, List, [], ◌∷◌, ◌++◌, some, Bool, true, false, ◌≡◌, refl, sym, subst, inl, inr, Bool-cases,
  arith,
}
use cloud_network_config_con.Effect.Ensures.{Ensures, on_error_rule}
use cloud_network_config_con.Cloud.{Net, CloudProvider}
use cloud_network_config_con.Config.Object.{
  Config, Status, contains_finalizer, config_finalizer, add_finalizer,
}
use cloud_network_config_con.Config.Client.{Kube, patch_config_finalizer}
use cloud_network_config_con.Config.Sync.{ensure_finalizer}
use cloud_network_config_con.Config.Progress.Services.{Services, Never, survivor}
use cloud_network_config_con.Config.Progress.Steps.{State, patch_total}

-- The finalizers that `add_finalizer` leaves, and the object otherwise.
added :
    (c : Config)
    → contains_finalizer c ≡ false
    → add_finalizer c ≡ record c { finalizers = c.finalizers ++ (config_finalizer ∷ []) }
unfolding add_finalizer
added c new = rw new

add_finalizer_old : (c : Config) → contains_finalizer c ≡ true → add_finalizer c ≡ c
unfolding add_finalizer
add_finalizer_old c old = rw old

pub add_finalizer-status :
    (c : Config) (status : Status)
    → add_finalizer (record c { status = status })
      ≡ record (add_finalizer c) { status = (add_finalizer (record c { status = status })).status }
unfolding add_finalizer
add_finalizer-status c status = ground arith

survivor-append :
    (c : Config) (fs : List String) (f : String)
    → survivor c (fs ++ (f ∷ [])) ≡ some (record c { finalizers = fs ++ (f ∷ []) })
survivor-append c [] f = refl
survivor-append c (g ∷ gs) f = refl

module _ {N : Net} {S : Type 0} {K : Kube S} {C : CloudProvider N S} {key : String}
    (X : Services N S K C key) where
  add_total :
      (c : Config) (h : String → Bool)
      → c.name ≡ key
      → contains_finalizer c ≡ false
      → Ensures
          (State X (some c) h)
          (patch_config_finalizer K (add_finalizer c))
          (λ c' s. (c' ≡ add_finalizer c) × State X (some (add_finalizer c)) h s)
          Never
  add_total c h named new =
      subst
        (λ d.
          Ensures (State X (some c) h) (patch_config_finalizer K d)
            (λ c' s. (c' ≡ d) × State X (some d) h s) Never)
        (sym (added c new))
        (subst
          (λ o.
            Ensures (State X (some c) h)
              (patch_config_finalizer K
                (record c { finalizers = c.finalizers ++ (config_finalizer ∷ []) }))
              (λ c' s.
                (c' ≡ record c { finalizers = c.finalizers ++ (config_finalizer ∷ []) })
                × State X o h s)
              Never)
          (survivor-append c c.finalizers config_finalizer)
          (patch_total X c (c.finalizers ++ (config_finalizer ∷ [])) h named))

  pub ensure_finalizer_total :
      (k : String) (c : Config) (h : String → Bool)
      → c.name ≡ key
      → Ensures
          (State X (some c) h)
          (ensure_finalizer N K C k c)
          (λ c' s. (c' ≡ add_finalizer c) × State X (some (add_finalizer c)) h s)
          Never
  unfolding ensure_finalizer
  ensure_finalizer_total k c h named s p = elim (Bool-cases (contains_finalizer c)) [
    | inl old ↦ rw old (
      sym (add_finalizer_old c old),
      subst (λ d. State X (some d) h s) (sym (add_finalizer_old c old)) p,
    )
    | inr new ↦ rw new (
        on_error_rule Never (State X (some c) h)
          (λ c' t. (c' ≡ add_finalizer c) × State X (some (add_finalizer c)) h t)
          (patch_config_finalizer K (add_finalizer c)) _ (add_total c h named new) s p)
  ]
