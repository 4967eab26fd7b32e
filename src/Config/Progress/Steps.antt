-- ===== src/Config/Progress/Steps.antt =====
-- The handler's own calls over services that answer.
use cloud_network_config_con.Base.{
  String, List, Option, none, some, Bool, true, ◌≡◌, ◌≢◌, false, refl, subst,
}
use cloud_network_config_con.Effect.{
  GoError, Result, ok, err, panic, M, attempt, unless, is_non_existing_ip, is_already_existing_ip,
}
use cloud_network_config_con.Effect.Ensures.{
  Outcome, Ensures, Answer, attempt_rule, on_error_rule, weaken,
}
use cloud_network_config_con.Effect.Retry.{Runs, last, again}
use cloud_network_config_con.Cloud.{Net, CloudProvider}
use cloud_network_config_con.Config.Object.{Config, Status}
use cloud_network_config_con.Config.Op.{config_name_to_ip}
use cloud_network_config_con.Config.Client.{
  Kube, found, get_config, update_config_status, send_finalizer_patch, patch_config_finalizer,
}
use cloud_network_config_con.Config.Sync.{write_status}
use cloud_network_config_con.Config.Progress.Services.{
  Moving, Services, Shows, Never, survivor, Tolerates, with_node, without_node,
}

-- A call that cannot fail gives what its last attempt gives.
abbrev Total : {S A : Type 0} → (S → Type 0) → M S A → (A → S → Type 0) → Type 0
Total P m Q = Ensures P m Q Never

tolerated-unless : (t : GoError → Bool) (e : Option GoError) → Tolerates t e → unless t e ≡ none
tolerated-unless t none h = refl
tolerated-unless t (some e) h = rw h

module _ {N : Net} {S : Type 0} {K : Kube S} {C : CloudProvider N S} {key : String}
    (X : Services N S K C key) where
  abbrev pub State : Option Config → (String → Bool) → S → Type 0
  State = Shows X.object X.held

  retry_total :
      {A : Type 0} (P : S → Type 0) (Q : A → S → Type 0) (m : M S A)
      → Ensures P m Q Never
      → Ensures P (K.retry_on_conflict m) Q Never
  retry_total {A} P Q m h s p = last_total (X.retry_runs m s) p
    where
      last_total : {s : S} {o : Result A × S} → Runs m s o → P s → Outcome Q Never o
      last_total (last s) p = h s p
      last_total (again s t e r) p = elim (subst (Outcome Q Never) e (h s p)) [ ]

  pub get_total :
      (c : Config) (h : String → Bool)
      → c.name ≡ key
      → Ensures
          (State (some c) h)
          (get_config K key)
          (λ r s. (r ≡ some c) × State (some c) h s)
          Never
  unfolding get_config
  get_total c h named s p = seen (K.get key s) (X.get_ok c h named s p)
    where
      seen :
          (o : Result Config × S)
          → Outcome (λ c' t. (c' ≡ c) × State (some c) h t) Never o
          → Outcome (λ r t. (r ≡ some c) × State (some c) h t) Never (found K o)
      seen (ok c', t) (e, q) = (rw e, q)
      seen (err e, t) q = elim q [ ]
      seen (panic, t) q = elim q [ ]

  pub update_total :
      (c : Config) (status : Status) (h : String → Bool)
      → c.name ≡ key
      → Ensures
          (State (some c) h)
          (update_config_status K c status)
          (λ c' s.
            (c' ≡ record c { status = status }) × State (some (record c { status = status })) h s)
          Never
  unfolding update_config_status
  update_total c status h named =
      retry_total (State (some c) h)
        (λ c' s.
          (c' ≡ record c { status = status }) × State (some (record c { status = status })) h s)
        (λ t. K.update_status (record c { status = status }) t) (X.update_ok c status h named)

  pub write_total :
      (label k : String) (c : Config) (status : Status) (h : String → Bool)
      → c.name ≡ key
      → Ensures
          (State (some c) h)
          (write_status K label k c status)
          (λ c' s.
            (c' ≡ record c { status = status }) × State (some (record c { status = status })) h s)
          Never
  unfolding write_status
  write_total label k c status h named =
      on_error_rule Never (State (some c) h)
        (λ c' s.
          (c' ≡ record c { status = status }) × State (some (record c { status = status })) h s)
        (update_config_status K c status) _ (update_total c status h named)

  send_total :
      (c : Config) (fs : List String) (h : String → Bool)
      → c.name ≡ key
      → Ensures
          (State (some c) h)
          (send_finalizer_patch K (record c { finalizers = fs }))
          (λ c' s. (c' ≡ record c { finalizers = fs }) × State (survivor c fs) h s)
          Never
  send_total c fs h named s p =
      let (op, e, sent) = X.patch_ok c fs h named in rw (e, named) (sent s p)

  pub patch_total :
      (c : Config) (fs : List String) (h : String → Bool)
      → c.name ≡ key
      → Ensures
          (State (some c) h)
          (patch_config_finalizer K (record c { finalizers = fs }))
          (λ c' s. (c' ≡ record c { finalizers = fs }) × State (survivor c fs) h s)
          Never
  unfolding patch_config_finalizer
  patch_total c fs h named =
      retry_total (State (some c) h)
        (λ c' s. (c' ≡ record c { finalizers = fs }) × State (survivor c fs) h s)
        (send_finalizer_patch K (record c { finalizers = fs })) (send_total c fs h named)

  -- A call of the cloud whose error is tolerated.
  cloud_total :
      (t : GoError → Bool) (P Q : S → Type 0) (m : M S (Unit {0}))
      → ((s : S) → P s → Answer Never (λ e u. Tolerates t e × Q u) (m s))
      → Ensures P (attempt m) (λ e u. (unless t e ≡ none) × Q u) Never
  cloud_total t P Q m h =
      weaken P (λ e u. Tolerates t e × Q u) (λ e u. (unless t e ≡ none) × Q u) Never Never
        (attempt m) (attempt_rule Never P (λ e u. Tolerates t e × Q u) m h)
        (λ e u (w, q). (tolerated-unless t e w, q)) (λ _ f. f)

  pub assign_total :
      (o : Option Config) (h : String → Bool) (n : String)
      → X.listed n ≡ true
      → Ensures
          (State o h)
          (attempt (C.assign_private_ip (config_name_to_ip N key) (X.node_of n)))
          (λ e s. (unless is_already_existing_ip e ≡ none) × State o (with_node n h) s)
          Never
  assign_total o h n l =
      cloud_total is_already_existing_ip (State o h) (State o (with_node n h))
        (C.assign_private_ip (config_name_to_ip N key) (X.node_of n))
        (λ s p. X.assign_ok o h n s l p)

  pub release_total :
      (o : Option Config) (h : String → Bool) (n : String)
      → X.listed n ≡ true
      → Ensures
          (State o h)
          (attempt (C.release_private_ip (config_name_to_ip N key) (X.node_of n)))
          (λ e s. (unless is_non_existing_ip e ≡ none) × State o (without_node n h) s)
          Never
  release_total o h n l =
      cloud_total is_non_existing_ip (State o h) (State o (without_node n h))
        (C.release_private_ip (config_name_to_ip N key) (X.node_of n))
        (λ s p. X.release_ok o h n s l p)

  pub move_total :
      Moving X
      → (o : Option Config) (h : String → Bool) (add del : String) → X.listed add ≡ true
      → X.listed del ≡ true
      → add ≢ del
      → h add ≡ false
      → Ensures
          (State o h)
          (attempt (C.move_private_ip (config_name_to_ip N key) (X.node_of add) (X.node_of del)))
          (λ e s.
            (unless is_non_existing_ip e ≡ none) × State o (with_node add (without_node del h)) s)
          Never
  move_total V o h add del l k ne f =
      cloud_total is_non_existing_ip (State o h) (State o (with_node add (without_node del h)))
        (C.move_private_ip (config_name_to_ip N key) (X.node_of add) (X.node_of del))
        (λ s p. V.move_ok o h add del s l k ne f p)
