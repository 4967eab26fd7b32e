-- ===== src/Config/Progress/Deletion.antt =====
-- The deletion of an object over services that answer.
use cloud_network_config_con.Base.{
  String, [], none, some, Bool, true, not, ◌≡◌, ◌≢◌, refl, sym, subst, ap, ◌∙◌, ◌==◌, string_eq,
  beq_of_ne, keep,
}
use cloud_network_config_con.Effect.{attempt, unless, is_non_existing_ip, pure}
use cloud_network_config_con.Effect.Ensures.{Ensures, known_rule, bind_rule, weaken}
use cloud_network_config_con.Cloud.{Net, Node, CloudProvider}
use cloud_network_config_con.Config.Object.{
  Config, Status, is_deleting, contains_finalizer, config_finalizer, remove_finalizer,
  condition_unknown, text, assigned_status, response_pending,
}
use cloud_network_config_con.Config.Op.{config_name_to_ip}
use cloud_network_config_con.Config.Op.Laws.{compute_op-deleting}
use cloud_network_config_con.Config.Client.{Kube, get_config, patch_config_finalizer}
use cloud_network_config_con.Config.Sync.{
  Pending, write_status, finish, finish_delete, after_release, sync_delete, dispatch, sync_object,
  sync_handler,
}
use cloud_network_config_con.Config.Progress.Services.{Services, Never, without_node, survivor}
use cloud_network_config_con.Config.Progress.Steps.{
  State, get_total, write_total, release_total, patch_total,
}
use cloud_network_config_con.Config.Progress.Converge.{outcome_world}

-- The object is to be deleted, and our finalizer is the only one.
pub record IsGoing (c : Config) : Type 0 where
  pub deleting : is_deleting c ≡ true
  pub ours : contains_finalizer c ≡ true
  pub only : keep (λ f. not (f == config_finalizer)) c.finalizers ≡ []

survivor-none : (c : Config) → IsGoing c → survivor c (remove_finalizer c).finalizers ≡ none
survivor-none c g = ap (survivor c) g.only ∙ last_one
  where
    last_one : survivor c [] ≡ none
    last_one = rw g.deleting

module _ {N : Net} {S : Type 0} {K : Kube S} {C : CloudProvider N S} {key : String}
    (X : Services N S K C key) where
  -- The object is gone, and nothing is left to write.
  Gone : (String → Bool) → Pending → S → Type 0
  Gone h p s = (p ≡ none) × State X none h s

  patched :
      (c : Config) (h : String → Bool)
      → c.name ≡ key
      → IsGoing c
      → Ensures
          (State X (some c) h)
          (patch_config_finalizer K (remove_finalizer c))
          (λ _ t. State X none h t)
          Never
  patched c h named g =
      weaken (State X (some c) h)
        (λ c' t.
          (c' ≡ remove_finalizer c) × State X (survivor c (remove_finalizer c).finalizers) h t)
        (λ _ t. State X none h t) Never Never (patch_config_finalizer K (remove_finalizer c))
        (patch_total X c (remove_finalizer c).finalizers h named)
        (λ _ t (_, q). subst (λ o. State X o h t) (survivor-none c g) q) (λ _ f. f)

  finish_delete-Gone :
      (c : Config) (h : String → Bool)
      → c.name ≡ key
      → IsGoing c
      → Ensures (State X (some c) h) (finish_delete N K C c) (Gone h) Never
  unfolding finish_delete Gone
  finish_delete-Gone c h named g s p =
      rw (g.deleting, g.ours)
        (bind_rule Never (State X (some c) h) (λ c' t. State X none h t)
          (λ q t. (q ≡ none) × State X none h t) (patch_config_finalizer K (remove_finalizer c))
          (λ _. pure none) (patched c h named g) (λ _ t q. (refl, q)) s p)

  released-Gone :
      (k : String) (c : Config) (node : Node) (del : String) (h : String → Bool)
      → c.name ≡ key
      → IsGoing c
      → Ensures (State X (some c) h) (after_release N K C k c node del none) (Gone h) Never
  unfolding after_release
  released-Gone k c node del h named g = finish_delete-Gone c h named g

  sync_delete-Gone :
      (k : String) (c : Config) (del : String) (h : String → Bool)
      → c.name ≡ key
      → X.listed del ≡ true
      → IsGoing c
      → Ensures
          (State X (some c) h)
          (sync_delete N K C k (config_name_to_ip N key) c del)
          (Gone (without_node del h))
          Never
  unfolding sync_delete
  sync_delete-Gone k c del h named from g =
      known_rule Never (State X (some c) h) (X.node_of del) (State X (some c) h)
        (Gone (without_node del h)) (K.get_node del) _ (X.node_ok (some c) h del from)
        (λ t q.
          known_rule Never (State X (some c) h) _ (State X (some _) h) (Gone (without_node del h))
            (write_status K _ k c _) _ (write_total X _ k c (pending t) h named)
            (bind_rule Never (State X (some _) h)
              (λ e u.
                (unless is_non_existing_ip e ≡ none) × State X (some _) (without_node del h) u)
              (Gone (without_node del h))
              (attempt (C.release_private_ip (config_name_to_ip N key) (X.node_of del))) _
              (release_total X (some _) h del from)
              (λ e u (tolerated, r). rw tolerated (
                released-Gone k (record c { status = pending t }) (X.node_of del) del
                  (without_node del h) named (going (pending t)) u r)))
            t q)
    where
      pending : S → Status
      pending t =
          assigned_status c (K.now t) del condition_unknown response_pending
            (text "Deleting IP address")

      going : (status : Status) → IsGoing (record c { status = status })
      going status = record { deleting = g.deleting; ours = g.ours; only = g.only }

  delete_branch :
      (c : Config) (h : String → Bool)
      → c.name ≡ key
      → IsGoing c
      → c.status.node ≢ ""
      → X.listed c.status.node ≡ true
      → Ensures
          (State X (some c) h)
          (dispatch N K C key (config_name_to_ip N key) c ("", c.status.node))
          (Gone (without_node c.status.node h))
          Never
  unfolding dispatch
  delete_branch c h named g busy from =
      rw (beq_of_ne c.status.node "" busy) (sync_delete-Gone key c c.status.node h named from g)

  Gone-finish :
      (h : String → Bool) (q : Pending)
      → Ensures (Gone h q) (finish K q) (λ _ t. State X none h t) Never
  unfolding finish Gone
  Gone-finish h none s (_, p) = p
  Gone-finish h (some x) s (e, p) = cc

  gone_total :
      (c : Config) (h : String → Bool)
      → c.name ≡ key
      → IsGoing c
      → c.status.node ≢ ""
      → X.listed c.status.node ≡ true
      → Ensures
          (State X (some c) h)
          (sync_handler N K C key)
          (λ _ t. State X none (without_node c.status.node h) t)
          Never
  unfolding sync_handler sync_object
  gone_total c h named g busy from =
      known_rule Never (State X (some c) h) (some c) (State X (some c) h)
        (λ _ t. State X none (without_node c.status.node h) t) (get_config K key)
        (sync_object N K C key) (get_total X c h named)
        (λ s p. rw (compute_op-deleting C.allows_move_private_ip c (rw (g.deleting, g.ours))) (
          bind_rule Never (State X (some c) h) (Gone (without_node c.status.node h))
            (λ _ t. State X none (without_node c.status.node h) t)
            (dispatch N K C key (config_name_to_ip N c.name) c ("", c.status.node)) (finish K)
            (subst
              (λ k.
                Ensures (State X (some c) h)
                  (dispatch N K C key (config_name_to_ip N k) c ("", c.status.node))
                  (Gone (without_node c.status.node h)) Never)
              (sym named) (delete_branch c h named g busy from))
            (Gone-finish (without_node c.status.node h)) s p))

  -- Over services that answer, one sync of an object that is being deleted, with our finalizer as
  -- the last one and a listed node in its status, releases the address from that node, leaves it as
  -- it is on all others, and lets the object go.
  pub sync_handler-gone :
      (c : Config) (s : S)
      → c.name ≡ key
      → IsGoing c
      → c.status.node ≢ ""
      → X.listed c.status.node ≡ true
      → X.object s ≡ some c
      → let s' = (sync_handler N K C key s).1 in
        (X.object s' ≡ none)
        × ((m : String) → X.held s' m ≡ without_node c.status.node (X.held s) m)
  sync_handler-gone c s named g busy from stored =
      outcome_world (State X none (without_node c.status.node (X.held s)))
        (sync_handler N K C key s) (gone_total c (X.held s) named g busy from s (stored, λ m. refl))
