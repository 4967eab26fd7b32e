-- ===== src/Config/Safety/Branches.antt =====
-- The deleting and the adding branch of `SyncHandler`.
use cloud_network_config_con.Base.{inl, inr, String, Option, none, some, ◌≡◌, ◌∙◌, Bool-cases, ◌&&◌}
use cloud_network_config_con.Effect.{
  GoError, attempt, unless, is_non_existing_ip, is_already_existing_ip, pure,
}
use cloud_network_config_con.Effect.Ensures.{Ensures, bind_rule, on_error_rule, weaken}
use cloud_network_config_con.Cloud.{Net, Node, CloudProvider}
use cloud_network_config_con.Config.Object.{
  Config, contains_finalizer, add_finalizer, remove_finalizer, is_deleting, contains-add_finalizer,
  name-add_finalizer,
}
use cloud_network_config_con.Config.Op.{config_name_to_ip}
use cloud_network_config_con.Config.Client.{Kube, patch_config_finalizer}
use cloud_network_config_con.Config.Sync.{
  write_status, finish_delete, after_release, sync_delete, ensure_finalizer, after_assign, sync_add,
}
use cloud_network_config_con.Config.Safety.Cluster.{IsNode, Cluster}
use cloud_network_config_con.Config.Safety.Views
use cloud_network_config_con.Config.Safety.Reads
use cloud_network_config_con.Config.Safety.Writes
use cloud_network_config_con.Config.Safety.Calls
use cloud_network_config_con.Config.Safety.Steps.{Ready, write_rule, report_rule}

module _ {N : Net} {S : Type 0} {K : Kube S} {C : CloudProvider N S} {key : String}
    (X : Cluster N S K C key) where
  abbrev Tracked : S → Type 0
  Tracked = Views.Tracked X

  abbrev Only : String → S → Type 0
  Only = Views.Only X

  abbrev Free : S → Type 0
  Free = Views.Free X

  abbrev Bound : String → S → Type 0
  Bound = Views.Bound X

  Free-Tracked : (s : S) → Free s → Tracked s
  Free-Tracked s f m e = absurd (f m e)

  Only-of : (n : String) → (s : S) → Only n s → Tracked s
  Only-of = Views.Only-Tracked X

  finish_delete_rule :
      (k : String) (c : Config)
      → c.name ≡ key
      → Ensures Free (finish_delete N K C c) (Ready X) Tracked
  unfolding finish_delete
  finish_delete_rule k c named s h = elim (Bool-cases (is_deleting c && contains_finalizer c)) [
    | inl gone ↦ rw gone (
        bind_rule Tracked Free (λ _ t. Free t) (Ready X)
          (patch_config_finalizer K (remove_finalizer c)) (λ _. pure none)
          (weaken Free (λ _ t. Free t) (λ _ t. Free t) Free Tracked
            (patch_config_finalizer K (remove_finalizer c))
            (Writes.remove_finalizer_rule X (remove_finalizer c) named) (λ _ _ f. f) Free-Tracked)
          (λ _ t f. Free-Tracked t f) s h)
    | inr kept ↦ rw kept (named, Views.Free-Only X "" s h)
  ]

  after_release_rule :
      (k : String) (c : Config) (node : Node) (del : String) (e : Option GoError)
      → c.name ≡ key
      → Ensures (Calls.Unassigned X del e) (after_release N K C k c node del e) (Ready X) Tracked
  unfolding after_release
  after_release_rule k c node del none named = finish_delete_rule k c named
  after_release_rule k c node del (some e) named = report_rule X _ k c del _ _ named

  pub sync_delete_rule :
      (k : String) (c : Config) (del : String)
      → c.name ≡ key
      → Ensures (Only del) (sync_delete N K C k (config_name_to_ip N key) c del) (Ready X) Tracked
  unfolding sync_delete
  sync_delete_rule k c del named =
      bind_rule Tracked (Only del) (λ node t. IsNode X.provider_id del node × Only del t) (Ready X)
        (K.get_node del) _
        (weaken (Only del) (λ node t. IsNode X.provider_id del node × Only del t)
          (λ node t. IsNode X.provider_id del node × Only del t) (Only del) Tracked (K.get_node del)
          (Reads.get_node_rule X (Only del) del (Views.Keeps-Only X del)) (λ _ _ p. p)
          (Only-of del))
        (λ node t (is, o).
          bind_rule Tracked (Only del) (λ c' u. (c'.name ≡ key) × Only del u) (Ready X)
            (write_status K _ k c _) _
            (weaken (Only del) (Writes.Wrote X del) (λ c' u. (c'.name ≡ key) × Only del u) Tracked
              Tracked (write_status K _ k c _) (write_rule X _ k c _ named) (λ _ _ w. (w.1, w.0))
              (λ _ p. p))
            (λ c' u (named', o').
              bind_rule Tracked (Only del)
                (λ e v. Calls.Unassigned X del (unless is_non_existing_ip e) v) (Ready X)
                (attempt (C.release_private_ip (config_name_to_ip N key) node)) _
                (Calls.release_rule X del node is)
                (λ e. after_release_rule k c' node del (unless is_non_existing_ip e) named') u o')
            t o)

  ensure_finalizer_rule :
      (k n : String) (c : Config)
      → Ensures
          (Writes.Wrote X n c)
          (ensure_finalizer N K C k c)
          (λ c' s. (c'.name ≡ key) × Bound n s)
          Tracked
  unfolding ensure_finalizer
  ensure_finalizer_rule k n c s (only, named, at, ours) = elim (Bool-cases (contains_finalizer c)) [
    | inl old ↦ rw old (named, ((λ m e. (only m e).0), ours old))
    | inr new ↦ rw new (
        on_error_rule Tracked (λ t. Only n t × Views.At X n t) (λ c' t. (c'.name ≡ key) × Bound n t)
          (patch_config_finalizer K (add_finalizer c)) _
          (Writes.add_finalizer_rule X n (add_finalizer c) (name-add_finalizer c ∙ named)
            (contains-add_finalizer c))
          s (only, at))
  ]

  after_assign_rule :
      (k : String) (c : Config) (node : Node) (add : String) (e : Option GoError)
      → c.name ≡ key
      → Ensures (Bound add) (after_assign N K C k c node add e) (Ready X) Tracked
  unfolding after_assign
  after_assign_rule k c node add none named s h = (named, Views.Bound-Only X add s h)
  after_assign_rule k c node add (some e) named s h =
      report_rule X _ k c add _ _ named s (Views.Bound-Only X add s h)

  pub sync_add_rule :
      (k : String) (c : Config) (add : String)
      → c.name ≡ key
      → Ensures (Only add) (sync_add N K C k (config_name_to_ip N key) c add) (Ready X) Tracked
  unfolding sync_add
  sync_add_rule k c add named s h =
      bind_rule Tracked (Only add) (Writes.Wrote X add) (Ready X) (write_status K _ k c _) _
        (write_rule X _ k c _ named)
        (λ c1.
          bind_rule Tracked (Writes.Wrote X add c1) (λ c2 t. (c2.name ≡ key) × Bound add t)
            (Ready X) (ensure_finalizer N K C k c1) _ (ensure_finalizer_rule k add c1)
            (λ c2 t (named', b).
              bind_rule Tracked (Bound add) (λ node u. IsNode X.provider_id add node × Bound add u)
                (Ready X) (K.get_node add) _ (bound_node add)
                (λ node u (is, b').
                  bind_rule Tracked (Bound add) (λ _ v. Bound add v) (Ready X)
                    (attempt (C.assign_private_ip (config_name_to_ip N key) node)) _
                    (bound_assign add node is)
                    (λ e. after_assign_rule k c2 node add (unless is_already_existing_ip e) named')
                    u b')
                t b))
        s h
    where
      bound_tracked : (n : String) (s : S) → Bound n s → Tracked s
      bound_tracked n s b = Only-of n s (Views.Bound-Only X n s b)

      bound_node :
          (n : String)
          → Ensures
              (Bound n)
              (K.get_node n)
              (λ node u. IsNode X.provider_id n node × Bound n u)
              Tracked
      bound_node n =
          weaken (Bound n) (λ node u. IsNode X.provider_id n node × Bound n u)
            (λ node u. IsNode X.provider_id n node × Bound n u) (Bound n) Tracked (K.get_node n)
            (Reads.get_node_rule X (Bound n) n (Views.Keeps-Bound X n)) (λ _ _ p. p)
            (bound_tracked n)

      bound_assign :
          (n : String) (node : Node)
          → IsNode X.provider_id n node
          → Ensures
              (Bound n)
              (attempt (C.assign_private_ip (config_name_to_ip N key) node))
              (λ _ v. Bound n v)
              Tracked
      bound_assign n node is =
          weaken (Bound n) (λ _ v. Bound n v) (λ _ v. Bound n v) (Bound n) Tracked
            (attempt (C.assign_private_ip (config_name_to_ip N key) node))
            (Calls.assign_rule X n node is_already_existing_ip is) (λ _ _ b. b) (bound_tracked n)
