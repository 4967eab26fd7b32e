-- ===== src/Config/Safety/Handler.antt =====
-- `SyncHandler` as a whole, and its runs among the edits of others: no run, however it ends, loses
-- track of the address.
use cloud_network_config_con.Base.{
  String, Option, none, some, true, false, ◌≡◌, sym, ◌∙◌, subst, ◌⊎◌, inl, inr, arith, eq_iff,
  Bool-cases, ◌==◌, string_eq,
}
use cloud_network_config_con.Effect.{Result, ok, err, panic, lift}
use cloud_network_config_con.Effect.Ensures.{Outcome, Ensures, bind_rule}
use cloud_network_config_con.Cloud.{Net, CloudProvider}
use cloud_network_config_con.Config.Object.{Config}
use cloud_network_config_con.Config.Op.{compute_op, config_name_to_ip}
use cloud_network_config_con.Config.Client.{Kube, get_config}
use cloud_network_config_con.Config.Sync.{dispatch, finish, sync_object, sync_handler}
use cloud_network_config_con.Config.Safety.Cluster.{Cluster}
use cloud_network_config_con.Config.Safety.Views
use cloud_network_config_con.Config.Safety.Reads
use cloud_network_config_con.Config.Safety.Steps.{Ready, finish_rule}
use cloud_network_config_con.Config.Safety.Branches.{sync_delete_rule, sync_add_rule}

-- Without moves: nothing, a deletion from the node of the status, or an addition to the node of the
-- spec, where the status names that node or none.
abbrev pub Choice : Config → String → String → Type 0
Choice c add del =
    (add ≡ "") × (del ≡ c.status.node)
    ⊎ (del ≡ "") × (add ≡ c.spec_node) × ((c.status.node ≡ "") ⊎ (c.spec_node ≡ c.status.node))
    ⊎ (add ≡ "") × (del ≡ "")

pub compute_op-Choice :
    (c : Config) (add del : String) → compute_op false c ≡ ok (add, del) → Choice c add del
unfolding compute_op
compute_op-Choice c add del h =
    ground (arith, eq_iff c.spec_node c.status.node, eq_iff c.status.node "")

module _ {N : Net} {S : Type 0} {K : Kube S} {C : CloudProvider N S} {key : String}
    (X : Cluster N S K C key) where
  abbrev Tracked : S → Type 0
  Tracked = Views.Tracked X

  abbrev Only : String → S → Type 0
  Only = Views.Only X

  nothing_Free : (s : S) → Only "" s → Views.Free X s
  nothing_Free s o m e = cc (X.held_nowhere s, e, (o m e).0)

  delete_rule :
      (c : Config)
      → c.name ≡ key
      → Ensures
          (Only c.status.node)
          (dispatch N K C key (config_name_to_ip N key) c ("", c.status.node))
          (Ready X)
          Tracked
  unfolding dispatch
  delete_rule c named s o = elim (Bool-cases (c.status.node == "")) [
    | inl idle ↦ rw idle (Views.Only-Tracked X c.status.node s o)
    | inr busy ↦ rw busy (sync_delete_rule X key c c.status.node named s o)
  ]

  add_rule :
      (c : Config)
      → c.name ≡ key
      → (c.status.node ≡ "") ⊎ (c.spec_node ≡ c.status.node)
      → Ensures
          (Only c.status.node)
          (dispatch N K C key (config_name_to_ip N key) c (c.spec_node, ""))
          (Ready X)
          Tracked
  unfolding dispatch
  add_rule c named from s o = elim (Bool-cases (c.spec_node == "")) [
    | inl idle ↦ rw idle (Views.Only-Tracked X c.status.node s o)
    | inr busy ↦ rw busy (
        sync_add_rule X key c c.spec_node named s (elim from [
          | inl empty ↦
              Views.Free-Only X c.spec_node s (nothing_Free s (subst (λ n. Only n s) empty o))
          | inr same ↦ subst (λ n. Only n s) (sym same) o
        ]))
  ]

  idle_rule :
      (c : Config)
      → Ensures
          (Only c.status.node)
          (dispatch N K C key (config_name_to_ip N key) c ("", ""))
          (Ready X)
          Tracked
  unfolding dispatch
  idle_rule c s o = Views.Only-Tracked X c.status.node s o

  dispatch_rule :
      (c : Config) (add del : String)
      → c.name ≡ key
      → Choice c add del
      → Ensures
          (Only c.status.node)
          (dispatch N K C key (config_name_to_ip N key) c (add, del))
          (Ready X)
          Tracked
  dispatch_rule c add del named (inl (p, q)) s o = rw (p, q) (delete_rule c named s o)
  dispatch_rule c add del named (inr (inl (p, q, from))) s o = rw (p, q) (add_rule c named from s o)
  dispatch_rule c add del named (inr (inr (p, q))) s o = rw (p, q) (idle_rule c s o)

  chosen_rule :
      (c : Config) (s : S) (r : Result (String × String))
      → compute_op false c ≡ r
      → c.name ≡ key
      → Only c.status.node s
      → Outcome (λ op t. Only c.status.node t × Choice c op.0 op.1) Tracked (r, s)
  chosen_rule c s (ok (add, del)) e named o = (o, compute_op-Choice c add del e)
  chosen_rule c s (err x) e named o = Views.Only-Tracked X c.status.node s o
  chosen_rule c s panic e named o = Views.Only-Tracked X c.status.node s o

  object_rule :
      C.allows_move_private_ip ≡ false
      → (found : Option Config)
      → Ensures (Reads.Read X found) (sync_object N K C key found) (λ _ s. Tracked s) Tracked
  unfolding sync_object
  object_rule fixed none s t = t
  object_rule fixed (some c) s (named, o) =
      bind_rule Tracked (Only c.status.node) (λ op t. Only c.status.node t × Choice c op.0 op.1)
        (λ _ t. Tracked t) (lift (compute_op C.allows_move_private_ip c)) _
        (λ t o'. chosen_rule c t (compute_op C.allows_move_private_ip c) (rw fixed) named o')
        (λ op.
          bind_rule Tracked (λ t. Only c.status.node t × Choice c op.0 op.1) (Ready X)
            (λ _ t. Tracked t) (dispatch N K C key (config_name_to_ip N c.name) c op) (finish K)
            (λ t (o', choice).
              subst
                (λ k. Outcome (Ready X) Tracked (dispatch N K C key (config_name_to_ip N k) c op t))
                (sym named) (dispatch_rule c op.0 op.1 named choice t o'))
            (finish_rule X))
        s o

  -- With a provider that does not move addresses, and an API server and a cloud that behave as
  -- `Cluster` says, a run of `SyncHandler` keeps the bond, whether it ends in success, an error or
  -- a panic: wherever the cloud has the address, the stored object names that node in its status
  -- and carries our finalizer.
  pub sync_handler-Tracked :
      C.allows_move_private_ip ≡ false → (s : S) → Tracked s → Tracked (sync_handler N K C key s).1
  unfolding sync_handler
  sync_handler-Tracked fixed s t = after (sync_handler N K C key s) (
      bind_rule Tracked Tracked (Reads.Read X) (λ _ u. Tracked u) (get_config K key)
        (sync_object N K C key) (Reads.get_config_rule X) (object_rule fixed) s t)
    where
      after : (o : Result (Unit {0}) × S) → Outcome (λ _ u. Tracked u) Tracked o → Tracked o.1
      after (ok _, u) h = h
      after (err _, u) h = h
      after (panic, u) h = h

  -- One event: a sync, an edit by others that the finalizer allows, or the creation of the object.
  pub data Event : S → S → Type 0 where
    sync : (s : S) → Event s (sync_handler N K C key s).1
    edit : (s s' : S) → Views.Keeps X s s' → Event s s'
    create :
        (s s' : S) (n : String)
        → ((m : String) → X.held s' m ≡ X.held s m)
        → X.bond s ≡ none
        → X.bond s' ≡ some (n, false)
        → Event s s'

  pub data Reaches (s : S) : S → Type 0 where
    here : Reaches s s
    next : {t u : S} → Reaches s t → Event t u → Reaches s u

  Event-Tracked :
      {s s' : S} → C.allows_move_private_ip ≡ false → Event s s' → Tracked s → Tracked s'
  Event-Tracked fixed (sync s) t = sync_handler-Tracked fixed s t
  Event-Tracked fixed (edit s s' k) t = Views.Keeps-Tracked X s s' k t
  Event-Tracked fixed (create s s' n same gone made) t = λ m e. cc (t m (sym (same m) ∙ e), gone)

  Reaches-Tracked :
      {s s' : S} → C.allows_move_private_ip ≡ false → Reaches s s' → Tracked s → Tracked s'
  Reaches-Tracked fixed here t = t
  Reaches-Tracked fixed (next r e) t = Event-Tracked fixed e (Reaches-Tracked fixed r t)

  -- From a cluster in which the address is assigned nowhere, and whose API server and cloud behave
  -- as `Cluster` says, no sequence of syncs, creations and edits assigns it to two nodes, with a
  -- provider that does not move addresses; and while it is assigned the object exists, names the
  -- node and carries our finalizer.
  pub Reaches-held_once :
      C.allows_move_private_ip ≡ false
      → (s s' : S) (m n : String) → ((k : String) → X.held s k ≡ false)
      → Reaches s s'
      → X.held s' m ≡ true
      → X.held s' n ≡ true
      → (m ≡ n) × (X.bond s' ≡ some (m, true))
  Reaches-held_once fixed s s' m n free r p q =
      let t = Reaches-Tracked fixed r (λ k e. cc (free k, e)) in (cc (t m p, t n q), t m p)
