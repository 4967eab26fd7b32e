-- ===== src/Config/Progress/Converge.antt =====
-- Repeated syncs: the address settles on the node of the spec and stays there, and an object that is
-- deleted goes, unless its status names no node.
use cloud_network_config_con.Base.{
  ℕ, zero, suc, String, some, Bool, true, false, ◌≡◌, ◌≢◌, refl, sym, ap, ◌∙◌, inl, inr, eq_iff,
  ◌==◌, string_eq, beq_of_ne, ne_of_beq, beq_refl, Bool-cases,
}
use cloud_network_config_con.Effect.{Result, ok, err, panic}
use cloud_network_config_con.Effect.Ensures.{Outcome}
use cloud_network_config_con.Cloud.{Net, CloudProvider}
use cloud_network_config_con.Config.Object.{
  Config, contains_finalizer, add_finalizer, is_deleting, contains-add_finalizer,
  spec_node-add_finalizer, name-add_finalizer, is_deleting-add_finalizer,
}
use cloud_network_config_con.Config.Op.{compute_op, is_unsuccessful}
use cloud_network_config_con.Config.Op.Laws.{compute_op-idle}
use cloud_network_config_con.Config.Client.{Kube}
use cloud_network_config_con.Config.Sync.{sync_handler}
use cloud_network_config_con.Config.Progress.Services.{Services, Never, with_node, without_node}
use cloud_network_config_con.Config.Progress.Steps.{State}
use cloud_network_config_con.Config.Progress.Branches.{Ends}
use cloud_network_config_con.Config.Progress.Handler.{idle_total, change_total, add_total}

pub outcome_world :
    {S A : Type 0} (Q : S → Type 0) (o : Result A × S) → Outcome (λ _ s. Q s) Never o → Q o.1
outcome_world Q (ok a, s) h = h
outcome_world Q (err e, s) h = elim h [ ]
outcome_world Q (panic, s) h = elim h [ ]

module _ {N : Net} {S : Type 0} {K : Kube S} {C : CloudProvider N S} {key : String}
    (X : Services N S K C key) where
  -- The world after a number of syncs of the key.
  unfoldable pub syncs : ℕ → S → S
  syncs zero s = s
  syncs (suc n) s = (sync_handler N K C key (syncs n s)).1

  -- What a consumer waits for: the object says that the address is assigned to `n`, and so it is;
  -- it is not on `old`, and the object cannot vanish.
  pub record IsAssigned (n old : String) (s : S) : Type 0 where
    pub config : Config
    pub stored : X.object s ≡ some config
    pub name : config.name ≡ key
    pub wanted : config.spec_node ≡ n
    pub reported : config.status.node ≡ n
    pub successful : is_unsuccessful config.status.conditions ≡ ok false
    pub undeleted : is_deleting config ≡ false
    pub finalizer : contains_finalizer config ≡ true
    pub on_node : X.held s n ≡ true
    pub off_node : X.held s old ≡ false

  IsAssigned-idle :
      (n old : String) (s : S)
      → n ≢ ""
      → (a : IsAssigned n old s) → compute_op C.allows_move_private_ip a.config ≡ ok ("", "")
  IsAssigned-idle n old s busy a =
      compute_op-idle C.allows_move_private_ip a.config (rw a.undeleted)
        (λ e. busy (sym a.reported ∙ e)) (a.wanted ∙ sym a.reported) a.successful

  IsAssigned-sync :
      (n old : String) (s : S)
      → n ≢ ""
      → IsAssigned n old s
      → IsAssigned n old (sync_handler N K C key s).1
  IsAssigned-sync n old s busy a =
      let kept = outcome_world (State X (some a.config) (X.held s)) (sync_handler N K C key s) (
        idle_total X a.config (X.held s) a.name (IsAssigned-idle n old s busy a) s
          (a.stored, λ m. refl)) in
      record {
        config = a.config;
        stored = kept.0;
        name = a.name;
        wanted = a.wanted;
        reported = a.reported;
        successful = a.successful;
        undeleted = a.undeleted;
        finalizer = a.finalizer;
        on_node = kept.1 n ∙ a.on_node;
        off_node = kept.1 old ∙ a.off_node;
      }

  Ends-IsAssigned :
      (c : Config) (n old : String) (h : String → Bool) (s : S)
      → c.name ≡ key
      → c.spec_node ≡ n
      → is_deleting c ≡ false
      → h n ≡ true
      → h old ≡ false
      → Ends X (add_finalizer c) n (ok false) h s
      → IsAssigned n old s
  Ends-IsAssigned c n old h s named wanted live on off (status, at, is, shows) = record {
    config = record (add_finalizer c) { status = status };
    stored = shows.0;
    name = name-add_finalizer c ∙ named;
    wanted = spec_node-add_finalizer c ∙ wanted;
    reported = at;
    successful = is;
    undeleted = is_deleting-add_finalizer c ∙ live;
    finalizer = contains-add_finalizer c;
    on_node = shows.1 n ∙ on;
    off_node = shows.1 old ∙ off;
  }

  -- One sync adds an object whose status names no node.
  added_once :
      (c : Config) (old : String) (h : String → Bool) (s : S)
      → c.name ≡ key
      → is_deleting c ≡ false
      → c.status.node ≡ ""
      → c.spec_node ≢ ""
      → X.listed c.spec_node ≡ true
      → c.spec_node ≢ old
      → h old ≡ false
      → State X (some c) h s
      → IsAssigned c.spec_node old (sync_handler N K C key s).1
  added_once c old h s named live empty busy found other off shows =
      Ends-IsAssigned c c.spec_node old (with_node c.spec_node h) _ named refl live (rw beq_refl)
        (rw (beq_of_ne old c.spec_node (λ e. other (sym e))) off)
        (outcome_world (Ends X (add_finalizer c) c.spec_node (ok false) (with_node c.spec_node h))
          (sync_handler N K C key s)
          (add_total X c h named (rw live) (inl empty) busy found s shows))

  changed_then_added :
      (c : Config) (s : S)
      → c.name ≡ key
      → is_deleting c ≡ false
      → c.spec_node ≢ ""
      → X.listed c.spec_node ≡ true
      → c.spec_node ≢ c.status.node
      → Ends X c "" (ok false) (without_node c.status.node (X.held s)) (sync_handler N K C key s).1
      → IsAssigned c.spec_node c.status.node (sync_handler N K C key (sync_handler N K C key s).1).1
  changed_then_added c s named live busy found other (status, at, is, shows) =
      added_once (record c { status = status }) c.status.node
        (without_node c.status.node (X.held s)) (sync_handler N K C key s).1 named live at busy
        found other (rw beq_refl) shows

  settled_twice :
      C.allows_move_private_ip ≡ false
      → (c : Config) (s : S) → c.name ≡ key
      → is_deleting c ≡ false
      → c.spec_node ≢ ""
      → X.listed c.spec_node ≡ true
      → c.spec_node ≢ c.status.node
      → (c.status.node ≢ "" → X.listed c.status.node ≡ true)
      → X.object s ≡ some c
      → X.held s "" ≡ false
      → IsAssigned c.spec_node c.status.node (sync_handler N K C key (sync_handler N K C key s).1).1
  settled_twice fixed c s named live busy found other known stored nowhere =
      elim (Bool-cases (c.status.node == "")) [
        | inl e ↦
            let empty = (eq_iff c.status.node "").0 e in
            IsAssigned-sync c.spec_node c.status.node _ busy (
              added_once c c.status.node (X.held s) s named live empty busy found other
                (ap (X.held s) empty ∙ nowhere) (stored, λ m. refl))
        | inr e ↦
            let node = ne_of_beq c.status.node "" e in
            changed_then_added c s named live busy found other (
              outcome_world (Ends X c "" (ok false) (without_node c.status.node (X.held s)))
                (sync_handler N K C key s)
                (change_total X fixed c (X.held s) named (rw live) node other (known node) s
                  (stored, λ m. refl)))
      ]

  -- Over services that answer, with a provider that does not move addresses, an object that is not
  -- being deleted and asks for a listed node other than the one in its status (which is listed too,
  -- if there is one) is assigned after two syncs and after any number more: the status names the
  -- node of the spec with a successful condition, the finalizer is set, and the cloud has the address
  -- on that node and not on the former one.
  pub syncs-IsAssigned :
      C.allows_move_private_ip ≡ false
      → (c : Config) (s : S) (k : ℕ) → c.name ≡ key
      → is_deleting c ≡ false
      → c.spec_node ≢ ""
      → X.listed c.spec_node ≡ true
      → c.spec_node ≢ c.status.node
      → (c.status.node ≢ "" → X.listed c.status.node ≡ true)
      → X.object s ≡ some c
      → X.held s "" ≡ false
      → IsAssigned c.spec_node c.status.node (syncs (suc (suc k)) s)
  unfolding syncs
  syncs-IsAssigned fixed c s zero named live busy found other known stored nowhere =
      settled_twice fixed c s named live busy found other known stored nowhere
  syncs-IsAssigned fixed c s (suc k) named live busy found other known stored nowhere =
      IsAssigned-sync c.spec_node c.status.node (syncs (suc (suc k)) s) busy
        (syncs-IsAssigned fixed c s k named live busy found other known stored nowhere)
