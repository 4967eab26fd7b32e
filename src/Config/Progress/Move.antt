-- ===== src/Config/Progress/Move.antt =====
-- A move by a provider that allows it: after it the handler writes the pending status again, which
-- still names the former node.
use cloud_network_config_con.Base.{
  String, none, some, Bool, true, false, ◌≡◌, ◌≢◌, refl, sym, ap, ◌∙◌, string_eq, beq_of_ne,
  beq_refl,
}
use cloud_network_config_con.Effect.{ok, attempt, unless, is_non_existing_ip}
use cloud_network_config_con.Effect.Ensures.{Ensures, known_rule, bind_rule}
use cloud_network_config_con.Cloud.{Net, CloudProvider}
use cloud_network_config_con.Config.Object.{
  Config, Status, is_deleting, condition_unknown, text, assigned_status, response_pending,
}
use cloud_network_config_con.Config.Op.{config_name_to_ip, is_unsuccessful}
use cloud_network_config_con.Config.Op.Laws.{compute_op-change}
use cloud_network_config_con.Config.Client.{Kube}
use cloud_network_config_con.Config.Sync.{
  Pending, write_status, after_move, sync_move, dispatch, sync_handler,
}
use cloud_network_config_con.Config.Progress.Services.{
  Services, Moving, Never, with_node, without_node,
}
use cloud_network_config_con.Config.Progress.Steps.{State, write_total, move_total}
use cloud_network_config_con.Config.Progress.Branches.{Leaves, Ends}
use cloud_network_config_con.Config.Progress.Handler.{handler_total}
use cloud_network_config_con.Config.Progress.Converge.{outcome_world}

module _ {N : Net} {S : Type 0} {K : Kube S} {C : CloudProvider N S} {key : String}
    (X : Services N S K C key) (V : Moving X) where
  moved_total :
      (k : String) (base c : Config) (status : Status) (add del : String) (h : String → Bool)
      → c ≡ record base { status = c.status }
      → status.node ≡ del
      → is_unsuccessful status.conditions ≡ ok true
      → Ensures
          (State X (some c) h)
          (after_move N K C k c status add del none)
          (Leaves X base del (ok true) h)
          Never
  unfolding after_move
  moved_total k base c status add del h e at is s p = (e, at, is, p)

  sync_move_total :
      (k : String) (c : Config) (add del : String) (h : String → Bool)
      → c.name ≡ key
      → X.listed add ≡ true
      → X.listed del ≡ true
      → add ≢ del
      → h add ≡ false
      → Ensures
          (State X (some c) h)
          (sync_move N K C k (config_name_to_ip N key) c add del)
          (Leaves X c del (ok true) (with_node add (without_node del h)))
          Never
  unfolding sync_move
  sync_move_total k c add del h named to from ne off =
      known_rule Never (State X (some c) h) (X.node_of del) (State X (some c) h) R (K.get_node del)
        _ (X.node_ok (some c) h del from)
        (known_rule Never (State X (some c) h) (X.node_of add) (State X (some c) h) R
          (K.get_node add) _ (X.node_ok (some c) h add to)
          (λ t q.
            known_rule Never (State X (some c) h) _ (State X (some _) h) R (write_status K _ k c _)
              _ (write_total X _ k c (pending t) h named)
              (bind_rule Never (State X (some _) h)
                (λ e u. (unless is_non_existing_ip e ≡ none) × State X (some _) h' u) R
                (attempt
                  (C.move_private_ip (config_name_to_ip N key) (X.node_of add) (X.node_of del)))
                _ (move_total X V (some _) h add del to from ne off)
                (λ e u (tolerated, r).
                  rw tolerated (moved_total k c _ (pending t) add del h' refl refl refl u r)))
              t q))
    where
      h' : String → Bool
      h' = with_node add (without_node del h)

      R : Pending → S → Type 0
      R = Leaves X c del (ok true) h'

      pending : S → Status
      pending t =
          assigned_status c (K.now t) del condition_unknown response_pending
            (text "Moving IP address")

  move_branch :
      (c : Config) (h : String → Bool)
      → c.name ≡ key
      → c.spec_node ≢ ""
      → c.status.node ≢ ""
      → X.listed c.spec_node ≡ true
      → X.listed c.status.node ≡ true
      → c.spec_node ≢ c.status.node
      → h c.spec_node ≡ false
      → Ensures
          (State X (some c) h)
          (dispatch N K C key (config_name_to_ip N key) c (c.spec_node, c.status.node))
          (Leaves X c c.status.node
            (ok true)
            (with_node c.spec_node (without_node c.status.node h)))
          Never
  unfolding dispatch
  move_branch c h named add del to from ne off =
      rw (beq_of_ne c.spec_node "" add, beq_of_ne c.status.node "" del)
        (sync_move_total key c c.spec_node c.status.node h named to from ne off)

  -- An object that still asks for `add` while its status says `del`, without success.
  pub record IsUnsettled (add del : String) (s : S) : Type 0 where
    pub config : Config
    pub stored : X.object s ≡ some config
    pub name : config.name ≡ key
    pub undeleted : is_deleting config ≡ false
    pub wanted : config.spec_node ≡ add
    pub reported : config.status.node ≡ del

  -- What one move leaves: the address on the new node, and a status that is not successful.
  pub record IsMovedUnreported (add del : String) (s : S) : Type 0 where
    pub unsettled : IsUnsettled add del s
    pub unsuccessful : is_unsuccessful unsettled.config.status.conditions ≡ ok true
    pub on_node : X.held s add ≡ true

  -- With a provider that moves addresses and services that answer, a sync that moves the address of
  -- an object to its new node, which does not have it yet, leaves the object unsuccessful: the cloud
  -- has the address on the node of the spec, but the status still names the former node and its
  -- condition is not True.
  pub sync_handler-IsMovedUnreported :
      C.allows_move_private_ip ≡ true
      → (add del : String) (s : S) → add ≢ ""
      → del ≢ ""
      → add ≢ del
      → X.listed add ≡ true
      → X.listed del ≡ true
      → X.held s add ≡ false
      → IsUnsettled add del s
      → IsMovedUnreported add del (sync_handler N K C key s).1
  sync_handler-IsMovedUnreported moves add del s a d other to from off u = left (
      outcome_world (Ends X c c.status.node (ok true) h') (sync_handler N K C key s) (
        handler_total X c (X.held s) (c.spec_node, c.status.node) c c.status.node (ok true) h'
          u.name u.name (rw moves (compute_op-change c true (rw u.undeleted) busy apart))
          (move_branch c (X.held s) u.name (λ e. a (sym u.wanted ∙ e)) busy
            (ap X.listed u.wanted ∙ to) (ap X.listed u.reported ∙ from) apart
            (ap (X.held s) u.wanted ∙ off))
          s (u.stored, λ m. refl)))
    where
      c : Config
      c = u.config

      apart : c.spec_node ≢ c.status.node
      apart e = other (sym u.wanted ∙ e ∙ u.reported)

      busy : c.status.node ≢ ""
      busy e = d (sym u.reported ∙ e)

      h' : String → Bool
      h' = with_node c.spec_node (without_node c.status.node (X.held s))

      left : {t : S} → Ends X c c.status.node (ok true) h' t → IsMovedUnreported add del t
      left {t} (status, at, is, shows) = record {
        unsettled = record {
          config = record c { status = status };
          stored = shows.0;
          name = u.name;
          undeleted = u.undeleted;
          wanted = u.wanted;
          reported = at ∙ u.reported;
        };
        unsuccessful = is;
        on_node = shows.1 add ∙ rw u.wanted (rw beq_refl);
      }
