-- ===== src/Config/Progress/Branches.antt =====
-- The branches of `SyncHandler` over services that answer.
use cloud_network_config_con.Base.{
  String, none, some, Bool, true, false, ◌≡◌, refl, subst, ap, ◌&&◌, ◌∙◌,
}
use cloud_network_config_con.Effect.{
  Result, ok, attempt, unless, pure, is_non_existing_ip, is_already_existing_ip,
}
use cloud_network_config_con.Effect.Ensures.{Ensures, known_rule, bind_rule}
use cloud_network_config_con.Cloud.{Net, Node, CloudProvider}
use cloud_network_config_con.Config.Object.{
  Config, Status, condition_unknown, text, assigned_status, contains_finalizer, add_finalizer,
  is_deleting, response_pending,
}
use cloud_network_config_con.Config.Op.{config_name_to_ip, is_unsuccessful}
use cloud_network_config_con.Config.Client.{Kube, update_config_status}
use cloud_network_config_con.Config.Sync.{
  Pending, write_status, finish, finish_delete, after_release, sync_delete, ensure_finalizer,
  after_assign, sync_add,
}
use cloud_network_config_con.Config.Progress.Services.{Services, Never, with_node, without_node}
use cloud_network_config_con.Config.Progress.Finalizer.{
  ensure_finalizer_total, add_finalizer-status,
}
use cloud_network_config_con.Config.Progress.Steps.{
  State, update_total, write_total, assign_total, release_total,
}

module _ {N : Net} {S : Type 0} {K : Kube S} {C : CloudProvider N S} {key : String}
    (X : Services N S K C key) where
  -- What a branch leaves to the last update: the object `base` but for its status, and a status
  -- block of success or not for `node`.
  abbrev pub Leaves : Config → String → Result Bool → (String → Bool) → Pending → S → Type 0
  Leaves base node answer h none s = ⊥
  Leaves base node answer h (some (c, status)) s =
      (c ≡ record base { status = c.status })
      × (status.node ≡ node)
      × (is_unsuccessful status.conditions ≡ answer)
      × State X (some c) h s

  -- The end of a sync: the object `base` with such a status is stored.
  abbrev pub Ends : Config → String → Result Bool → (String → Bool) → S → Type 0
  Ends base node answer h s =
      (status : Status) × (status.node ≡ node)
      × (is_unsuccessful status.conditions ≡ answer)
      × State X (some (record base { status = status })) h s

  pub finish_total :
      (base : Config) (node : String) (answer : Result Bool) (h : String → Bool) (p : Pending)
      → base.name ≡ key
      → Ensures (Leaves base node answer h p) (finish K p) (λ _ s. Ends base node answer h s) Never
  unfolding finish
  finish_total base node answer h none named s l = elim l [ ]
  finish_total base node answer h (some (c, status)) named s (e, at, is, p) =
      known_rule Never (State X (some c) h) (record c { status = status })
        (State X (some (record c { status = status })) h) (λ _ t. Ends base node answer h t)
        (update_config_status K c status) (λ _. pure tt)
        (update_total X c status h (ap (λ o. o.name) e ∙ named))
        (λ t q. (
          status,
          at,
          is,
          subst (λ (o : Config). State X (some (record o { status = status })) h t) e q,
        ))
        s p

  finish_delete_total :
      (base c : Config) (h : String → Bool)
      → c ≡ record base { status = c.status }
      → (is_deleting c && contains_finalizer c) ≡ false
      → Ensures (State X (some c) h) (finish_delete N K C c) (Leaves base "" (ok false) h) Never
  unfolding finish_delete
  finish_delete_total base c h e live s p = rw live (e, refl, refl, p)

  released_total :
      (k : String) (base c : Config) (node : Node) (del : String) (h : String → Bool)
      → c ≡ record base { status = c.status }
      → (is_deleting c && contains_finalizer c) ≡ false
      → Ensures
          (State X (some c) h)
          (after_release N K C k c node del none)
          (Leaves base "" (ok false) h)
          Never
  unfolding after_release
  released_total k base c node del h e live = finish_delete_total base c h e live

  -- A deletion from a listed node, of an object that stays.
  pub sync_delete_total :
      (k : String) (c : Config) (del : String) (h : String → Bool)
      → c.name ≡ key
      → X.listed del ≡ true
      → (is_deleting c && contains_finalizer c) ≡ false
      → Ensures
          (State X (some c) h)
          (sync_delete N K C k (config_name_to_ip N key) c del)
          (Leaves c "" (ok false) (without_node del h))
          Never
  unfolding sync_delete
  sync_delete_total k c del h named found live =
      known_rule Never (State X (some c) h) (X.node_of del) (State X (some c) h)
        (Leaves c "" (ok false) (without_node del h)) (K.get_node del) _
        (X.node_ok (some c) h del found)
        (λ t q.
          known_rule Never (State X (some c) h) _ (State X (some _) h)
            (Leaves c "" (ok false) (without_node del h)) (write_status K _ k c _) _
            (write_total X _ k c
              (assigned_status c (K.now t) del condition_unknown response_pending
                (text "Deleting IP address"))
              h named)
            (bind_rule Never (State X (some _) h)
              (λ e u.
                (unless is_non_existing_ip e ≡ none) × State X (some _) (without_node del h) u)
              (Leaves c "" (ok false) (without_node del h))
              (attempt (C.release_private_ip (config_name_to_ip N key) (X.node_of del))) _
              (release_total X (some _) h del found)
              (λ e u (tolerated, r).
                rw tolerated
                  (released_total k c _ (X.node_of del) del (without_node del h) refl live u r)))
            t q)

  assigned_total :
      (k : String) (base c : Config) (node : Node) (add : String) (h : String → Bool)
      → c ≡ record base { status = c.status }
      → Ensures
          (State X (some c) h)
          (after_assign N K C k c node add none)
          (Leaves base add (ok false) h)
          Never
  unfolding after_assign
  assigned_total k base c node add h e s p = (e, refl, refl, p)

  -- An addition to a listed node.
  pub sync_add_total :
      (k : String) (c : Config) (add : String) (h : String → Bool)
      → c.name ≡ key
      → X.listed add ≡ true
      → Ensures
          (State X (some c) h)
          (sync_add N K C k (config_name_to_ip N key) c add)
          (Leaves (add_finalizer c) add (ok false) (with_node add h))
          Never
  unfolding sync_add
  sync_add_total k c add h named found s p =
      known_rule Never (State X (some c) h) _ (State X (some _) h)
        (Leaves (add_finalizer c) add (ok false) (with_node add h)) (write_status K _ k c _) _
        (write_total X _ k c
          (assigned_status c (K.now s) add condition_unknown response_pending
            (text "Adding IP address"))
          h named)
        (known_rule Never (State X (some _) h) (add_finalizer _)
          (State X (some (add_finalizer _)) h)
          (Leaves (add_finalizer c) add (ok false) (with_node add h)) (ensure_finalizer N K C k _) _
          (ensure_finalizer_total X k _ h named)
          (known_rule Never (State X (some (add_finalizer _)) h) (X.node_of add)
            (State X (some (add_finalizer _)) h)
            (Leaves (add_finalizer c) add (ok false) (with_node add h)) (K.get_node add) _
            (X.node_ok (some (add_finalizer _)) h add found)
            (bind_rule Never (State X (some (add_finalizer _)) h)
              (λ e u.
                (unless is_already_existing_ip e ≡ none)
                × State X (some (add_finalizer _)) (with_node add h) u)
              (Leaves (add_finalizer c) add (ok false) (with_node add h))
              (attempt (C.assign_private_ip (config_name_to_ip N key) (X.node_of add))) _
              (assign_total X (some (add_finalizer _)) h add found)
              (λ e u (tolerated, r). rw tolerated (
                assigned_total k (add_finalizer c) _ (X.node_of add) add (with_node add h)
                  (add_finalizer-status c _) u r)))))
        s p
