-- ===== src/Config/Sync.antt =====
-- `SyncHandler`: one reconciliation of the resource that a key names.
use cloud_network_config_con.Base.{
  String, [], ◌∷◌, Option, none, some, not, ◌&&◌, ◌==◌, string_eq, if◌then◌else◌,
}
use cloud_network_config_con.Effect.{
  GoError, errorf_of, is_non_existing_ip, is_already_existing_ip, M, ◌>>=◌, ◌>>◌, pure, raise, lift,
  on_error, attempt, unless,
}
use cloud_network_config_con.Cloud.{Net, Node, CloudProvider}
use cloud_network_config_con.Config.Object.{
  Config, Status, ConditionStatus, condition_true, condition_false, condition_unknown, Message,
  text, text_of, is_deleting, contains_finalizer, add_finalizer, remove_finalizer, assigned_status,
  response_pending, response_error, response_success,
}
use cloud_network_config_con.Config.Op.{compute_op, config_name_to_ip}
use cloud_network_config_con.Config.Client.{
  Kube, get_config, update_config_status, patch_config_finalizer,
}

-- The object and the status of the last update, or `none` where the handler has returned nil.
abbrev pub Pending : Type 0
Pending = Option (Config × Status)

module _ {S : Type 0} (K : Kube S) where
  -- A status block with the time of its construction.
  abbrev pub status_now : Config → String → ConditionStatus → String → Message → M S Status
  status_now c node status reason message s =
      pure (assigned_status c (K.now s) node status reason message) s

  -- The write of a status; `label` is the format of the error.
  unfoldable pub write_status : String → String → Config → Status → M S Config
  write_status label key c status =
      on_error (update_config_status K c status) (errorf_of label (key ∷ []))

  -- The status after a call of the cloud has failed, and the error that requeues the key.
  unfoldable pub report_failure :
      String → String → Config → String → Message → GoError → M S Pending
  report_failure label key c node message e = do
    status ← status_now c node condition_false response_error message
    write_status label key c status
    raise e

  -- `_, err = c.updateCloudPrivateIPConfigStatus(cloudPrivateIPConfig, status); return err`
  unfoldable pub finish : Pending → M S (Unit {0})
  finish none = pure tt
  finish (some (c, status)) = update_config_status K c status >> pure tt

module _ (N : Net) {S : Type 0} (K : Kube S) (C : CloudProvider N S) where
  -- What follows the move, by its error. After a success the pending status is kept.
  unfoldable pub after_move :
      String → Config → Status → String → String → Option GoError → M S Pending
  after_move key c status add del none = pure (some (c, status))
  after_move key c status add del (some e) =
      report_failure K
        "error updating CloudPrivateIPConfig: %q status for error releasing cloud assignment, err: %v"
        key c del (text_of "Error processing cloud move request, err: %v" e)
        (errorf_of "error moving CloudPrivateIPConfig: %q from node %q to %q, err: %v"
          (key ∷ del ∷ add ∷ []) e)

  unfoldable pub sync_move : String → Option N.Addr → Config → String → String → M S Pending
  sync_move key ip c add del = do
    node_to_del ← K.get_node del
    node_to_add ← K.get_node add
    status ← status_now K c del condition_unknown response_pending (text "Moving IP address")
    c' ←
        write_status K "error updating CloudPrivateIPConfig: %q during move operation, err: %v" key
          c status
    move_err ← attempt (C.move_private_ip ip node_to_add node_to_del)
    after_move key c' status add del (unless is_non_existing_ip move_err)

  -- The object that is being deleted loses its finalizer, and nothing is written after that.
  unfoldable pub finish_delete : Config → M S Pending
  finish_delete c =
      if is_deleting c && contains_finalizer c
      then patch_config_finalizer K (remove_finalizer c) >> pure none
      else do
        status ←
            status_now K c "" condition_true response_success
              (text "IP address successfully deleted")
        pure (some (c, status))

  unfoldable pub after_release : String → Config → Node → String → Option GoError → M S Pending
  after_release key c node del none = finish_delete c
  after_release key c node del (some e) =
      report_failure K
        "error updating CloudPrivateIPConfig: %q status for error releasing cloud assignment, err: %v"
        key c del (text_of "Error processing cloud release request, err: %v" e)
        (errorf_of "error releasing CloudPrivateIPConfig: %q from node: %q, err: %v"
          (key ∷ node.name ∷ []) e)

  unfoldable pub sync_delete : String → Option N.Addr → Config → String → M S Pending
  sync_delete key ip c del = do
    node ← K.get_node del
    status ← status_now K c del condition_unknown response_pending (text "Deleting IP address")
    c' ←
        write_status K "error updating CloudPrivateIPConfig: %q during delete operation, err: %v"
          key c status
    release_err ← attempt (C.release_private_ip ip node)
    after_release key c' node del (unless is_non_existing_ip release_err)

  unfoldable pub ensure_finalizer : String → Config → M S Config
  ensure_finalizer key c =
      if contains_finalizer c
      then pure c
      else on_error (patch_config_finalizer K (add_finalizer c))
          (errorf_of "error updating CloudPrivateIPConfig: %q, err: %v" (key ∷ []))

  unfoldable pub after_assign : String → Config → Node → String → Option GoError → M S Pending
  after_assign key c node add none = do
    status ←
        status_now K c add condition_true response_success (text "IP address successfully added")
    pure (some (c, status))
  after_assign key c node add (some e) =
      report_failure K
        "error updating CloudPrivateIPConfig: %q status for error issuing cloud assignment, err: %v"
        key c add (text_of "Error processing cloud assignment request, err: %v" e)
        (errorf_of "error assigning CloudPrivateIPConfig: %q to node: %q, err: %v"
          (key ∷ node.name ∷ []) e)

  unfoldable pub sync_add : String → Option N.Addr → Config → String → M S Pending
  sync_add key ip c add = do
    status ← status_now K c add condition_unknown response_pending (text "Adding IP address")
    c1 ← write_status K "error updating CloudPrivateIPConfig: %q, err: %v" key c status
    c2 ← ensure_finalizer key c1
    node ← K.get_node add
    assign_err ← attempt (C.assign_private_ip ip node)
    after_assign key c2 node add (unless is_already_existing_ip assign_err)

  -- The `switch` over the two node names.
  unfoldable pub dispatch : String → Option N.Addr → Config → String × String → M S Pending
  dispatch key ip c (add, del) =
      if add == "" && del == ""
      then pure none
      else (if not (add == "") && not (del == "")
          then sync_move key ip c add del
          else (if not (del == "") then sync_delete key ip c del else sync_add key ip c add))

  unfoldable pub sync_object : String → Option Config → M S (Unit {0})
  sync_object key none = pure tt
  sync_object key (some c) = do
    let ip = config_name_to_ip N c.name
    op ← lift (compute_op C.allows_move_private_ip c)
    pending ← dispatch key ip c op
    finish K pending

  unfoldable pub sync_handler : String → M S (Unit {0})
  sync_handler key = get_config K key >>= sync_object key
