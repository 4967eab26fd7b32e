-- ===== src/Config/Events.antt =====
-- The event handlers of `NewCloudPrivateIPConfigController`.
use cloud_network_config_con.Base.{Bool, true, not, ◌&&◌, ◌==◌, string_eq, if◌then◌else◌}
use cloud_network_config_con.Config.Object.{Config, is_deleting, contains_finalizer}

-- Whether `UpdateFunc` enqueues the new object. The node is all that `Spec` holds.
unfoldable pub enqueues_update : Config → Config → Bool
enqueues_update old new =
    if is_deleting new && contains_finalizer new
    then true
    else (if not (old.spec_node == new.spec_node)
        then true
        else not (old.status.node == new.status.node))
