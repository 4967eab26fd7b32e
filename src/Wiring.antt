-- ===== src/Wiring.antt =====
-- The constructors of the four controllers: which events of an informer are put into the work queue.
-- pkg/controller/cloudprivateipconfig/cloudprivateipconfig_controller.go,
-- pkg/controller/node/node_controller.go, pkg/controller/secret/secret_controller.go and
-- pkg/controller/configmap/configmap_controller.go
pub mod Events
pub mod Missed
pub mod Requeued
use cloud_network_config_con.Base.{String, some, Bool, if◌then◌else◌}
use cloud_network_config_con.Effect.{Result, M}
use cloud_network_config_con.Cloud.{Net, Node, CloudProvider}
use cloud_network_config_con.Queue.{WorkQueue, Object}
use cloud_network_config_con.Informer.{
  Delivered, object, final_state_unknown, Handlers, CloudNetworkConfigController, enqueue_object,
  enqueue_delivered,
}
use cloud_network_config_con.Config.Object.{Config}
use cloud_network_config_con.Config.Events.{enqueues_update}
use cloud_network_config_con.Config.Client.{Kube}
use cloud_network_config_con.Config.Sync.{sync_handler}
use cloud_network_config_con.Node.{NodeClient, sync_node}
use cloud_network_config_con.Rotation.{
  Resource, resource, tombstone, filter, enqueues_rotation, sync_rotation,
}

module _ {S : Type 0} (Q : WorkQueue S) (key_func : Object → Result String) where
  -- `NewCloudPrivateIPConfigController`
  unfoldable pub new_cloud_private_ip_config_controller :
      (N : Net)
      → Kube S
      → CloudProvider N S
      → (Config → String)
      → CloudNetworkConfigController Config S
  new_cloud_private_ip_config_controller N K C meta =
      let enqueue_config = enqueue_object Q key_func meta "*v1.CloudPrivateIPConfig" in
      record {
        controller_key = "cloud-private-ip-config";
        controller_type = "*v1.CloudPrivateIPConfig";
        sync_handler = sync_handler N K C;
        handlers = record {
          on_add = enqueue_config;
          on_update = λ old new s. if enqueues_update old new then enqueue_config new s else s;
          on_delete = enqueue_delivered Q key_func meta "*v1.CloudPrivateIPConfig";
        };
      }

  -- `NewNodeController`, which sets a handler of additions only.
  unfoldable pub new_node_controller :
      (N : Net)
      → NodeClient S
      → CloudProvider N S
      → (Node → String)
      → CloudNetworkConfigController Node S
  new_node_controller N K C meta = record {
    controller_key = "node";
    controller_type = "*v1.Node";
    sync_handler = sync_node N K C;
    handlers = record {
      on_add = enqueue_object Q key_func meta "*v1.Node";
      on_update = λ old new s. s;
      on_delete = λ d s. s;
    };
  }

  module _ {Data : Type 0} (equal : Data → Data → Bool) (meta : Resource Data → String)
      (name namespace : String) where
    -- The filter, on what the informer delivers.
    abbrev pub is_watched : Delivered (Resource Data) → Bool
    is_watched (object r) = filter name namespace (resource r)
    is_watched (final_state_unknown k r) = filter name namespace (tombstone (some r))

    -- The handlers behind the filter, with no handler of additions.
    abbrev pub rotation_handlers : String → Handlers (Resource Data) S
    rotation_handlers controller_type = record {
      on_add = λ r s. s;
      on_update = λ old new s.
          if enqueues_rotation equal old new
          then enqueue_object Q key_func meta controller_type new s
          else s;
      on_delete = enqueue_delivered Q key_func meta controller_type;
    }

    module _
        (filtering : (Delivered (Resource Data) → Bool)
          → Handlers (Resource Data) S
          → Handlers (Resource Data) S)
        (cancel : S → S) where
      -- `NewSecretController`; `filtering` is `cache.FilteringResourceEventHandler`.
      unfoldable pub new_secret_controller : CloudNetworkConfigController (Resource Data) S
      new_secret_controller = record {
        controller_key = "secret";
        controller_type = "*v1.Secret";
        sync_handler = sync_rotation cancel;
        handlers = filtering is_watched (rotation_handlers "*v1.Secret");
      }

      -- `NewConfigMapController`
      unfoldable pub new_config_map_controller : CloudNetworkConfigController (Resource Data) S
      new_config_map_controller = record {
        controller_key = "configMap";
        controller_type = "*v1.ConfigMap";
        sync_handler = sync_rotation cancel;
        handlers = filtering is_watched (rotation_handlers "*v1.ConfigMap");
      }
