-- ===== src/Tests/Config.antt =====
-- The controller's theorems at concrete objects and clusters.
use cloud_network_config_con.Base.{
  String, [], ◌∷◌, none, some, true, false, ◌≡◌, refl, arith, eq_iff, ◌==◌, string_eq, zero,
  ne_of_beq,
}
use cloud_network_config_con.Config.Object.{
  Config, Condition, condition_true, text, config_finalizer, add_finalizer,
}
use cloud_network_config_con.Config.Op.{compute_op, config_name_to_ip}
use cloud_network_config_con.Config.Client.{
  get_config, update_config_status, patch_config_finalizer,
}
use cloud_network_config_con.Config.Sync.{
  sync_handler, sync_object, sync_add, sync_delete, dispatch, write_status, ensure_finalizer,
  after_assign, after_release, finish_delete, finish,
}
use cloud_network_config_con.Config.Safety.Views
use cloud_network_config_con.Config.Safety.Handler
use cloud_network_config_con.Tests.Sim.{Sim, text_net, sim_kube, sim_cloud}
use cloud_network_config_con.Tests.GcpCluster.{compute, kube, gcp_cluster, gcp_services}
use cloud_network_config_con.Base.Text.{split, join}
use cloud_network_config_con.Cloud.{CloudProvider}
use cloud_network_config_con.Gcp.{
  get_instance, update, wait_for_completion, assign_private_ip, release_private_ip,
}
use cloud_network_config_con.Gcp.Aliases.{is_covered, has_alias, keep_aliases, fate}
use cloud_network_config_con.Gcp.Provider.{provider}
use cloud_network_config_con.Gcp.Urls.{split_gcp_node}
use cloud_network_config_con.Tests.SimServices.{sim_services, sim_moving}
use cloud_network_config_con.Config.Progress.Converge.{syncs, IsAssigned, syncs-IsAssigned}
use cloud_network_config_con.Config.Progress.Services.{without_node}
use cloud_network_config_con.Config.Progress.Deletion.{IsGoing, sync_handler-gone}
use cloud_network_config_con.Config.Progress.Stuck.{syncs-stuck}
use cloud_network_config_con.Config.Progress.Move.{
  IsUnsettled, IsMovedUnreported, sync_handler-IsMovedUnreported,
}

abbrev condition : Condition
condition = record {
  type = "Assigned";
  status = condition_true;
  observed_generation = 1;
  last_transition_time = 1;
  reason = "CloudResponseSuccess";
  message = text "";
}

-- A new object that asks for node a, and one that is assigned to a and asks for b.
abbrev fresh : Config
fresh = record {
  name = "10.0.0.5";
  generation = 1;
  deletion_timestamp = none;
  finalizers = [];
  spec_node = "a";
  status = record { node = ""; conditions = [] };
}

abbrev assigned : Config
assigned = record fresh {
  finalizers = config_finalizer ∷ [];
  spec_node = "b";
  status = record { node = "a"; conditions = condition ∷ [] };
}

abbrev start : Sim
start = record { stored = some fresh; holders = λ _. false }

abbrev moving : Sim
moving = record { stored = some assigned; holders = λ n. n == "a" }

-- The provider of GCP.
abbrev gcp : CloudProvider text_net Sim
gcp = provider text_net compute

run : Sim → Sim
unfolding sync_handler get_config sync_object compute_op dispatch sync_add sync_delete write_status
    update_config_status ensure_finalizer patch_config_finalizer add_finalizer after_assign
    after_release finish_delete finish assign_private_ip release_private_ip get_instance update
    wait_for_completion is_covered has_alias keep_aliases fate split_gcp_node split join
    config_name_to_ip
run s = (sync_handler text_net kube gcp "10.0.0.5" s).1

moving-Tracked : Views.Tracked gcp_cluster moving
moving-Tracked m e = ground (arith, eq_iff m "a")

sync_handler-Tracked_example : Views.Tracked gcp_cluster (run moving)
unfolding run
sync_handler-Tracked_example = Handler.sync_handler-Tracked gcp_cluster refl moving moving-Tracked

Reaches-held_once_example :
    (◌≡◌ {A = String} "a" "a") × (gcp_cluster.bond (run start) ≡ some ("a", true))
unfolding run
Reaches-held_once_example =
    Handler.Reaches-held_once gcp_cluster refl start (run start) "a" "a" (λ k. ground arith)
      (Handler.next Handler.here (Handler.sync start)) refl refl

syncs-IsAssigned_example : IsAssigned gcp_services "b" "a" (syncs gcp_services 2 moving)
syncs-IsAssigned_example =
    syncs-IsAssigned gcp_services refl assigned moving zero refl refl (ne_of_beq "b" "" refl) refl
      (ne_of_beq "b" "a" refl) (λ _. refl) refl refl

sync_handler-IsMovedUnreported_example :
    IsMovedUnreported
      (sim_services true "10.0.0.5")
      (sim_moving "10.0.0.5")
      "b"
      "a"
      (sync_handler text_net sim_kube (sim_cloud true) "10.0.0.5" moving).1
sync_handler-IsMovedUnreported_example =
    sync_handler-IsMovedUnreported (sim_services true "10.0.0.5") (sim_moving "10.0.0.5") refl "b"
      "a" moving (ne_of_beq "b" "" refl) (ne_of_beq "a" "" refl) (ne_of_beq "b" "a" refl) refl refl
      refl unsettled
  where
    unsettled : IsUnsettled (sim_services true "10.0.0.5") (sim_moving "10.0.0.5") "b" "a" moving
    unsettled = record {
      config = assigned;
      stored = refl;
      name = refl;
      undeleted = refl;
      wanted = refl;
      reported = refl;
    }

-- The assigned object, deleted, before and after its status lost the node.
abbrev deleted : Config
deleted = record assigned { deletion_timestamp = some 5 }

abbrev lost : Config
lost = record deleted { status = record { node = ""; conditions = condition ∷ [] } }

abbrev world : Config → Sim
world c = record { stored = some c; holders = λ n. n == "a" }

deleted-IsGoing : IsGoing deleted
deleted-IsGoing = record { deleting = refl; ours = refl; only = refl }

GoneResult : Sim → Type 0
GoneResult s =
    (s.stored ≡ none)
    × ((m : String)
        → gcp_services.held s m ≡ without_node "a" (gcp_services.held (world deleted)) m)

sync_handler-gone_example : GoneResult (sync_handler text_net kube gcp "10.0.0.5" (world deleted)).1
unfolding GoneResult
sync_handler-gone_example =
    sync_handler-gone gcp_services deleted (world deleted) refl deleted-IsGoing
      (ne_of_beq "a" "" refl) refl refl

syncs-stuck_example : (syncs gcp_services 4 (world lost)).stored ≡ some lost
syncs-stuck_example = syncs-stuck gcp_services lost (world lost) 4 refl refl refl refl refl
