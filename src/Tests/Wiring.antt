-- ===== src/Tests/Wiring.antt =====
-- Events of an informer: a rotated secret, and a CloudPrivateIPConfig that changes or does not.
use cloud_network_config_con.Base.{
  String, [], ◌∷◌, none, Bool, true, false, ◌≡◌, refl, ◌==◌, string_eq, if◌then◌else◌, ne_of_beq,
}
use cloud_network_config_con.Effect.{errorf, Result, ok, err}
use cloud_network_config_con.Queue.{key, WorkQueue, Object, typed, tombstone}
use cloud_network_config_con.Informer.{
  Delivered, object, final_state_unknown, Handlers, IsFiltering,
}
use cloud_network_config_con.Rotation.{Resource}
use cloud_network_config_con.Config.Object.{Config, Condition, condition_false, text}
use cloud_network_config_con.Config.Op.{compute_op}
use cloud_network_config_con.Wiring.{
  new_cloud_private_ip_config_controller, is_watched, new_secret_controller,
  new_config_map_controller,
}
use cloud_network_config_con.Wiring.Events.{Cancels, on_update-Cancels}
use cloud_network_config_con.Wiring.Missed.{Misses, on_delete-Misses}
use cloud_network_config_con.Wiring.Requeued.{on_update-released}
use cloud_network_config_con.Tests.Queue.{Line, line_queue}
use cloud_network_config_con.Tests.Sim.{Sim, text_net, sim_kube, sim_cloud}

abbrev same : String → String → Bool
same a b = a == b

abbrev before : Resource String
before = record {
  name = "cloud-credentials";
  namespace = "operator";
  resource_version = "1";
  deletion_timestamp = none;
  content = "old";
}

abbrev after : Resource String
after = record before { resource_version = "2"; content = "new" }

-- `FilteringResourceEventHandler` where an update may also begin or stop to pass the filter.
abbrev filtering : {A S : Type 0} → (Delivered A → Bool) → Handlers A S → Handlers A S
filtering f h = record {
  on_add = λ a s. if f (object a) then h.on_add a s else s;
  on_update = λ old new s.
      if f (object new)
      then (if f (object old) then h.on_update old new s else h.on_add new s)
      else (if f (object old) then h.on_delete (object old) s else s);
  on_delete = λ d s. if f d then h.on_delete d s else s;
}

filtering-IsFiltering :
    {A S : Type 0} (f : Delivered A → Bool) (h : Handlers A S) → IsFiltering f h (filtering f h)
filtering-IsFiltering f h = record {
  adds = λ a s. (λ e. rw e refl, λ e. rw e refl);
  updates = λ old new s. (λ e d. rw (e, d) refl, λ e d. rw (e, d) refl);
  deletes = λ d s. (λ e. rw e refl, λ e. rw e refl);
}

abbrev idle : Line
idle = record { waiting = false; requeues = 0 }

abbrev stop : Line → Line
stop s = record s { requeues = 7 }

abbrev all_keys : Object → Result String
all_keys (typed t meta) = ok "k"
all_keys (tombstone k o) = err (errorf "object has no meta" [])

abbrev meta_of : Resource String → String
meta_of r = r.name

on_update-Cancels_example :
    Cancels line_queue all_keys same meta_of "cloud-credentials" "operator"
      (new_secret_controller line_queue all_keys same meta_of "cloud-credentials" "operator"
        filtering stop)
      stop
      "k"
      before
      after
      idle
      idle
    × Cancels line_queue all_keys same meta_of "cloud-credentials" "operator"
        (new_config_map_controller line_queue all_keys same meta_of "cloud-credentials" "operator"
          filtering stop)
        stop
        "k"
        before
        after
        idle
        idle
on_update-Cancels_example =
    on_update-Cancels line_queue all_keys same meta_of "cloud-credentials" "operator" filtering stop
      "k" before after idle idle
      (filtering-IsFiltering
        (is_watched line_queue all_keys same meta_of "cloud-credentials" "operator"))
      refl refl (ne_of_beq "1" "2" refl) refl refl (λ t. refl) refl

on_delete-Misses_example :
    (is_watched line_queue all_keys same meta_of "cloud-credentials" "operator"
        (final_state_unknown "k" before)
      ≡ true)
    × Misses line_queue all_keys same meta_of "cloud-credentials" "operator"
        (new_secret_controller line_queue all_keys same meta_of "cloud-credentials" "operator"
          filtering stop)
        "k"
        "k"
        before
        idle
    × Misses line_queue all_keys same meta_of "cloud-credentials" "operator"
        (new_config_map_controller line_queue all_keys same meta_of "cloud-credentials" "operator"
          filtering stop)
        "k"
        "k"
        before
        idle
on_delete-Misses_example =
    on_delete-Misses line_queue all_keys same meta_of "cloud-credentials" "operator" filtering stop
      "k" "k" before idle
      (filtering-IsFiltering
        (is_watched line_queue all_keys same meta_of "cloud-credentials" "operator"))
      (λ y o. (errorf "object has no meta" [], refl)) refl (λ t. refl)

-- A queue that notes that something was added.
abbrev noting : WorkQueue Sim
noting = record {
  get = λ s. (none, s);
  done = λ i s. s;
  add = λ i s. record s { holders = λ n. if n == "queue" then true else s.holders n };
  forget = λ i s. s;
  num_requeues = λ i s. 0;
  add_rate_limited = λ i s. s;
}

abbrev condition : Condition
condition = record {
  type = "Assigned";
  status = condition_false;
  observed_generation = 1;
  last_transition_time = 1;
  reason = "CloudResponseError";
  message = text "";
}

abbrev failed : Config
failed = record {
  name = "10.0.0.5";
  generation = 1;
  deletion_timestamp = none;
  finalizers = [];
  spec_node = "a";
  status = record { node = "a"; conditions = condition ∷ [] };
}

abbrev released : Config
released = record failed { status = record { node = ""; conditions = condition ∷ [] } }

abbrev sim : Sim
sim = record { stored = none; holders = λ n. false }

abbrev config_meta : Config → String
config_meta c = c.name

on_update-released_example :
    ((new_cloud_private_ip_config_controller noting all_keys text_net sim_kube
          (sim_cloud true)
          config_meta).handlers.on_update
        failed released sim
      ≡ noting.add (key "k") sim)
    × (compute_op true released ≡ ok ("a", ""))
on_update-released_example =
    on_update-released noting all_keys text_net sim_kube (sim_cloud true) config_meta "k" true
      failed released sim refl refl (ne_of_beq "a" "" refl) refl
