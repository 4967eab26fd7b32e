-- ===== src/Tests/SimCluster.antt =====
-- The simulated services meet the assumptions on a cluster.
use cloud_network_config_con.Base.{
  String, List, Option, none, some, Bool, true, false, not, ◌&&◌, ◌==◌, string_eq, ◌≡◌, refl,
  contains, ℕ, zero, suc, arith, eq_iff, subst, Bool-cases, inl, inr, ◌⊎◌,
}
use cloud_network_config_con.Effect.{
  api, not_found, conflict, failure, no_network_interface, already_existing_ip, non_existing_ip,
  unexpected_uri, errorf, errorf_of, wrapf, Result, ok, err, panic, M,
}
use cloud_network_config_con.Effect.Retry.{Runs, last, again}
use cloud_network_config_con.Cloud.{Node}
use cloud_network_config_con.Config.Object.{Config, contains_finalizer, config_finalizer}
use cloud_network_config_con.Config.Op.{config_name_to_ip}
use cloud_network_config_con.Config.Client.{FinalizerPatch}
use cloud_network_config_con.Config.Safety.Cluster.{
  IsNode, Cluster, Bond, Drift, Moves, Patches, finalizers_patch, released,
}
use cloud_network_config_con.Tests.Sim.{
  Sim, text_net, sim_kube, sim_cloud, is_conflict, retry, sim_get, sim_update, sim_patch,
  sim_assign, sim_release, sim_node, sent,
}

abbrev bond_of : Option Config → Bond
bond_of none = none
bond_of (some c) = some (c.status.node, contains_finalizer c)

abbrev pub sim_bond : Sim → Bond
sim_bond s = bond_of s.stored

abbrev pub sim_held : Sim → String → Bool
sim_held s m = not (m == "") && s.holders m

conflict_lem :
    {A : Type 0} (o : Result A × Sim) → is_conflict o ≡ true → o ≡ (err (api conflict), o.1)
conflict_lem (ok a, s) e = cc
conflict_lem (panic, s) e = cc
conflict_lem (err (api conflict), s) e = refl
conflict_lem (err (api not_found), s) e = cc
conflict_lem (err (api (failure t)), s) e = cc
conflict_lem (err no_network_interface, s) e = cc
conflict_lem (err already_existing_ip, s) e = cc
conflict_lem (err non_existing_ip, s) e = cc
conflict_lem (err (unexpected_uri u), s) e = cc
conflict_lem (err (errorf f a), s) e = cc
conflict_lem (err (errorf_of f a x), s) e = cc
conflict_lem (err (wrapf f a x), s) e = cc

pub retry-Runs : {A : Type 0} (n : ℕ) (m : M Sim A) (s : Sim) → Runs m s (retry n m s)
retry-Runs zero m s = last s
retry-Runs (suc n) m s = elim (Bool-cases (is_conflict (m s))) [
  | inl c ↦ rw (c, retry) (again s (m s).1 (conflict_lem (m s) c) (retry-Runs n m (m s).1))
  | inr c ↦ rw (c, retry) (last s)
]

nowhere : (s : Sim) → sim_held s "" ≡ false
nowhere s = refl

pub update_keeps :
    (c : Config) (s : Sim)
    → ((m : String) → sim_held (sim_update c s).1 m ≡ sim_held s m)
      × Moves c.status.node (sim_bond s) (sim_bond (sim_update c s).1)
update_keeps c s = (λ m. ground arith, λ x h. ground arith)

pub update_writes :
    (c : Config) (s : Sim) {c' : Config}
    → (sim_update c s).0 ≡ ok c'
    → (c'.name ≡ c.name)
      × ((x : String) (f : Bool) → sim_bond (sim_update c s).1 ≡ some (x, f) → c.status.node ≡ x)
      × (contains_finalizer c' ≡ true → sim_bond (sim_update c s).1 ≡ some (c.status.node, true))
update_writes c s e = (ground arith, λ x f h. ground arith, λ h. ground arith)

sent_lem :
    (fs : List String) (op : List FinalizerPatch) (o : Config)
    → ok (finalizers_patch fs) ≡ ok op
    → sent o op ≡ fs
sent_lem fs op o e = ground arith

pub patch_keeps :
    (fs : List String) (op : List FinalizerPatch) (name : String) (s : Sim)
    → ok (finalizers_patch fs) ≡ ok op
    → ((m : String) → sim_held (sim_patch name op s).1 m ≡ sim_held s m)
      × Patches (contains fs config_finalizer) (sim_bond s) (sim_bond (sim_patch name op s).1)
patch_keeps fs op name s e = (
  λ m. ground arith,
  (λ ours x h. ground (arith, sent_lem fs op), λ x f h. kept s.stored refl x f h),
)
  where
    kept :
        (o : Option Config)
        → s.stored ≡ o
        → (x : String) (f : Bool) → sim_bond (sim_patch name op s).1 ≡ some (x, f)
        → (g : Bool) × (sim_bond s ≡ some (x, g))
    kept none p x f h = ground arith
    kept (some c) p x f h = (contains_finalizer c, ground arith)

assign_keeps :
    (ip : Option String) (n : String) (node : Node) (s : Sim)
    → IsNode (λ _. "") n node
    → ((m : String) → sim_held (sim_assign ip node s).1 m ≡ true → (sim_held s m ≡ true) ⊎ (m ≡ n))
      × Drift (sim_bond s) (sim_bond (sim_assign ip node s).1)
assign_keeps ip n node s is =
    (λ m h. ground (arith, is.0, eq_iff m node.name), (λ x h. ground arith, λ x f h. ground arith))

release_keeps :
    (ip : Option String) (node : Node) (s : Sim)
    → ((m : String) → sim_held (sim_release ip node s).1 m ≡ true → sim_held s m ≡ true)
      × Drift (sim_bond s) (sim_bond (sim_release ip node s).1)
release_keeps ip node s =
    (λ m h. ground (arith, eq_iff m node.name), (λ x h. ground arith, λ x f h. ground arith))

release_clears :
    (ip : Option String) (n : String) (node : Node) (s : Sim)
    → IsNode (λ _. "") n node
    → released (sim_release ip node s).0 ≡ true
    → sim_held (sim_release ip node s).1 n ≡ false
release_clears ip n node s is e =
    subst (λ x. sim_held (sim_release ip node s).1 x ≡ false) is.0
      (ground (arith, eq_iff node.name node.name))

pub patch_writes :
    (fs : List String) (op : List FinalizerPatch) (name : String) (s : Sim) {c' : Config}
    → ok (finalizers_patch fs) ≡ ok op
    → (sim_patch name op s).0 ≡ ok c'
    → contains fs config_finalizer ≡ true
    → (c'.name ≡ name)
      × ((x : String) × (f : Bool) × (sim_bond s ≡ some (x, f))
          × (sim_bond (sim_patch name op s).1 ≡ some (x, true)))
patch_writes fs op name s {c'} e h ours = wrote s.stored refl
  where
    wrote :
        (o : Option Config)
        → s.stored ≡ o
        → (c'.name ≡ name)
          × ((x : String) × (f : Bool) × (sim_bond s ≡ some (x, f))
              × (sim_bond (sim_patch name op s).1 ≡ some (x, true)))
    wrote none p = ground arith
    wrote (some c) p = (
      ground arith,
      (c.status.node, contains_finalizer c, ground arith, ground (arith, sent_lem fs op)),
    )

pub get_keeps :
    (name : String) (s : Sim)
    → ((m : String) → sim_held (sim_get name s).1 m ≡ sim_held s m)
      × Drift (sim_bond s) (sim_bond (sim_get name s).1)
get_keeps name s = (λ m. ground arith, (λ x h. ground arith, λ x f h. ground arith))

pub get_reads :
    (name : String) (s : Sim) {c : Config}
    → (sim_get name s).0 ≡ ok c
    → (c.name ≡ name)
      × ((x : String) (f : Bool) → sim_bond (sim_get name s).1 ≡ some (x, f) → c.status.node ≡ x)
get_reads name s e = (ground arith, λ x f h. ground arith)

get_names :
    (n : String) (s : Sim) {node : Node} → (sim_node n s).0 ≡ ok node → IsNode (λ _. "") n node
get_names n s e = (ground arith, ground arith)

-- The documented behaviour that the theorems assume can be met.
abbrev sim_cluster :
    (moves : Bool) (key : String) → Cluster text_net Sim sim_kube (sim_cloud moves) key
sim_cluster moves key = record {
  bond = sim_bond;
  held = sim_held;
  provider_id = λ _. "";
  held_nowhere = nowhere;
  retry_runs = λ m s. retry-Runs 4 m s;
  get_keeps = λ s. get_keeps key s;
  get_reads = λ s e. get_reads key s e;
  node_keeps = λ n s. (λ m. refl, (λ x h. h, λ x f h. h));
  node_name = λ n s e. get_names n s e;
  update_keeps = update_keeps;
  update_writes = λ c s e. update_writes c s e;
  patch_keeps = λ fs op s e. patch_keeps fs op key s e;
  patch_writes = λ fs op s e h ours. patch_writes fs op key s e h ours;
  assign_keeps = λ n node s is. assign_keeps (config_name_to_ip text_net key) n node s is;
  release_keeps = λ n node s is. release_keeps (config_name_to_ip text_net key) node s;
  release_clears = λ n node s is e. release_clears (config_name_to_ip text_net key) n node s is e;
}
