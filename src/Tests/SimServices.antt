-- ===== src/Tests/SimServices.antt =====
-- The simulated services answer every call.
use cloud_network_config_con.Base.{
  String, List, [], ◌∷◌, Option, none, some, Bool, true, not, ◌&&◌, ◌==◌, string_eq, ◌≡◌, refl,
  arith, eq_iff, Bool-cases, inl, inr, subst, sym,
}
use cloud_network_config_con.Effect.{ok, is_already_existing_ip, is_non_existing_ip}
use cloud_network_config_con.Effect.Ensures.{Outcome, Ensures, Answer}
use cloud_network_config_con.Cloud.{Node}
use cloud_network_config_con.Config.Object.{Config, Status}
use cloud_network_config_con.Config.Op.{config_name_to_ip}
use cloud_network_config_con.Config.Client.{FinalizerPatch}
use cloud_network_config_con.Config.Safety.Cluster.{finalizers_patch}
use cloud_network_config_con.Config.Progress.Services.{
  Services, Moving, Shows, Never, survivor, with_node, without_node, Tolerates,
}
use cloud_network_config_con.Tests.Sim.{
  Sim, text_net, sim_kube, sim_cloud, sim_get, get_from, sim_update, update_in, sim_patch, patch_in,
  after_patch, sim_assign, sim_release,
}
use cloud_network_config_con.Tests.SimCluster.{sim_held, retry-Runs}

abbrev State : Option Config → (String → Bool) → Sim → Type 0
State = Shows (λ s. s.stored) sim_held

pub get_ok :
    (key : String) (c : Config) (h : String → Bool)
    → c.name ≡ key
    → Ensures (State (some c) h) (sim_get key) (λ c' s. (c' ≡ c) × State (some c) h s) Never
get_ok key c h named s (e, p) =
    subst (λ o. Outcome (λ c' t. (c' ≡ c) × State (some c) h t) Never (get_from key o s)) (sym e)
      (ground arith, (e, p))

pub update_ok :
    (key : String) (c : Config) (status : Status) (h : String → Bool)
    → c.name ≡ key
    → Ensures
        (State (some c) h)
        (sim_update (record c { status = status }))
        (λ c' s.
          (c' ≡ record c { status = status }) × State (some (record c { status = status })) h s)
        Never
update_ok key c status h named s (e, p) =
    subst
      (λ o.
        Outcome
          (λ c' t.
            (c' ≡ record c { status = status }) × State (some (record c { status = status })) h t)
          Never (update_in (record c { status = status }) o s))
      (sym e) (refl, (refl, p))

pub patch_ok :
    (key : String) (c : Config) (fs : List String) (h : String → Bool)
    → c.name ≡ key
    → (op : List FinalizerPatch) × (ok (finalizers_patch fs) ≡ ok op)
      × Ensures
          (State (some c) h)
          (sim_patch key op)
          (λ c' s. (c' ≡ record c { finalizers = fs }) × State (survivor c fs) h s)
          Never
patch_ok key c fs h named = (
  finalizers_patch fs,
  refl,
  λ s (e, p).
      subst
        (λ o.
          Outcome (λ c' t. (c' ≡ record c { finalizers = fs }) × State (survivor c fs) h t) Never
            (patch_in key (finalizers_patch fs) o s))
        (sym e) (ground arith, (survives fs, p)),
)
  where
    survives : (gs : List String) → after_patch (record c { name = key }) gs ≡ survivor c gs
    survives [] = ground arith
    survives (g ∷ gs) = ground arith

abbrev pub sim_host : String → Node
sim_host n = record { name = n; provider_id = ""; annotations = none }

pub assign_ok :
    (ip : Option String) (o : Option Config) (h : String → Bool) (n : String) (s : Sim)
    → (not (n == "")) ≡ true
    → State o h s
    → Answer Never
        (λ e t. Tolerates is_already_existing_ip e × State o (with_node n h) t)
        (sim_assign ip (sim_host n) s)
assign_ok ip o h n s busy (e, p) = elim (Bool-cases (s.holders n)) [
  | inl old ↦ rw old (refl, (e, λ m. ground (arith, p m, eq_iff m n, eq_iff n "")))
  | inr new ↦ rw new (tt, (e, λ m. ground (arith, p m, eq_iff m n, eq_iff n "")))
]

pub release_ok :
    (ip : Option String) (o : Option Config) (h : String → Bool) (n : String) (s : Sim)
    → State o h s
    → Answer Never
        (λ e t. Tolerates is_non_existing_ip e × State o (without_node n h) t)
        (sim_release ip (sim_host n) s)
release_ok ip o h n s (e, p) = elim (Bool-cases (s.holders n)) [
  | inl old ↦ rw old (tt, (e, λ m. ground (arith, p m, eq_iff m n)))
  | inr new ↦ rw new (refl, (e, λ m. ground (arith, p m, eq_iff m n)))
]

pub moved :
    (h : String → Bool) (s : Sim) (add del m : String)
    → (not (add == "")) ≡ true
    → sim_held s m ≡ h m
    → (not (m == "") && with_node add (without_node del s.holders) m)
      ≡ with_node add (without_node del h) m
moved h s add del m busy p = ground (arith, p, eq_iff m add, eq_iff add "", eq_iff m del)

-- The documented behaviour that the theorems on progress assume can be met.
abbrev pub sim_services :
    (moves : Bool) (key : String) → Services text_net Sim sim_kube (sim_cloud moves) key
sim_services moves key = record {
  object = λ s. s.stored;
  held = sim_held;
  listed = λ n. not (n == "");
  node_of = sim_host;
  retry_runs = λ m s. retry-Runs 4 m s;
  get_ok = get_ok key;
  node_ok = λ o h n l s p. (refl, p);
  update_ok = update_ok key;
  patch_ok = patch_ok key;
  assign_ok = λ o h n s l p. assign_ok (config_name_to_ip text_net key) o h n s l p;
  release_ok = λ o h n s l p. release_ok (config_name_to_ip text_net key) o h n s p;
}

abbrev pub sim_moving : (key : String) → Moving (sim_services true key)
sim_moving key = record {
  move_ok = λ o h add del s l k ne f p. (tt, (p.0, λ m. moved h s add del m l (p.1 m)));
}
