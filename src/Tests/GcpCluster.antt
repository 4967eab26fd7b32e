-- ===== src/Tests/GcpCluster.antt =====
-- The provider of GCP, over a compute API with an instance for each of two nodes, meets the
-- assumptions on a cluster and those on progress.
use cloud_network_config_con.Base.{
  String, List, [], ◌∷◌, Option, none, some, Bool, true, false, ◌&&◌, ◌||◌, ◌==◌, string_eq, ◌≡◌,
  ◌⊎◌, inl, inr, refl, sym, ◌∙◌, subst, arith, eq_iff, Bool-cases, if◌then◌else◌,
}
use cloud_network_config_con.Base.Text.{join, split}
use cloud_network_config_con.Effect.{
  GoError, errorf, wrapf, already_existing_ip, non_existing_ip, is_already_existing_ip,
  is_non_existing_ip, ok, err,
}
use cloud_network_config_con.Effect.Ensures.{Answer}
use cloud_network_config_con.Cloud.{Node}
use cloud_network_config_con.Config.Object.{Config}
use cloud_network_config_con.Config.Client.{Kube, FinalizerPatch}
use cloud_network_config_con.Config.Op.{config_name_to_ip}
use cloud_network_config_con.Config.Safety.Cluster.{IsNode, Cluster, Drift}
use cloud_network_config_con.Config.Progress.Services.{
  Services, Shows, Never, Tolerates, with_node, without_node,
}
use cloud_network_config_con.Gcp.{
  Interface, Compute, get_instance, wait_for_completion, update, assign_private_ip,
  release_private_ip,
}
use cloud_network_config_con.Gcp.Aliases.{is_covered, has_alias, keep_aliases, fate}
use cloud_network_config_con.Gcp.Provider.{provider}
use cloud_network_config_con.Gcp.Urls.{Location, split_gcp_node}
use cloud_network_config_con.Tests.Sim.{Sim, text_net, sim_kube, sim_get, sim_update, sim_patch}
use cloud_network_config_con.Tests.SimCluster.{
  sim_bond, sim_held, retry-Runs, get_keeps, get_reads, update_keeps, update_writes, patch_keeps,
  patch_writes,
}
use cloud_network_config_con.Tests.SimServices.{get_ok, update_ok, patch_ok}

abbrev known : String → Bool
known n = n == "a" || n == "b"

abbrev aliases : Bool → List String
aliases has = if has then "10.0.0.5" ∷ [] else []

abbrev nic : Bool → Interface
nic has = record {
  name = "nic0";
  subnetwork = "";
  alias_ip_ranges = aliases has;
  force_send_fields = [];
}

abbrev is_listed : List String → Bool
is_listed [] = false
is_listed (r ∷ rs) = true

-- The world after the instance has got or lost the address.
abbrev set : String → Bool → Sim → Sim
set x has s = record s { holders = λ m. if m == x then has else s.holders m }

abbrev pub compute : Compute Sim
compute = record {
  parse_url = λ u.
      if u == "a"
      then ok ("project", "/zone/a")
      else (if u == "b" then ok ("project", "/zone/b") else err (errorf "" []));
  get_instance =
      λ p z i s. (ok (record { name = i; network_interfaces = some (nic (s.holders i)) ∷ [] }), s);
  update_network_interface =
      λ p z i n new s. (ok "operation", set i (is_listed new.alias_ip_ranges) s);
  wait = λ p z o s. (ok none, s);
  get_subnetwork = λ p r n s. (ok ("", ""), s);
}

abbrev pub kube : Kube Sim
kube = record sim_kube {
  get_node = λ n s. (ok (record { name = n; provider_id = n; annotations = none }), s);
}

abbrev held : Sim → String → Bool
held s m = known m && s.holders m

abbrev place : String → Location
place n = record { project = "project"; zone = "zone"; instance = n }

abbrev unparsed : Node → GoError
unparsed node =
    wrapf "failed to parse node %s provider id %s: %w" (node.name ∷ node.provider_id ∷ [])
      (errorf "" [])

abbrev Located : Node → String → Type 0
Located node n =
    ((known n ≡ true) × (split_gcp_node compute.parse_url node ≡ ok (place n)))
    ⊎ ((known n ≡ false) × (split_gcp_node compute.parse_url node ≡ err (unparsed node)))

located : (node : Node) (n : String) → node.provider_id ≡ n → Located node n
unfolding split_gcp_node split join
located node n h = by_test (n == "a") (n == "b") refl refl
  where
    by_test : (x y : Bool) → (n == "a") ≡ x → (n == "b") ≡ y → Located node n
    by_test true y e f =
        let at = (eq_iff n "a").0 e in inl (ground (arith, e), rw (h ∙ at, at) refl)
    by_test false true e f =
        let at = (eq_iff n "b").0 f in inl (ground (arith, f), rw (h ∙ at, at) refl)
    by_test false false e f = inr (ground (arith, e, f), rw (h, e, f) refl)

abbrev ip : Option String
ip = config_name_to_ip text_net "10.0.0.5"

assign_lem :
    (node : Node) (n : String) (s : Sim)
    → split_gcp_node compute.parse_url node ≡ ok (place n)
    → (assign_private_ip text_net compute ip node s).1 ≡ (if s.holders n then s else set n true s)
unfolding assign_private_ip get_instance update wait_for_completion is_covered config_name_to_ip
assign_lem node n s at = elim (Bool-cases (s.holders n)) [
  | inl e ↦ rw (at, e) refl
  | inr e ↦ rw (at, e) refl
]

release_lem :
    (node : Node) (n : String) (s : Sim)
    → split_gcp_node compute.parse_url node ≡ ok (place n)
    → (release_private_ip text_net compute ip node s).1 ≡ (if s.holders n then set n false s else s)
unfolding release_private_ip get_instance update wait_for_completion has_alias keep_aliases fate
    config_name_to_ip
release_lem node n s at = elim (Bool-cases (s.holders n)) [
  | inl e ↦ rw (at, e) refl
  | inr e ↦ rw (at, e) refl
]

assign_unknown :
    (node : Node) (s : Sim)
    → split_gcp_node compute.parse_url node ≡ err (unparsed node)
    → (assign_private_ip text_net compute ip node s).1 ≡ s
unfolding assign_private_ip get_instance
assign_unknown node s at = rw at refl

release_unknown :
    (node : Node) (s : Sim)
    → split_gcp_node compute.parse_url node ≡ err (unparsed node)
    → (release_private_ip text_net compute ip node s).1 ≡ s
unfolding release_private_ip get_instance
release_unknown node s at = rw at refl

-- The provider changes no object, and adds the address to one node or takes it off one.
abbrev Given : String → Sim → Sim → Type 0
Given n s t =
    ((m : String) → held t m ≡ true → (held s m ≡ true) ⊎ (m ≡ n)) × Drift (sim_bond s) (sim_bond t)

abbrev Taken : Sim → Sim → Type 0
Taken s t = ((m : String) → held t m ≡ true → held s m ≡ true) × Drift (sim_bond s) (sim_bond t)

set-Given : (n : String) (s : Sim) → Given n s (if s.holders n then s else set n true s)
set-Given n s = elim (Bool-cases (s.holders n)) [
  | inl e ↦ rw e (λ m h. inl h, (λ x h. h, λ x f h. h))
  | inr e ↦ rw e (λ m h. ground (arith, h, eq_iff m n), (λ x h. h, λ x f h. h))
]

set-Taken : (n : String) (s : Sim) → Taken s (if s.holders n then set n false s else s)
set-Taken n s = elim (Bool-cases (s.holders n)) [
  | inl e ↦ rw e (λ m h. ground (arith, h, eq_iff m n), (λ x h. h, λ x f h. h))
  | inr e ↦ rw e (λ m h. h, (λ x h. h, λ x f h. h))
]

pub assign_Given :
    (n : String) (node : Node) (s : Sim)
    → node.provider_id ≡ n
    → Given n s (assign_private_ip text_net compute ip node s).1
assign_Given n node s h = by_place (located node n h)
  where
    by_place : Located node n → Given n s (assign_private_ip text_net compute ip node s).1
    by_place (inl (k, at)) = subst (Given n s) (sym (assign_lem node n s at)) (set-Given n s)
    by_place (inr (k, at)) =
        subst (Given n s) (sym (assign_unknown node s at)) (λ m e. inl e, (λ x e. e, λ x f e. e))

pub release_Taken :
    (n : String) (node : Node) (s : Sim)
    → node.provider_id ≡ n
    → Taken s (release_private_ip text_net compute ip node s).1
release_Taken n node s h = by_place (located node n h)
  where
    by_place : Located node n → Taken s (release_private_ip text_net compute ip node s).1
    by_place (inl (k, at)) = subst (Taken s) (sym (release_lem node n s at)) (set-Taken n s)
    by_place (inr (k, at)) =
        subst (Taken s) (sym (release_unknown node s at)) (λ m e. e, (λ x e. e, λ x f e. e))

pub release_clears :
    (n : String) (node : Node) (s : Sim)
    → node.provider_id ≡ n
    → held (release_private_ip text_net compute ip node s).1 n ≡ false
release_clears n node s h = by_place (located node n h)
  where
    cleared : held (if s.holders n then set n false s else s) n ≡ false
    cleared = elim (Bool-cases (s.holders n)) [
      | inl e ↦ rw e (ground (arith, eq_iff n n))
      | inr e ↦ rw e (ground (arith, e))
    ]

    by_place : Located node n → held (release_private_ip text_net compute ip node s).1 n ≡ false
    by_place (inl (k, at)) = subst (λ t. held t n ≡ false) (sym (release_lem node n s at)) cleared
    by_place (inr (k, at)) = rw k refl

pub get_held : (s : Sim) (m : String) → held (sim_get "10.0.0.5" s).1 m ≡ held s m
get_held s m = ground arith

pub update_held : (c : Config) (s : Sim) (m : String) → held (sim_update c s).1 m ≡ held s m
update_held c s m = ground arith

pub patch_held :
    (op : List FinalizerPatch) (s : Sim) (m : String)
    → held (sim_patch "10.0.0.5" op s).1 m ≡ held s m
patch_held op s m = ground arith

pub node_name :
    (n : String) (s : Sim) {node : Node} → (kube.get_node n s).0 ≡ ok node → IsNode (λ x. x) n node
node_name n s e = (ground arith, ground arith)

abbrev pub gcp_cluster : Cluster text_net Sim kube (provider text_net compute) "10.0.0.5"
gcp_cluster = record {
  bond = sim_bond;
  held = held;
  provider_id = λ n. n;
  held_nowhere = λ s. refl;
  retry_runs = λ m s. retry-Runs 4 m s;
  get_keeps = λ s. (get_held s, (get_keeps "10.0.0.5" s).1);
  get_reads = λ s e. get_reads "10.0.0.5" s e;
  node_keeps = λ n s. (λ m. refl, (λ x h. h, λ x f h. h));
  node_name = λ n s e. node_name n s e;
  update_keeps = λ c s. (update_held c s, (update_keeps c s).1);
  update_writes = λ c s e. update_writes c s e;
  patch_keeps = λ fs op s e. (patch_held op s, (patch_keeps fs op "10.0.0.5" s e).1);
  patch_writes = λ fs op s e h ours. patch_writes fs op "10.0.0.5" s e h ours;
  assign_keeps = λ n node s is. assign_Given n node s is.1;
  release_keeps = λ n node s is. release_Taken n node s is.1;
  release_clears = λ n node s is e. release_clears n node s is.1;
}

assign_full :
    (node : Node) (n : String) (s : Sim)
    → split_gcp_node compute.parse_url node ≡ ok (place n)
    → assign_private_ip text_net compute ip node s
      ≡ (if s.holders n then (err already_existing_ip, s) else (ok tt, set n true s))
unfolding assign_private_ip get_instance update wait_for_completion is_covered config_name_to_ip
assign_full node n s at = elim (Bool-cases (s.holders n)) [
  | inl e ↦ rw (at, e) refl
  | inr e ↦ rw (at, e) refl
]

release_full :
    (node : Node) (n : String) (s : Sim)
    → split_gcp_node compute.parse_url node ≡ ok (place n)
    → release_private_ip text_net compute ip node s
      ≡ (if s.holders n then (ok tt, set n false s) else (err non_existing_ip, s))
unfolding release_private_ip get_instance update wait_for_completion has_alias keep_aliases fate
    config_name_to_ip
release_full node n s at = elim (Bool-cases (s.holders n)) [
  | inl e ↦ rw (at, e) refl
  | inr e ↦ rw (at, e) refl
]

abbrev host : String → Node
host n = record { name = n; provider_id = n; annotations = none }

found : (n : String) → known n ≡ true → split_gcp_node compute.parse_url (host n) ≡ ok (place n)
found n k = by_place (located (host n) n refl)
  where
    by_place : Located (host n) n → split_gcp_node compute.parse_url (host n) ≡ ok (place n)
    by_place (inl (l, at)) = at
    by_place (inr (l, at)) = cc

abbrev State : Option Config → (String → Bool) → Sim → Type 0
State = Shows (λ s. s.stored) sim_held

named : (n : String) → known n ≡ true → (n == "") ≡ false
named n k = elim (Bool-cases (n == "")) [
  | inl e ↦ by_text (subst (λ x. known x ≡ true) ((eq_iff n "").0 e) k)
  | inr e ↦ e
]
  where
    by_text : false ≡ true → (n == "") ≡ false
    by_text h = cc

pub assign_ok :
    (o : Option Config) (h : String → Bool) (n : String) (s : Sim)
    → known n ≡ true
    → State o h s
    → Answer Never
        (λ e t. Tolerates is_already_existing_ip e × State o (with_node n h) t)
        (assign_private_ip text_net compute ip (host n) s)
assign_ok o h n s k (e, p) =
    subst (Answer Never (λ e t. Tolerates is_already_existing_ip e × State o (with_node n h) t))
      (sym (assign_full (host n) n s (found n k)))
      (elim (Bool-cases (s.holders n)) [
        | inl old ↦ rw old (refl, (e, λ m. ground (arith, named n k, p m, eq_iff m n, eq_iff n "")))
        | inr new ↦ rw new (tt, (e, λ m. ground (arith, named n k, p m, eq_iff m n, eq_iff n "")))
      ])

pub release_ok :
    (o : Option Config) (h : String → Bool) (n : String) (s : Sim)
    → known n ≡ true
    → State o h s
    → Answer Never
        (λ e t. Tolerates is_non_existing_ip e × State o (without_node n h) t)
        (release_private_ip text_net compute ip (host n) s)
release_ok o h n s k (e, p) =
    subst (Answer Never (λ e t. Tolerates is_non_existing_ip e × State o (without_node n h) t))
      (sym (release_full (host n) n s (found n k)))
      (elim (Bool-cases (s.holders n)) [
        | inl old ↦ rw old (tt, (e, λ m. ground (arith, p m, eq_iff m n)))
        | inr new ↦ rw new (refl, (e, λ m. ground (arith, p m, eq_iff m n)))
      ])

-- The provider of GCP meets the assumptions on progress as well.
abbrev pub gcp_services : Services text_net Sim kube (provider text_net compute) "10.0.0.5"
gcp_services = record {
  object = λ s. s.stored;
  held = sim_held;
  listed = known;
  node_of = host;
  retry_runs = λ m s. retry-Runs 4 m s;
  get_ok = get_ok "10.0.0.5";
  node_ok = λ o h n l s p. (refl, p);
  update_ok = update_ok "10.0.0.5";
  patch_ok = patch_ok "10.0.0.5";
  assign_ok = λ o h n s l p. assign_ok o h n s l p;
  release_ok = λ o h n s l p. release_ok o h n s l p;
}
