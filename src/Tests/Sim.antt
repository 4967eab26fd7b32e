-- ===== src/Tests/Sim.antt =====
-- A small API server and cloud for one object and its address, which never fail on their own.
use cloud_network_config_con.Base.{
  String, List, [], ◌∷◌, Option, none, some, Bool, true, false, ◌==◌, string_eq, if◌then◌else◌, ℕ,
  zero, suc,
}
use cloud_network_config_con.Base.Int.{pos}
use cloud_network_config_con.Effect.{
  api, not_found, conflict, already_existing_ip, non_existing_ip, Result, ok, err, M,
}
use cloud_network_config_con.Cloud.{Net, Node, CloudProvider}
use cloud_network_config_con.Config.Object.{Config, is_deleting}
use cloud_network_config_con.Config.Client.{FinalizerPatch, Kube}
use cloud_network_config_con.Config.Progress.Services.{with_node, without_node}

abbrev option_eq : Option String → Option String → Bool
option_eq none none = true
option_eq (some a) (some b) = a == b
option_eq _ _ = false

abbrev show : Option String → String
show none = "<nil>"
show (some a) = a

-- Addresses are their texts, and every text but the empty one is an IPv4 address and a range.
abbrev pub text_net : Net
text_net = record {
  Addr = String;
  Subnet = String;
  parse_ip = λ s. if s == "" then none else some s;
  ip_string = show;
  ip_equal = option_eq;
  is_ipv4 = λ _. true;
  is_ipv6 = λ _. false;
  is_ipv6_string = λ _. false;
  parse_cidr = λ s. if s == "" then none else some (s, s);
  subnet_contains = λ s a. option_eq (some s) a;
  subnet_string = λ s. s;
  subnet_prefix = λ _. pos 24;
  is_ipv4_cidr = λ _. true;
  is_ipv6_cidr = λ _. false;
}

-- The object that is stored, and the nodes that have the address.
pub record Sim : Type 0 where
  pub stored : Option Config
  pub holders : String → Bool

abbrev pub is_conflict : {A : Type 0} → Result A × Sim → Bool
is_conflict (err (api conflict), _) = true
is_conflict _ = false

-- `retry.RetryOnConflict` with a number of further attempts.
abbrev pub retry : {A : Type 0} → ℕ → M Sim A → M Sim A
retry zero m s = m s
retry (suc n) m s = elim (is_conflict (m s)) [ true ↦ retry n m (m s).1 | false ↦ m s ]

abbrev pub get_from : String → Option Config → M Sim Config
get_from name none s = (err (api not_found), s)
get_from name (some c) s = (ok (record c { name = name }), s)

abbrev pub sim_get : String → M Sim Config
sim_get name s = get_from name s.stored s

abbrev pub update_in : Config → Option Config → M Sim Config
update_in c none s = (err (api not_found), s)
update_in c (some o) s = (
  ok (record o { name = c.name; status = c.status }),
  record { stored = some (record o { name = c.name; status = c.status }); holders = s.holders },
)

abbrev pub sim_update : Config → M Sim Config
sim_update c s = update_in c s.stored s

-- An object that is being deleted goes with its last finalizer.
abbrev pub after_patch : Config → List String → Option Config
after_patch c [] = if is_deleting c then none else some (record c { finalizers = [] })
after_patch c (f ∷ fs) = some (record c { finalizers = f ∷ fs })

-- The value of the first patch.
abbrev pub sent : Config → List FinalizerPatch → List String
sent o [] = o.finalizers
sent o (p ∷ _) = p.value

abbrev pub patch_in : String → List FinalizerPatch → Option Config → M Sim Config
patch_in name op none s = (err (api not_found), s)
patch_in name op (some o) s = (
  ok (record o { name = name; finalizers = sent o op }),
  record { stored = after_patch (record o { name = name }) (sent o op); holders = s.holders },
)

abbrev pub sim_patch : String → List FinalizerPatch → M Sim Config
sim_patch name op s = patch_in name op s.stored s

abbrev pub sim_node : String → M Sim Node
sim_node n s = (ok (record { name = n; provider_id = ""; annotations = none }), s)

abbrev pub sim_kube : Kube Sim
sim_kube = record {
  Bytes = List FinalizerPatch;
  get = sim_get;
  update_status = sim_update;
  patch = sim_patch;
  get_node = sim_node;
  retry_on_conflict = retry 4;
  marshal = λ ps. ok ps;
  now = λ _. 7;
}

abbrev pub sim_assign : Option String → Node → M Sim (Unit {0})
sim_assign ip node s =
    if s.holders node.name
    then (err already_existing_ip, s)
    else (ok tt, record { stored = s.stored; holders = with_node node.name s.holders })

abbrev pub sim_release : Option String → Node → M Sim (Unit {0})
sim_release ip node s =
    if s.holders node.name
    then (ok tt, record { stored = s.stored; holders = without_node node.name s.holders })
    else (err non_existing_ip, s)

-- The flag is `AllowsMovePrivateIP`.
abbrev pub sim_cloud : Bool → CloudProvider text_net Sim
sim_cloud moves = record {
  assign_private_ip = sim_assign;
  allows_move_private_ip = moves;
  move_private_ip = λ ip add del s. (
    ok tt,
    record { stored = s.stored; holders = with_node add.name (without_node del.name s.holders) },
  );
  release_private_ip = sim_release;
  get_node_egress_ip_configuration = λ node s. (ok [], s);
}
