-- ===== src/Config/Safety/Cluster.antt =====
-- The services that the handler calls, as far as it relies on them. One key is fixed. `bond` is what
-- the API server stores under it: the node of the status and whether our finalizer is set, or `none`
-- where there is no object. `held` tells whether the cloud has the address on the instance of a node.
-- Every call may fail, and an update that fails may have been carried out or not. Between any two
-- calls the consumer may edit the spec or delete the object, which our finalizer blocks.
use cloud_network_config_con.Base.{
  String, List, [], ◌∷◌, Option, some, Bool, true, false, ◌≡◌, ◌⊎◌, contains,
}
use cloud_network_config_con.Effect.{Result, ok, err, panic, M, is_non_existing_ip}
use cloud_network_config_con.Effect.Retry.{Runs}
use cloud_network_config_con.Cloud.{Net, Node, CloudProvider}
use cloud_network_config_con.Config.Object.{Config, contains_finalizer, config_finalizer}
use cloud_network_config_con.Config.Op.{config_name_to_ip}
use cloud_network_config_con.Config.Client.{Kube, FinalizerPatch}

abbrev pub Bond : Type 0
Bond = Option (String × Bool)

-- What other parties may do to a stored object: one with our finalizer stays as it is, and none
-- appears.
abbrev pub Drift : Bond → Bond → Type 0
Drift b b' =
    ((x : String) → b ≡ some (x, true) → b' ≡ some (x, true))
    × ((x : String) (f : Bool) → b' ≡ some (x, f) → b ≡ some (x, f))

-- An update of the status to node `n`, carried out or not.
abbrev pub Moves : String → Bond → Bond → Type 0
Moves n b b' = ((x : String) → b ≡ some (x, true) → (b' ≡ some (x, true)) ⊎ (b' ≡ some (n, true)))

-- A patch of the finalizers: it never changes the status, and with ours in it never loses ours.
abbrev pub Patches : Bool → Bond → Bond → Type 0
Patches ours b b' =
    (ours ≡ true → (x : String) → b ≡ some (x, true) → b' ≡ some (x, true))
    × ((x : String) (f : Bool) → b' ≡ some (x, f) → (g : Bool) × (b ≡ some (x, g)))

-- A release that leaves nothing to do: it succeeded, or the address was not assigned.
abbrev pub released : Result (Unit {0}) → Bool
released (ok _) = true
released (err e) = is_non_existing_ip e
released panic = false

abbrev pub finalizers_patch : List String → List FinalizerPatch
finalizers_patch fs = (record { op = "replace"; path = "/metadata/finalizers"; value = fs }) ∷ []

-- The node has the name, and the provider id that the node of this name has.
abbrev pub IsNode : (String → String) → String → Node → Type 0
IsNode provider_id n node = (node.name ≡ n) × (node.provider_id ≡ provider_id n)

pub record Cluster (N : Net) (S : Type 0) (K : Kube S) (C : CloudProvider N S) (key : String)
    : Type 1 where
  pub bond : S → Bond
  pub held : S → String → Bool
  pub provider_id : String → String
  pub held_nowhere : (s : S) → held s "" ≡ false
  pub retry_runs : {A : Type 0} (call : M S A) (s : S) → Runs call s (K.retry_on_conflict call s)
  -- Reads see the object as it is stored.
  pub get_keeps :
      (s : S)
      → ((m : String) → held (K.get key s).1 m ≡ held s m) × Drift (bond s) (bond (K.get key s).1)
  pub get_reads :
      (s : S) {c : Config}
      → (K.get key s).0 ≡ ok c
      → (c.name ≡ key)
        × ((x : String) (f : Bool) → bond (K.get key s).1 ≡ some (x, f) → c.status.node ≡ x)
  pub node_keeps :
      (n : String) (s : S)
      → ((m : String) → held (K.get_node n s).1 m ≡ held s m)
        × Drift (bond s) (bond (K.get_node n s).1)
  -- A node keeps its provider id, by which the cloud finds the instance.
  pub node_name :
      (n : String) (s : S) {node : Node} → (K.get_node n s).0 ≡ ok node → IsNode provider_id n node
  -- An update of the status of an object that still has our finalizer is stored when it succeeds.
  pub update_keeps :
      (c : Config) (s : S)
      → ((m : String) → held (K.update_status c s).1 m ≡ held s m)
        × Moves c.status.node (bond s) (bond (K.update_status c s).1)
  pub update_writes :
      (c : Config) (s : S) {c' : Config}
      → (K.update_status c s).0 ≡ ok c'
      → (c'.name ≡ c.name)
        × ((x : String) (f : Bool) → bond (K.update_status c s).1 ≡ some (x, f) → c.status.node ≡ x)
        × (contains_finalizer c' ≡ true → bond (K.update_status c s).1 ≡ some (c.status.node, true))
  -- A patch that succeeds has found an object.
  pub patch_keeps :
      (fs : List String) (op : K.Bytes) (s : S)
      → K.marshal (finalizers_patch fs) ≡ ok op
      → ((m : String) → held (K.patch key op s).1 m ≡ held s m)
        × Patches (contains fs config_finalizer) (bond s) (bond (K.patch key op s).1)
  pub patch_writes :
      (fs : List String) (op : K.Bytes) (s : S) {c' : Config}
      → K.marshal (finalizers_patch fs) ≡ ok op
      → (K.patch key op s).0 ≡ ok c'
      → contains fs config_finalizer ≡ true
      → (c'.name ≡ key)
        × ((x : String) × (f : Bool) × (bond s ≡ some (x, f))
            × (bond (K.patch key op s).1 ≡ some (x, true)))
  -- For a node that was found: the cloud assigns to its instance and to no other, and a release that
  -- succeeds, or that finds nothing, leaves the address off it.
  pub assign_keeps :
      (n : String) (node : Node) (s : S)
      → IsNode provider_id n node
      → let s' = (C.assign_private_ip (config_name_to_ip N key) node s).1 in
        ((m : String) → held s' m ≡ true → (held s m ≡ true) ⊎ (m ≡ n)) × Drift (bond s) (bond s')
  pub release_keeps :
      (n : String) (node : Node) (s : S)
      → IsNode provider_id n node
      → let s' = (C.release_private_ip (config_name_to_ip N key) node s).1 in
        ((m : String) → held s' m ≡ true → held s m ≡ true) × Drift (bond s) (bond s')
  pub release_clears :
      (n : String) (node : Node) (s : S)
      → IsNode provider_id n node
      → released (C.release_private_ip (config_name_to_ip N key) node s).0 ≡ true
      → held (C.release_private_ip (config_name_to_ip N key) node s).1 n ≡ false
