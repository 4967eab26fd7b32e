-- ===== src/Config/Progress/Services.antt =====
-- Services that answer: no call fails, nobody else edits the object meanwhile, and every listed node
-- is found. `object` is what the API server stores under the key, and `held` tells whether the cloud
-- has the address on the instance of a node.
use cloud_network_config_con.Base.{
  String, List, [], ◌∷◌, Option, none, some, Bool, true, false, ◌≡◌, ◌≢◌, ◌==◌, string_eq,
  if◌then◌else◌,
}
use cloud_network_config_con.Effect.{GoError, ok, M, is_already_existing_ip, is_non_existing_ip}
use cloud_network_config_con.Effect.Ensures.{Ensures, Answer}
use cloud_network_config_con.Effect.Retry.{Runs}
use cloud_network_config_con.Cloud.{Net, Node, CloudProvider}
use cloud_network_config_con.Config.Object.{Config, Status, is_deleting}
use cloud_network_config_con.Config.Op.{config_name_to_ip}
use cloud_network_config_con.Config.Client.{Kube}
use cloud_network_config_con.Config.Safety.Cluster.{finalizers_patch}

-- A set of nodes with one more, and with one less.
abbrev pub with_node : String → (String → Bool) → String → Bool
with_node n h m = if m == n then true else h m

abbrev pub without_node : String → (String → Bool) → String → Bool
without_node n h m = if m == n then false else h m

-- An object that is being deleted goes when its last finalizer goes.
abbrev pub survivor : Config → List String → Option Config
survivor c [] = if is_deleting c then none else some (record c { finalizers = [] })
survivor c (f ∷ fs) = some (record c { finalizers = f ∷ fs })

-- No call may fail.
abbrev pub Never : {S : Type 0} → S → Type 0
Never _ = ⊥

abbrev pub Tolerates : (GoError → Bool) → Option GoError → Type 0
Tolerates t none = Unit
Tolerates t (some e) = t e ≡ true

-- What a world shows: the stored object and the nodes that have the address.
abbrev pub Shows :
    {S : Type 0}
    → (S → Option Config)
    → (S → String → Bool)
    → Option Config
    → (String → Bool)
    → S
    → Type 0
Shows object held o h s = (object s ≡ o) × ((m : String) → held s m ≡ h m)

pub record Services (N : Net) (S : Type 0) (K : Kube S) (C : CloudProvider N S) (key : String)
    : Type 1 where
  pub object : S → Option Config
  pub held : S → String → Bool
  pub listed : String → Bool
  pub node_of : String → Node
  pub retry_runs : {A : Type 0} (call : M S A) (s : S) → Runs call s (K.retry_on_conflict call s)
  pub get_ok :
      (c : Config) (h : String → Bool)
      → c.name ≡ key
      → Ensures
          (Shows object held (some c) h)
          (K.get key)
          (λ c' s. (c' ≡ c) × Shows object held (some c) h s)
          Never
  pub node_ok :
      (o : Option Config) (h : String → Bool) (n : String)
      → listed n ≡ true
      → Ensures
          (Shows object held o h)
          (K.get_node n)
          (λ node s. (node ≡ node_of n) × Shows object held o h s)
          Never
  pub update_ok :
      (c : Config) (status : Status) (h : String → Bool)
      → c.name ≡ key
      → Ensures
          (Shows object held (some c) h)
          (K.update_status (record c { status = status }))
          (λ c' s.
            (c' ≡ record c { status = status })
            × Shows object held (some (record c { status = status })) h s)
          Never
  pub patch_ok :
      (c : Config) (fs : List String) (h : String → Bool)
      → c.name ≡ key
      → (op : K.Bytes) × (K.marshal (finalizers_patch fs) ≡ ok op)
        × Ensures
            (Shows object held (some c) h)
            (K.patch key op)
            (λ c' s. (c' ≡ record c { finalizers = fs }) × Shows object held (survivor c fs) h s)
            Never
  pub assign_ok :
      (o : Option Config) (h : String → Bool) (n : String) (s : S)
      → listed n ≡ true
      → Shows object held o h s
      → Answer Never
          (λ e t. Tolerates is_already_existing_ip e × Shows object held o (with_node n h) t)
          (C.assign_private_ip (config_name_to_ip N key) (node_of n) s)
  pub release_ok :
      (o : Option Config) (h : String → Bool) (n : String) (s : S)
      → listed n ≡ true
      → Shows object held o h s
      → Answer Never
          (λ e t. Tolerates is_non_existing_ip e × Shows object held o (without_node n h) t)
          (C.release_private_ip (config_name_to_ip N key) (node_of n) s)

-- A provider that moves addresses, in whose world the new node does not have the address yet.
pub record Moving {N : Net} {S : Type 0} {K : Kube S} {C : CloudProvider N S} {key : String}
    (X : Services N S K C key) : Type 0 where
  pub move_ok :
      (o : Option Config) (h : String → Bool) (add del : String) (s : S)
      → X.listed add ≡ true
      → X.listed del ≡ true
      → add ≢ del
      → h add ≡ false
      → Shows X.object X.held o h s
      → Answer Never
          (λ e t.
            Tolerates is_non_existing_ip e
            × Shows X.object X.held o (with_node add (without_node del h)) t)
          (C.move_private_ip (config_name_to_ip N key) (X.node_of add) (X.node_of del) s)
