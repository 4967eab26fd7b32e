-- ===== src/Config/Safety/Reads.antt =====
-- The calls that only read: the lister of nodes, and `getCloudPrivateIPConfig`.
use cloud_network_config_con.Base.{String, Option, none, some, true, ◌≡◌, sym, subst}
use cloud_network_config_con.Effect.{
  no_network_interface, already_existing_ip, non_existing_ip, unexpected_uri, errorf, errorf_of,
  wrapf, api, not_found, conflict, failure, Result, ok, err, panic,
}
use cloud_network_config_con.Effect.Ensures.{Outcome, Ensures, Outcome-intro}
use cloud_network_config_con.Cloud.{Net, CloudProvider}
use cloud_network_config_con.Config.Object.{Config}
use cloud_network_config_con.Config.Client.{Kube, found, get_config}
use cloud_network_config_con.Config.Safety.Cluster.{IsNode, Cluster}
use cloud_network_config_con.Config.Safety.Views

module _ {N : Net} {S : Type 0} {K : Kube S} {C : CloudProvider N S} {key : String}
    (X : Cluster N S K C key) where
  abbrev Tracked : S → Type 0
  Tracked = Views.Tracked X

  abbrev Only : String → S → Type 0
  Only = Views.Only X

  -- The node that the lister finds has the name that was asked for.
  pub get_node_rule :
      (P : S → Type 0) (n : String)
      → ((s s' : S) → Views.Keeps X s s' → P s → P s')
      → Ensures P (K.get_node n) (λ node s. IsNode X.provider_id n node × P s) P
  get_node_rule P n keep s p =
      Outcome-intro _ _ (K.get_node n s)
        (λ node e. (X.node_name n s e, keep s _ (X.node_keeps n s) p))
        (keep s _ (X.node_keeps n s) p)

  -- What a read gives: nothing, or the object with the node of its status.
  abbrev pub Read : Option Config → S → Type 0
  Read none s = Tracked s
  Read (some c) s = (c.name ≡ key) × Only c.status.node s

  reads-Only :
      (s : S) (c : Config) → Tracked s → (K.get key s).0 ≡ ok c → Only c.status.node (K.get key s).1
  reads-Only s c t e m h =
      let kept : Tracked (K.get key s).1 = Views.Keeps-Tracked X s _ (X.get_keeps s) t in
      let p : c.status.node ≡ m = (X.get_reads s e).1 m true (kept m h) in
      (sym p, subst (λ x. X.bond (K.get key s).1 ≡ some (x, true)) (sym p) (kept m h))

  found_rule :
      (o : Result Config × S)
      → Outcome (λ c s. (c.name ≡ key) × Only c.status.node s) Tracked o
      → Outcome Read Tracked (found K o)
  found_rule (ok c, s) h = h
  found_rule (err (api not_found), s) h = h
  found_rule (err (api conflict), s) h = h
  found_rule (err (api (failure t)), s) h = h
  found_rule (err no_network_interface, s) h = h
  found_rule (err already_existing_ip, s) h = h
  found_rule (err non_existing_ip, s) h = h
  found_rule (err (unexpected_uri u), s) h = h
  found_rule (err (errorf f a), s) h = h
  found_rule (err (errorf_of f a e), s) h = h
  found_rule (err (wrapf f a e), s) h = h
  found_rule (panic, s) h = h

  pub get_config_rule : Ensures Tracked (get_config K key) Read Tracked
  unfolding get_config
  get_config_rule s t = found_rule (K.get key s) (
      Outcome-intro _ _ (K.get key s) (λ c e. ((X.get_reads s e).0, reads-Only s c t e))
        (Views.Keeps-Tracked X s _ (X.get_keeps s) t))
