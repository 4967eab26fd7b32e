-- ===== src/Config/Safety/Calls.antt =====
-- The cloud's two calls.
use cloud_network_config_con.Base.{
  Bool-cases, String, Option, none, some, Bool, true, ◌≡◌, inl, inr,
}
use cloud_network_config_con.Effect.{is_non_existing_ip, unless, GoError, attempt}
use cloud_network_config_con.Effect.Ensures.{Ensures, Answer-intro, attempt_rule}
use cloud_network_config_con.Cloud.{Net, Node, CloudProvider}
use cloud_network_config_con.Config.Op.{config_name_to_ip}
use cloud_network_config_con.Config.Client.{Kube}
use cloud_network_config_con.Config.Safety.Cluster.{IsNode, Cluster, released}
use cloud_network_config_con.Config.Safety.Views

module _ {N : Net} {S : Type 0} {K : Kube S} {C : CloudProvider N S} {key : String}
    (X : Cluster N S K C key) where
  abbrev Tracked : S → Type 0
  Tracked = Views.Tracked X

  abbrev Only : String → S → Type 0
  Only = Views.Only X

  abbrev Free : S → Type 0
  Free = Views.Free X

  abbrev Bound : String → S → Type 0
  Bound = Views.Bound X

  -- The cloud's two calls.
  pub assign_rule :
      (n : String) (node : Node) (tolerated : GoError → Bool)
      → IsNode X.provider_id n node
      → Ensures
          (Bound n)
          (attempt (C.assign_private_ip (config_name_to_ip N key) node))
          (λ _ s. Bound n s)
          (Bound n)
  assign_rule n node tolerated named =
      attempt_rule (Bound n) (Bound n) (λ _ s. Bound n s)
        (C.assign_private_ip (config_name_to_ip N key) node)
        (λ s h.
          let after = bound s h in
          Answer-intro (Bound n) (λ _ t. Bound n t)
            (C.assign_private_ip (config_name_to_ip N key) node s) (λ _ _. after) (λ _ _. after)
            after)
    where
      bound : (s : S) → Bound n s → Bound n (C.assign_private_ip (config_name_to_ip N key) node s).1
      bound s h =
          let k = X.assign_keeps n node s named in
          ((λ m g. elim (k.0 m g) [ inl old ↦ h.0 m old | inr new ↦ new ]), k.1.0 n h.1)

  -- What is left of the error of a release decides what the cloud still has.
  abbrev pub Unassigned : String → Option GoError → S → Type 0
  Unassigned n none s = Free s
  Unassigned n (some e) s = Only n s

  release_keeps-Only :
      (n : String) (node : Node) (s : S)
      → IsNode X.provider_id n node
      → Only n s
      → Only n (C.release_private_ip (config_name_to_ip N key) node s).1
  release_keeps-Only n node s named h m g =
      let k = X.release_keeps n node s named in let old = h m (k.0 m g) in (old.0, k.1.0 n old.1)

  release_clears-Free :
      (n : String) (node : Node) (s : S)
      → IsNode X.provider_id n node
      → released (C.release_private_ip (config_name_to_ip N key) node s).0 ≡ true
      → Only n s
      → Free (C.release_private_ip (config_name_to_ip N key) node s).1
  release_clears-Free n node s named done h m g =
      let here : m ≡ n = (release_keeps-Only n node s named h m g).0 in
      cc (X.release_clears n node s named done, g, here)

  pub release_rule :
      (n : String) (node : Node)
      → IsNode X.provider_id n node
      → Ensures
          (Only n)
          (attempt (C.release_private_ip (config_name_to_ip N key) node))
          (λ e s. Unassigned n (unless is_non_existing_ip e) s)
          Tracked
  release_rule n node named =
      attempt_rule Tracked (Only n) (λ e s. Unassigned n (unless is_non_existing_ip e) s)
        (C.release_private_ip (config_name_to_ip N key) node)
        (λ s h.
          Answer-intro Tracked (λ e t. Unassigned n (unless is_non_existing_ip e) t)
            (C.release_private_ip (config_name_to_ip N key) node s)
            (λ a e. release_clears-Free n node s named (rw e) h)
            (λ x e. elim (Bool-cases (is_non_existing_ip x)) [
              | inl absent ↦ rw absent (release_clears-Free n node s named (rw e absent) h)
              | inr other ↦ rw other (release_keeps-Only n node s named h)
            ])
            (Views.Only-Tracked X n _ (release_keeps-Only n node s named h)))
