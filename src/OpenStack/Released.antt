-- ===== src/OpenStack/Released.antt =====
-- A release on OpenStack takes the address off every port of the server.
use cloud_network_config_con.Base.{
  String, List, [], ◌∷◌, Option, some, Bool, true, false, ◌≡◌, Bool-cases, inl, inr, if◌then◌else◌,
  string_eq,
}
use cloud_network_config_con.Effect.{ok, M, pure, raise, optional, non_existing_ip}
use cloud_network_config_con.Effect.Ensures.{
  Outcome, Ensures, Anywhere, outcome_of_ok, bind_rule, weaken,
}
use cloud_network_config_con.Effect.Steps.{Steps-optional}
use cloud_network_config_con.Cloud.{Net, Node}
use cloud_network_config_con.OpenStack.{
  Port, Neutron, is_allowed, get_server_id, list_server_ports, get_subnets,
}
use cloud_network_config_con.OpenStack.Pairs.{unallow_on_port}
use cloud_network_config_con.OpenStack.Assign.{or_nothing}
use cloud_network_config_con.OpenStack.Release.{
  release_subnets, unallow_if, release_ports, release_private_ip,
}
use cloud_network_config_con.OpenStack.Move.{unallow_ports}
use cloud_network_config_con.OpenStack.Store.{Store}
use cloud_network_config_con.OpenStack.Quiet.{Same, get_subnets-Quiet, release_subnets-Quiet}
use cloud_network_config_con.OpenStack.Cleared.{
  Left, Left-skip, quiet_rule, unallow_rule, Cleared, Left-Cleared, list_rule, Attached,
}

module _ {N : Net} {S : Type 0} {E : Neutron S} {ip : Option N.Addr} (X : Store N E ip)
    (server : String) where
  abbrev Rest : List Port → S → Type 0
  Rest ps = Left X server ps

  -- A call after which nothing is said of a failure.
  lax :
      {A : Type 0} (P : S → Type 0) (Q : A → S → Type 0) (F : S → Type 0) (m : M S A)
      → Ensures P m Q F
      → Ensures P m Q Anywhere
  lax P Q F m h = weaken P Q Q F Anywhere m h (λ a s q. q) (λ s f. tt)

  unallow_if_rule :
      (found : Bool) (p : Port) (ps : List Port)
      → Ensures (Rest (p ∷ ps)) (unallow_if N E found ip p) (λ _. Rest ps) Anywhere
  unfolding unallow_if
  unallow_if_rule found p ps = elim (Bool-cases (is_allowed N p ip)) [
    | inl h ↦ rw h (
        bind_rule Anywhere (Rest (p ∷ ps)) (λ _. Rest ps) (λ _. Rest ps)
          (unallow_on_port N E p.id ip) _
          (lax (Rest (p ∷ ps)) (λ _. Rest ps) (Rest (p ∷ ps)) (unallow_on_port N E p.id ip)
            (unallow_rule X server p ps))
          (λ _ s l. l))
    | inr h ↦ rw h (λ s l. Left-skip X server p ps s h l)
  ]

  release_ports_rule :
      (found : Bool) (ps : List Port)
      → Ensures (Rest ps) (release_ports N E found ip server ps) (λ _. Rest []) Anywhere
  unfolding release_ports
  release_ports_rule found [] s l = l
  release_ports_rule found (p ∷ ps) s l =
      bind_rule Anywhere (Rest (p ∷ ps)) (λ _. Rest ps) (λ _. Rest []) (unallow_if N E found ip p) _
        (unallow_if_rule found p ps)
        (λ found'.
          bind_rule Anywhere (Rest ps) (λ _. Rest ps) (λ _. Rest [])
            (optional (get_subnets E p.network_id)) _
            (lax (Rest ps) (λ _. Rest ps) (Rest ps) (optional (get_subnets E p.network_id))
              (quiet_rule X server ps (optional (get_subnets E p.network_id)) (
                Steps-optional (Same X) (get_subnets E p.network_id)
                  (get_subnets-Quiet X p.network_id))))
            (λ subnets.
              bind_rule Anywhere (Rest ps) (λ _. Rest ps) (λ _. Rest [])
                (release_subnets N E found' ip server (or_nothing N subnets)) _
                (lax (Rest ps) (λ _. Rest ps) (Rest ps)
                  (release_subnets N E found' ip server (or_nothing N subnets))
                  (quiet_rule X server ps
                    (release_subnets N E found' ip server (or_nothing N subnets))
                    (release_subnets-Quiet X found' server (or_nothing N subnets))))
                (λ found''. release_ports_rule found'' ps)))
        s l

  pub unallow_ports_rule :
      (ps : List Port) → Ensures (Rest ps) (unallow_ports N E ip ps) (λ _. Rest []) Anywhere
  unfolding unallow_ports
  unallow_ports_rule [] s l = l
  unallow_ports_rule (p ∷ ps) s l =
      bind_rule Anywhere (Rest (p ∷ ps)) (λ _. Rest ps) (λ _. Rest [])
        (if is_allowed N p ip then unallow_on_port N E p.id ip else pure tt) _ first
        (λ _. unallow_ports_rule ps) s l
    where
      first :
          Ensures
            (Rest (p ∷ ps))
            (if is_allowed N p ip then unallow_on_port N E p.id ip else pure tt)
            (λ _. Rest ps)
            Anywhere
      first = elim (Bool-cases (is_allowed N p ip)) [
        | inl h ↦ rw h (
            lax (Rest (p ∷ ps)) (λ _. Rest ps) (Rest (p ∷ ps)) (unallow_on_port N E p.id ip)
              (unallow_rule X server p ps))
        | inr h ↦ rw h (λ s l. Left-skip X server p ps s h l)
      ]

  pub release_rule :
      (node : Node)
      → get_server_id E node.provider_id ≡ ok server
      → Ensures Anywhere (release_private_ip N E ip (some node)) (λ _. Cleared X server) Anywhere
  unfolding release_private_ip
  release_rule node h = rw h (
      bind_rule Anywhere Anywhere (λ ps s. Rest ps s × Attached X server ps) (λ _. Cleared X server)
        (list_server_ports E server) _ (list_rule X server)
        (λ ps s (l, a).
          bind_rule Anywhere (Rest ps) (λ _. Rest []) (λ _. Cleared X server)
            (release_ports N E false ip server ps) _ (release_ports_rule false ps)
            (λ found t r. ending found t r) s l))
    where
      ending :
          (found : Bool) (t : S)
          → Rest [] t
          → Outcome
              (λ _. Cleared X server)
              Anywhere
              ((if found then pure tt else raise non_existing_ip) t)
      ending true t r = Left-Cleared X server t r
      ending false t r = tt

  -- Where Neutron stores ports as `Store` says: after a release that succeeds, no port of the server
  -- that the node names allows the address.
  pub release_private_ip-Cleared :
      (node : Node) (s : S)
      → get_server_id E node.provider_id ≡ ok server
      → (release_private_ip N E ip (some node) s).0 ≡ ok tt
      → Cleared X server (release_private_ip N E ip (some node) s).1
  release_private_ip-Cleared node s h e =
      outcome_of_ok (Cleared X server) (release_private_ip N E ip (some node) s) tt
        (release_rule node h s tt) e
