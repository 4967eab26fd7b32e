-- ===== src/OpenStack/Untouched.antt =====
-- What the calls on OpenStack leave alone: a property that only the updates of the ports of one server
-- may change.
use cloud_network_config_con.Base.{
  String, List, [], ◌∷◌, Option, Bool, true, ◌≡◌, string_eq, arith, Bool-cases, inl, inr, beq_refl,
  if◌then◌else◌,
}
use cloud_network_config_con.Effect.{M, pure, optional}
use cloud_network_config_con.Effect.Ensures.{Ensures, Outcome-intro, Anywhere, bind_rule}
use cloud_network_config_con.Effect.Steps.{Steps, Steps-optional}
use cloud_network_config_con.Cloud.{Net}
use cloud_network_config_con.OpenStack.{Port, Neutron, is_allowed, get_subnets}
use cloud_network_config_con.OpenStack.Pairs.{unallow_on_port}
use cloud_network_config_con.OpenStack.Assign.{or_nothing}
use cloud_network_config_con.OpenStack.Release.{release_subnets, unallow_if, release_ports}
use cloud_network_config_con.OpenStack.Move.{unallow_ports}
use cloud_network_config_con.OpenStack.Store.{Store}
use cloud_network_config_con.OpenStack.Quiet.{Same, get_subnets-Quiet, release_subnets-Quiet}
use cloud_network_config_con.OpenStack.Cleared.{Attached}
use cloud_network_config_con.OpenStack.Others.{Others, unallow_on_port-Others}

module _ {N : Net} {S : Type 0} {E : Neutron S} {ip : Option N.Addr} (X : Store N E ip) where
  module _ (a : String) (P : S → Type 0) (same : (s t : S) → Same X s t → P s → P t)
      (others : (id : String) (s t : S)
        → X.attached a id ≡ true
        → Others X id s t
        → P s
        → P t) where
    pub keep_rule : {A : Type 0} (m : M S A) → Steps (Same X) m → Ensures P m (λ _. P) Anywhere
    keep_rule m h s c = Outcome-intro (λ _. P) Anywhere (m s) (λ _ e. same s (m s).1 (h s) c) tt

    unallow_keeps :
        (id : String)
        → X.attached a id ≡ true
        → Ensures P (unallow_on_port N E id ip) (λ _. P) Anywhere
    unallow_keeps id h s c =
        Outcome-intro (λ _. P) Anywhere (unallow_on_port N E id ip s)
          (λ _ e. others id s (unallow_on_port N E id ip s).1 h (unallow_on_port-Others X id s) c)
          tt

    head_lem : (p : Port) (ps : List Port) → Attached X a (p ∷ ps) → X.attached a p.id ≡ true
    unfolding Attached
    head_lem p ps h = h p.id (ground (arith, beq_refl p.id))

    tail_lem : (p : Port) (ps : List Port) → Attached X a (p ∷ ps) → Attached X a ps
    unfolding Attached
    tail_lem p ps h q e = h q (ground (arith, e))

    unallow_if_keeps :
        (found : Bool) (p : Port)
        → X.attached a p.id ≡ true
        → Ensures P (unallow_if N E found ip p) (λ _. P) Anywhere
    unfolding unallow_if
    unallow_if_keeps found p h = elim (Bool-cases (is_allowed N p ip)) [
      | inl e ↦ rw e (
          bind_rule Anywhere P (λ _. P) (λ _. P) (unallow_on_port N E p.id ip) _
            (unallow_keeps p.id h) (λ _ s c. c))
      | inr e ↦ rw e (λ s c. c)
    ]

    pub release_ports_keeps :
        (found : Bool) (ps : List Port)
        → Attached X a ps
        → Ensures P (release_ports N E found ip a ps) (λ _. P) Anywhere
    unfolding release_ports
    release_ports_keeps found [] at s c = c
    release_ports_keeps found (p ∷ ps) at s c =
        bind_rule Anywhere P (λ _. P) (λ _. P) (unallow_if N E found ip p) _
          (unallow_if_keeps found p (head_lem p ps at))
          (λ found'.
            bind_rule Anywhere P (λ _. P) (λ _. P) (optional (get_subnets E p.network_id)) _
              (keep_rule (optional (get_subnets E p.network_id)) (
                Steps-optional (Same X) (get_subnets E p.network_id)
                  (get_subnets-Quiet X p.network_id)))
              (λ subnets.
                bind_rule Anywhere P (λ _. P) (λ _. P)
                  (release_subnets N E found' ip a (or_nothing N subnets)) _
                  (keep_rule (release_subnets N E found' ip a (or_nothing N subnets))
                    (release_subnets-Quiet X found' a (or_nothing N subnets)))
                  (λ found''. release_ports_keeps found'' ps (tail_lem p ps at))))
          s c

    pub unallow_ports_keeps :
        (ps : List Port) → Attached X a ps → Ensures P (unallow_ports N E ip ps) (λ _. P) Anywhere
    unfolding unallow_ports
    unallow_ports_keeps [] at s c = c
    unallow_ports_keeps (p ∷ ps) at s c =
        bind_rule Anywhere P (λ _. P) (λ _. P)
          (if is_allowed N p ip then unallow_on_port N E p.id ip else pure tt) _ first
          (λ _. unallow_ports_keeps ps (tail_lem p ps at)) s c
      where
        first :
            Ensures P
              (if is_allowed N p ip then unallow_on_port N E p.id ip else pure tt)
              (λ _. P)
              Anywhere
        first = elim (Bool-cases (is_allowed N p ip)) [
          | inl e ↦ rw e (unallow_keeps p.id (head_lem p ps at))
          | inr e ↦ rw e (λ s c. c)
        ]
