-- ===== src/OpenStack/Outside.antt =====
-- An assignment and a release on OpenStack as steps on the servers that have the address: a server has
-- it when one of its ports allows it.
use cloud_network_config_con.Base.{
  String, Option, some, Bool, true, false, ◌≡◌, ◌≢◌, ◌↔◌, refl, sym, ◌∙◌, string_eq, arith,
  Bool-cases, inl, inr, if◌then◌else◌, subst,
}
use cloud_network_config_con.Effect.{non_existing_ip, ok, pure, raise}
use cloud_network_config_con.Effect.Ensures.{
  Outcome, Ensures, Outcome-intro, Outcome-both, Outcome-weaken, Anywhere, bind_rule, weaken,
}
use cloud_network_config_con.Cloud.{Net, Node}
use cloud_network_config_con.Cloud.Ledger.{give, take, Step}
use cloud_network_config_con.OpenStack.{Neutron, get_server_id, list_server_ports}
use cloud_network_config_con.OpenStack.Assign.{assign_private_ip}
use cloud_network_config_con.OpenStack.Release.{release_ports, release_private_ip}
use cloud_network_config_con.OpenStack.Store.{Store}
use cloud_network_config_con.OpenStack.Quiet.{Same, list_server_ports-Quiet}
use cloud_network_config_con.OpenStack.Cleared.{Left, Attached, list_rule, Cleared}
use cloud_network_config_con.OpenStack.Released.{release_rule}
use cloud_network_config_con.OpenStack.Others.{Others}
use cloud_network_config_con.OpenStack.Held.{Held}
use cloud_network_config_con.OpenStack.Kept.{assign_rule}
use cloud_network_config_con.OpenStack.Untouched.{release_ports_keeps}

module _ {N : Net} {S : Type 0} {E : Neutron S} {ip : Option N.Addr} (X : Store N E ip) where
  -- The ports that are not inside allow what they did.
  unfoldable pub Outside : (String → Bool) → S → S → Type 0
  Outside inside s t = (q : String) → inside q ≡ false → X.allows t q ≡ X.allows s q

  pub Outside-Same :
      (inside : String → Bool) (s t u : S) → Same X t u → Outside inside s t → Outside inside s u
  unfolding Outside Same
  Outside-Same inside s t u h o q out = h q ∙ o q out

  pub Outside-Others :
      (inside : String → Bool) (id : String) (s t u : S)
      → inside id ≡ true
      → Others X id t u
      → Outside inside s t
      → Outside inside s u
  unfolding Outside Others
  Outside-Others inside id s t u i h o q out = h q (λ e. ground (arith, e, i, out)) ∙ o q out

  pub Outside-refl : (inside : String → Bool) (s : S) → Outside inside s s
  unfolding Outside
  Outside-refl inside s q out = refl

  pub Held-Outside :
      (inside : String → Bool) (b : String) (s t : S)
      → ((q : String) → X.attached b q ≡ true → inside q ≡ false)
      → Outside inside s t
      → Held X b s ↔ Held X b t
  unfolding Outside
  Held-Outside inside b s t out o = (
    λ (q, at, al). (q, at, o q (out q at) ∙ al),
    λ (q, at, al). (q, at, sym (o q (out q at)) ∙ al),
  )

  module _ (reads : N.ip_equal ip (N.parse_ip (N.ip_string ip)) ≡ true)
      (exclusive : (q a b : String) → X.attached a q ≡ true → X.attached b q ≡ true → a ≡ b) where
    pub apart :
        (a b : String) → b ≢ a → (q : String) → X.attached b q ≡ true → X.attached a q ≡ false
    apart a b ne q h = elim (Bool-cases (X.attached a q)) [
      | inl e ↦ ground (arith, exclusive q b a h e)
      | inr e ↦ e
    ]

    pub given_rule :
        (node : Node) (a : String) (s : S)
        → get_server_id E node.provider_id ≡ ok a
        → Outcome
            (λ _ t. Step (give a) (λ b. Held X b s) (λ b. Held X b t))
            Anywhere
            (assign_private_ip N E ip (some node) s)
    unfolding Step
    given_rule node a s h =
        weaken (λ t. t ≡ s) (λ _ t. Outside (X.attached a) s t × Held X a t)
          (λ _ t. Step (give a) (λ b. Held X b s) (λ b. Held X b t)) Anywhere Anywhere
          (assign_private_ip N E ip (some node))
          (λ t e.
            assign_rule X reads a (Outside (X.attached a) s) (Outside-Same (X.attached a) s)
              (λ id t u i. Outside-Others (X.attached a) id s t u i) node h t
              (subst (Outside (X.attached a) s) (sym e) (Outside-refl (X.attached a) s)))
          (λ _ t (o, held). (held, λ b ne. Held-Outside (X.attached a) b s t (apart a b ne) o))
          (λ _ _. tt) s refl

    pub listed_rule :
        (d : String) (P : S → Type 0)
        → ((s t : S) → Same X s t → P s → P t)
        → Ensures P
            (list_server_ports E d)
            (λ ps s. P s × (Left X d ps s × Attached X d ps))
            Anywhere
    listed_rule d P same s c =
        Outcome-both (λ _. P) (λ ps t. Left X d ps t × Attached X d ps) (list_server_ports E d s)
          (Outcome-intro (λ _. P) Anywhere (list_server_ports E d s)
            (λ _ e. same s (list_server_ports E d s).1 (list_server_ports-Quiet X d s) c) tt)
          (list_rule X d s tt)

    pub Lost-Held : (d : String) (s : S) → Cleared X d s → ¬ Held X d s
    Lost-Held d s c (q, at, al) = ground (arith, c q at, al)

    taken_keeps :
        (node : Node) (d : String) (s : S)
        → get_server_id E node.provider_id ≡ ok d
        → Outcome (λ _. Outside (X.attached d) s) Anywhere (release_private_ip N E ip (some node) s)
    unfolding release_private_ip
    taken_keeps node d s h = rw h (
        bind_rule Anywhere P (λ ps t. P t × (Left X d ps t × Attached X d ps)) (λ _. P)
          (list_server_ports E d) _ (listed_rule d P same)
          (λ ps t (o, (l, at)).
            bind_rule Anywhere P (λ _. P) (λ _. P) (release_ports N E false ip d ps) _
              (release_ports_keeps X d P same others false ps at) ending t o)
          s (Outside-refl (X.attached d) s))
      where
        P : S → Type 0
        P = Outside (X.attached d) s

        same : (t u : S) → Same X t u → P t → P u
        same = Outside-Same (X.attached d) s

        others : (id : String) (t u : S) → X.attached d id ≡ true → Others X id t u → P t → P u
        others id t u i = Outside-Others (X.attached d) id s t u i

        ending :
            (found : Bool) (t : S)
            → P t
            → Outcome (λ _. P) Anywhere ((if found then pure tt else raise non_existing_ip) t)
        ending true t o = o
        ending false t o = tt

    pub taken_rule :
        (node : Node) (d : String) (s : S)
        → get_server_id E node.provider_id ≡ ok d
        → Outcome
            (λ _ t. Step (take d) (λ b. Held X b s) (λ b. Held X b t))
            Anywhere
            (release_private_ip N E ip (some node) s)
    unfolding Step
    taken_rule node d s h =
        Outcome-weaken (λ _ t. Cleared X d t × Outside (X.attached d) s t)
          (λ _ t. Step (take d) (λ b. Held X b s) (λ b. Held X b t)) Anywhere Anywhere
          (release_private_ip N E ip (some node) s)
          (Outcome-both (λ _. Cleared X d) (λ _. Outside (X.attached d) s)
            (release_private_ip N E ip (some node) s) (release_rule X d node h s tt)
            (taken_keeps node d s h))
          (λ _ t (c, o).
            (Lost-Held d t c, λ b ne. Held-Outside (X.attached d) b s t (apart d b ne) o))
          (λ _ _. tt)
