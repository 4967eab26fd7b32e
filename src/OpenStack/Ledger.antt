-- ===== src/OpenStack/Ledger.antt =====
-- OpenStack as an implementation of what a provider promises.
use cloud_network_config_con.Base.{
  String, [], Option, some, Bool, true, false, ◌≡◌, ◌≢◌, sym, ◌||◌, string_eq, arith,
}
use cloud_network_config_con.Effect.{ok}
use cloud_network_config_con.Effect.Ensures.{
  Outcome, Outcome-both, Outcome-weaken, Anywhere, bind_rule, outcome_of_ok,
}
use cloud_network_config_con.Cloud.{Net, Node}
use cloud_network_config_con.Cloud.Ledger.{
  Op, give, take, pass, Step, Request, assign, release, move, perform, Asks,
}
use cloud_network_config_con.OpenStack.{Neutron, get_server_id, list_server_ports}
use cloud_network_config_con.OpenStack.Assign.{assign_private_ip}
use cloud_network_config_con.OpenStack.Release.{release_private_ip}
use cloud_network_config_con.OpenStack.Move.{unallow_ports, move_between, move_private_ip}
use cloud_network_config_con.OpenStack.Provider.{provider}
use cloud_network_config_con.OpenStack.Store.{Store}
use cloud_network_config_con.OpenStack.Quiet.{Same}
use cloud_network_config_con.OpenStack.Cleared.{Left, Attached, Cleared, Left-Cleared}
use cloud_network_config_con.OpenStack.Released.{unallow_ports_rule}
use cloud_network_config_con.OpenStack.Others.{Others}
use cloud_network_config_con.OpenStack.Held.{Held}
use cloud_network_config_con.OpenStack.Kept.{add_rule}
use cloud_network_config_con.OpenStack.Untouched.{unallow_ports_keeps}
use cloud_network_config_con.OpenStack.Moved.{Cleared-Same, Cleared-Others}
use cloud_network_config_con.OpenStack.Outside.{
  Outside, Outside-Same, Outside-Others, Outside-refl, Held-Outside, apart, given_rule, listed_rule,
  Lost-Held, taken_rule,
}

module _ {N : Net} {S : Type 0} {E : Neutron S} {ip : Option N.Addr} (X : Store N E ip)
    (reads : N.ip_equal ip (N.parse_ip (N.ip_string ip)) ≡ true)
    (exclusive : (q a b : String) → X.attached a q ≡ true → X.attached b q ≡ true → a ≡ b) where
  module _ (to_add to_del : Node) (a d : String) (ne : a ≢ d) (s : S) where
    inside : String → Bool
    inside q = X.attached a q || X.attached d q

    -- The ports of the two servers are looked at together.
    passed_keeps :
        get_server_id E to_add.provider_id ≡ ok a
        → get_server_id E to_del.provider_id ≡ ok d
        → Outcome
            (λ _ t. (Cleared X d t × Outside X inside s t) × Held X a t)
            Anywhere
            (move_private_ip N E ip (some to_add) (some to_del) s)
    unfolding move_private_ip move_between inside
    passed_keeps k h = rw h (
        bind_rule Anywhere P (λ ps t. P t × (Left X d ps t × Attached X d ps)) Added'
          (list_server_ports E d) _ (listed_rule X reads exclusive d P same)
          (λ ps t (o, (l, at)).
            bind_rule Anywhere (λ u. Left X d ps u × P u) (λ _ u. Left X d [] u × P u) Added'
              (unallow_ports N E ip ps) _
              (λ u (l, o).
                Outcome-both (λ _. Left X d []) (λ _. P) (unallow_ports N E ip ps u)
                  (unallow_ports_rule X d ps u l) (unallow_ports_keeps X d P same others ps at u o))
              (λ _ u (l, o).
                add_rule X reads a (λ v. Cleared X d v × P v)
                  (λ v w e (c, o).
                    (Cleared-Same X reads to_add to_del a d disjoint v w e c, same v w e o))
                  (λ id v w i e (c, o). (
                    Cleared-Others X reads to_add to_del a d disjoint id v w i e c,
                    Outside-Others X inside id s v w (ground (arith, i)) e o,
                  ))
                  to_add k u (Left-Cleared X d u l, o))
              t (l, o))
          s (Outside-refl X inside s))
      where
        P : S → Type 0
        P = Outside X inside s

        Added' : Unit {0} → S → Type 0
        Added' _ t = (Cleared X d t × Outside X inside s t) × Held X a t

        disjoint : (q : String) → X.attached d q ≡ true → X.attached a q ≡ false
        disjoint = apart X reads exclusive a d (λ e. ne (sym e))

        same : (t u : S) → Same X t u → P t → P u
        same = Outside-Same X inside s

        others : (id : String) (t u : S) → X.attached d id ≡ true → Others X id t u → P t → P u
        others id t u i = Outside-Others X inside id s t u (ground (arith, i))

    passed_rule :
        get_server_id E to_add.provider_id ≡ ok a
        → get_server_id E to_del.provider_id ≡ ok d
        → Outcome
            (λ _ t. Step (pass a d) (λ b. Held X b s) (λ b. Held X b t))
            Anywhere
            (move_private_ip N E ip (some to_add) (some to_del) s)
    unfolding Step inside
    passed_rule k h =
        Outcome-weaken (λ _ t. (Cleared X d t × Outside X inside s t) × Held X a t)
          (λ _ t. Step (pass a d) (λ b. Held X b s) (λ b. Held X b t)) Anywhere Anywhere
          (move_private_ip N E ip (some to_add) (some to_del) s) (passed_keeps k h)
          (λ _ t ((c, o), held). (
            held,
            Lost-Held X reads exclusive d t c,
            λ b na nd.
                Held-Outside X inside b s t
                  (λ q at. ground (
                    arith,
                    apart X reads exclusive a b na q at,
                    apart X reads exclusive d b nd q at,
                  ))
                  o,
          ))
          (λ _ _. tt)

  -- Where Neutron stores ports as `Store` says, where the address reads back as itself, and where a
  -- port belongs to one server at most: a call of the OpenStack provider that succeeds makes the step
  -- that it is asked for on the servers which have the address.
  pub provider-Step :
      (r : Request) (o : Op String) (s : S)
      → Asks (λ node server. get_server_id E node.provider_id ≡ ok server) r o
      → (perform (provider N E) ip r s).0 ≡ ok tt
      → Step o (λ b. Held X b s) (λ b. Held X b (perform (provider N E) ip r s).1)
  unfolding perform Asks
  provider-Step (assign node) (give a) s h e =
      outcome_of_ok (λ t. Step (give a) (λ b. Held X b s) (λ b. Held X b t))
        (assign_private_ip N E ip (some node) s) tt (given_rule X reads exclusive node a s h) e
  provider-Step (release node) (take d) s h e =
      outcome_of_ok (λ t. Step (take d) (λ b. Held X b s) (λ b. Held X b t))
        (release_private_ip N E ip (some node) s) tt (taken_rule X reads exclusive node d s h) e
  provider-Step (move to_add to_del) (pass a d) s (k, h, ne) e =
      outcome_of_ok (λ t. Step (pass a d) (λ b. Held X b s) (λ b. Held X b t))
        (move_private_ip N E ip (some to_add) (some to_del) s) tt
        (passed_rule to_add to_del a d ne s k h) e
  provider-Step (assign node) (take d) s h e = elim h [ ]
  provider-Step (assign node) (pass a d) s h e = elim h [ ]
  provider-Step (release node) (give a) s h e = elim h [ ]
  provider-Step (release node) (pass a d) s h e = elim h [ ]
  provider-Step (move to_add to_del) (give a) s h e = elim h [ ]
  provider-Step (move to_add to_del) (take d) s h e = elim h [ ]
