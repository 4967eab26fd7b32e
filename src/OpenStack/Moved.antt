-- ===== src/OpenStack/Moved.antt =====
-- What a success of an assignment and of a move on OpenStack means.
use cloud_network_config_con.Base.{
  String, [], Option, some, true, false, ◌≡◌, ◌∙◌, string_eq, arith,
}
use cloud_network_config_con.Effect.{ok}
use cloud_network_config_con.Effect.Ensures.{Ensures, Anywhere, bind_rule, outcome_of_ok}
use cloud_network_config_con.Cloud.{Net, Node}
use cloud_network_config_con.OpenStack.{Neutron, get_server_id, list_server_ports}
use cloud_network_config_con.OpenStack.Move.{unallow_ports, move_between, move_private_ip}
use cloud_network_config_con.OpenStack.Store.{Store}
use cloud_network_config_con.OpenStack.Quiet.{Same}
use cloud_network_config_con.OpenStack.Cleared.{Left, Attached, list_rule, Cleared, Left-Cleared}
use cloud_network_config_con.OpenStack.Released.{unallow_ports_rule}
use cloud_network_config_con.OpenStack.Others.{Others}
use cloud_network_config_con.OpenStack.Kept.{add_rule, assign_rule}
use cloud_network_config_con.OpenStack.Assign.{assign_private_ip}
use cloud_network_config_con.OpenStack.Held.{Held}

module _ {N : Net} {S : Type 0} {E : Neutron S} {ip : Option N.Addr} (X : Store N E ip)
    (reads : N.ip_equal ip (N.parse_ip (N.ip_string ip)) ≡ true) where
  -- Where Neutron stores ports as `Store` says, and where the address reads back as itself: after an
  -- assignment that succeeds, some port of the server that the node names allows the address.
  pub assign_private_ip-Held :
      (node : Node) (server : String) (s : S)
      → get_server_id E node.provider_id ≡ ok server
      → (assign_private_ip N E ip (some node) s).0 ≡ ok tt
      → Held X server (assign_private_ip N E ip (some node) s).1
  assign_private_ip-Held node server s h e =
      (outcome_of_ok (λ t. Anywhere t × Held X server t) (assign_private_ip N E ip (some node) s) tt
        (assign_rule X reads server Anywhere (λ s t k p. tt) (λ id s t k l p. tt) node h s tt) e).1

  module _ (to_add to_del : Node) (a d : String)
      (apart : (q : String) → X.attached d q ≡ true → X.attached a q ≡ false) where
    -- An update of a port of one server leaves the ports of the other one clear.
    pub Cleared-Others :
        (id : String) (s t : S)
        → X.attached a id ≡ true
        → Others X id s t
        → Cleared X d s
        → Cleared X d t
    unfolding Others
    Cleared-Others id s t h o c q at = o q (λ e. ground (arith, apart q at, h, e)) ∙ c q at

    pub Cleared-Same : (s t : S) → Same X s t → Cleared X d s → Cleared X d t
    unfolding Same
    Cleared-Same s t h c q at = h q ∙ c q at

    move_rule :
        get_server_id E to_del.provider_id ≡ ok d
        → get_server_id E to_add.provider_id ≡ ok a
        → Ensures Anywhere
            (move_private_ip N E ip (some to_add) (some to_del))
            (λ _ s. Cleared X d s × Held X a s)
            Anywhere
    unfolding move_private_ip move_between
    move_rule h k = rw h (
        bind_rule Anywhere Anywhere (λ ps s. Left X d ps s × Attached X d ps) Moved
          (list_server_ports E d) _ (list_rule X d)
          (λ ps s (l, _).
            bind_rule Anywhere (Left X d ps) (λ _. Left X d []) Moved (unallow_ports N E ip ps) _
              (unallow_ports_rule X d ps)
              (λ _ t left.
                add_rule X reads a (Cleared X d) Cleared-Same Cleared-Others to_add k t
                  (Left-Cleared X d t left))
              s l))
      where
        Moved : Unit {0} → S → Type 0
        Moved _ s = Cleared X d s × Held X a s

    -- Where Neutron stores ports as `Store` says, where the address reads back as itself, and where the
    -- two nodes' servers share no port: after a move that succeeds, no port of the server to delete from
    -- allows the address, and some port of the server to add to does.
    pub move_private_ip-Moved :
        (s : S)
        → get_server_id E to_del.provider_id ≡ ok d
        → get_server_id E to_add.provider_id ≡ ok a
        → (move_private_ip N E ip (some to_add) (some to_del) s).0 ≡ ok tt
        → Cleared X d (move_private_ip N E ip (some to_add) (some to_del) s).1
          × Held X a (move_private_ip N E ip (some to_add) (some to_del) s).1
    move_private_ip-Moved s h k e =
        outcome_of_ok (λ t. Cleared X d t × Held X a t)
          (move_private_ip N E ip (some to_add) (some to_del) s) tt (move_rule h k s tt) e
