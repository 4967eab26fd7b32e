-- ===== src/OpenStack/Kept.antt =====
-- What an assignment and the second half of a move do, beside a property that the updates of the
-- server's ports keep.
use cloud_network_config_con.Base.{String, Option, none, some, true, ◌≡◌, refl, string_eq}
use cloud_network_config_con.Effect.{GoError, ok, attempt, unless, is_already_existing_ip}
use cloud_network_config_con.Effect.Ensures.{
  Ensures, Outcome-intro, Outcome-both, Anywhere, bind_rule,
}
use cloud_network_config_con.Effect.Steps.{Steps-attempt}
use cloud_network_config_con.Cloud.{Net, Node}
use cloud_network_config_con.OpenStack.{Port, Subnet, Neutron, get_server_id}
use cloud_network_config_con.OpenStack.Pairs.{allow_on_port}
use cloud_network_config_con.OpenStack.Assign.{find_subnet_and_port}
use cloud_network_config_con.OpenStack.Move.{after_move_allow}
use cloud_network_config_con.OpenStack.Store.{Store}
use cloud_network_config_con.OpenStack.Quiet.{Same, find_subnet_and_port-Quiet}
use cloud_network_config_con.OpenStack.Placed.{Allowed, allow_rule}
use cloud_network_config_con.OpenStack.Others.{Others, allow_on_port-Others}
use cloud_network_config_con.OpenStack.Held.{Held, port_found}
use cloud_network_config_con.Effect.{M, ◌>>=◌}
use cloud_network_config_con.Effect.Ensures.{anything}
use cloud_network_config_con.Effect.Steps.{Steps}
use cloud_network_config_con.OpenStack.Reservation.{reserve}
use cloud_network_config_con.OpenStack.Assign.{release_tries, after_allow, assign_private_ip}
use cloud_network_config_con.OpenStack.Quiet.{reserve-Quiet}

module _ {N : Net} {S : Type 0} {E : Neutron S} {ip : Option N.Addr} (X : Store N E ip)
    (reads : N.ip_equal ip (N.parse_ip (N.ip_string ip)) ≡ true) (a : String) where
  module _ (P : S → Type 0) (same : (s t : S) → Same X s t → P s → P t)
      (others : (id : String) (s t : S)
        → X.attached a id ≡ true
        → Others X id s t
        → P s
        → P t) where
    abbrev Found : Subnet × Port → S → Type 0
    Found found s = P s × (X.attached a found.1.id ≡ true)

    abbrev pub Added : Unit {0} → S → Type 0
    Added _ s = P s × Held X a s

    call_rule : {A : Type 0} (m : M S A) → Steps (Same X) m → Ensures P m (λ _. P) Anywhere
    call_rule m h s c = Outcome-intro (λ _. P) Anywhere (m s) (λ _ e. same s (m s).1 (h s) c) tt

    pub find_rule :
        (node : Node)
        → get_server_id E node.provider_id ≡ ok a
        → Ensures P (find_subnet_and_port N E ip node) Found Anywhere
    find_rule node h s c =
        Outcome-both (λ _. P) (λ found t. X.attached a found.1.id ≡ true)
          (find_subnet_and_port N E ip node s)
          (call_rule (find_subnet_and_port N E ip node) (find_subnet_and_port-Quiet X node) s c)
          (port_found X node a h s tt)

    place_rule :
        (id : String)
        → X.attached a id ≡ true
        → Ensures P (attempt (allow_on_port N E id ip)) (λ e s. P s × Allowed X id e s) Anywhere
    place_rule id h s c =
        Outcome-both (λ _. P) (Allowed X id) (attempt (allow_on_port N E id ip) s)
          (Outcome-intro (λ _. P) Anywhere (attempt (allow_on_port N E id ip) s)
            (λ e _.
              others id s (attempt (allow_on_port N E id ip) s).1 h
                (Steps-attempt (Others X id) (allow_on_port N E id ip) (allow_on_port-Others X id)
                  s)
                c)
            tt)
          (allow_rule X id reads Anywhere s tt)

    after_move_rule :
        (p : Port) (e : Option GoError)
        → X.attached a p.id ≡ true
        → Ensures
            (λ s. P s × (e ≡ none → X.allows s p.id ≡ true))
            (after_move_allow N E ip p e)
            Added
            Anywhere
    unfolding after_move_allow
    after_move_rule p none h s (c, al) = (c, (p.id, h, al refl))
    after_move_rule p (some e) h s (c, al) = tt

    -- The second half of a move.
    pub add_rule :
        (node : Node)
        → get_server_id E node.provider_id ≡ ok a
        → Ensures P
            (find_subnet_and_port N E ip node >>= λ found.
              attempt (allow_on_port N E found.1.id ip) >>= λ e.
              after_move_allow N E ip found.1 (unless is_already_existing_ip e))
            Added
            Anywhere
    add_rule node h =
        bind_rule Anywhere P Found Added (find_subnet_and_port N E ip node) _ (find_rule node h)
          (λ found u (c, m).
            bind_rule Anywhere P (λ e v. P v × Allowed X found.1.id e v) Added
              (attempt (allow_on_port N E found.1.id ip)) _ (place_rule found.1.id m)
              (λ e. after_move_rule found.1 (unless is_already_existing_ip e) m) u c)

    after_rule :
        (id : String) (p unbound : Port) (e : Option GoError)
        → X.attached a p.id ≡ true
        → Ensures
            (λ s. P s × (e ≡ none → X.allows s p.id ≡ true))
            (after_allow N E ip id p unbound e)
            Added
            Anywhere
    unfolding after_allow
    after_rule id p unbound none h s (c, al) = (c, (p.id, h, al refl))
    after_rule id p unbound (some e) h s (c, al) =
        bind_rule Anywhere Anywhere (λ _. Anywhere) Added (release_tries N E 10 unbound id none) _
          (anything (release_tries N E 10 unbound id none)) (λ status t _. tt) s tt

    pub assign_rule :
        (node : Node)
        → get_server_id E node.provider_id ≡ ok a
        → Ensures P (assign_private_ip N E ip (some node)) Added Anywhere
    unfolding assign_private_ip
    assign_rule node h = rw h (
        bind_rule Anywhere P Found Added (find_subnet_and_port N E ip node) _ (find_rule node h)
          (λ found s (c, m).
            bind_rule Anywhere P (λ _. P) Added (reserve N E found.0 ip a) _
              (call_rule (reserve N E found.0 ip a) (reserve-Quiet X found.0 a))
              (λ unbound.
                bind_rule Anywhere P (λ e v. P v × Allowed X found.1.id e v) Added
                  (attempt (allow_on_port N E found.1.id ip)) _ (place_rule found.1.id m)
                  (λ e. after_rule a found.1 unbound (unless is_already_existing_ip e) m))
              s c))
