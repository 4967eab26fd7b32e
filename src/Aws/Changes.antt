-- ===== src/Aws/Changes.antt =====
-- What a success of an assignment and of a release on AWS means.
use cloud_network_config_con.Base.{
  String, List, [], ◌∷◌, Option, Bool, true, false, any, contains, ◌≡◌, sym, ◌∙◌, ap, subst, arith,
}
use cloud_network_config_con.Effect.{ok, M, lift}
use cloud_network_config_con.Effect.Ensures.{Ensures, Anywhere, outcome_of_ok, anything, bind_rule}
use cloud_network_config_con.Effect.Success.{Gives, gives, Gives-bind, Gives-lift}
use cloud_network_config_con.Cloud.{Net, Node}
use cloud_network_config_con.Aws.{
  Interface, Instance, Ec2, first_interface, matching, has_address, addresses, get_instance,
  wait_for_completion, assign_new, assign_call, unassign_call, assign_private_ip, release_all,
  release_private_ip,
}
use cloud_network_config_con.Aws.Waiting.{Verdict, LastRead, waited}

-- `polls` is what `wait.PollImmediate` promises: it succeeds only with a run of the condition that
-- gave true, after which it does nothing.
module _ (N : Net) {S : Type 0} (E : Ec2 S)
    (polls : (m : M S Bool) (s : S)
      → (E.poll_immediate m s).0 ≡ ok tt
      → (u : S) × (m u ≡ (ok true, (E.poll_immediate m s).1))) where
  assigned_lem :
      (ip : Option N.Addr) (node : Node)
      → Ensures Anywhere
          (assign_private_ip N E ip node)
          (λ _ t.
            LastRead N E polls node (N.ip_string ip) (Verdict N (N.ip_string ip ∷ []) false) t)
          Anywhere
  unfolding assign_private_ip assign_new
  assigned_lem ip node =
      bind_rule Anywhere Anywhere (λ _. Anywhere) Q (get_instance N E node) _
        (anything (get_instance N E node))
        (λ i.
          bind_rule Anywhere Anywhere (λ _. Anywhere) Q (lift (first_interface i)) _
            (anything (lift (first_interface i)))
            (λ n.
              bind_rule Anywhere Anywhere (λ _. Anywhere) Q
                (lift (has_address N ip (addresses N (N.is_ipv6 ip) n))) _ (anything _)
                (λ exists. new n exists)))
    where
      Q : Unit {0} → S → Type 0
      Q _ t = LastRead N E polls node (N.ip_string ip) (Verdict N (N.ip_string ip ∷ []) false) t

      new :
          (n : Interface) (exists : Bool)
          → Ensures Anywhere (assign_new N E ip node n exists) Q Anywhere
      new n true s p = tt
      new n false s p =
          bind_rule Anywhere Anywhere (λ _. Anywhere) Q
            (assign_call N E (N.is_ipv6 ip) n.network_interface_id (N.ip_string ip ∷ [])) _
            (anything (assign_call N E (N.is_ipv6 ip) n.network_interface_id (N.ip_string ip ∷ [])))
            (λ _ t q. waited N E polls node (N.ip_string ip) [] false t) s p

  -- With a poll that succeeds only after a run of its condition that gave true: when AWS reports
  -- that an address is assigned, the last thing that happened is a read of the node's instance
  -- whose first interface listed the address in the family of its text.
  pub assign_private_ip-LastRead :
      (ip : Option N.Addr) (node : Node) (s : S)
      → (assign_private_ip N E ip node s).0 ≡ ok tt
      → LastRead N E polls node
          (N.ip_string ip)
          (λ texts. contains texts (N.ip_string ip) ≡ true)
          (assign_private_ip N E ip node s).1
  assign_private_ip-LastRead ip node s h =
      only (outcome_of_ok _ (assign_private_ip N E ip node s) tt (assigned_lem ip node s tt) h)
    where
      only :
          {t : S}
          → LastRead N E polls node (N.ip_string ip) (Verdict N (N.ip_string ip ∷ []) false) t
          → LastRead N E polls node
              (N.ip_string ip)
              (λ texts. contains texts (N.ip_string ip) ≡ true)
              t
      only r = record {
        before = r.before;
        instance = r.instance;
        read = r.read;
        reading = record {
          interface = r.reading.interface;
          first = r.reading.first;
          texts = r.reading.texts;
          listed = r.reading.listed;
          verdict = ground (arith, r.reading.verdict);
        };
      }

  -- What a release has found on the instance that it read first, what it asked for, and what it no
  -- longer found in the end.
  pub record Released (ip : Option N.Addr) (node : Node) (s t : S) : Type 0 where
    pub first_read : Instance
    pub after_read : S
    pub read : get_instance N E node s ≡ (ok first_read, after_read)
    pub interface : Interface
    pub first : first_interface first_read ≡ ok interface
    pub sample : String
    pub others : List String
    pub found : matching N ip (addresses N (N.is_ipv6 ip) interface) ≡ ok (sample ∷ others)
    pub after_call : S
    pub unassigned :
        unassign_call N E (N.is_ipv6 ip) interface.network_interface_id (sample ∷ others) after_read
        ≡ (ok tt, after_call)
    pub cleared :
        LastRead N E polls node sample (λ texts. any (contains texts) (sample ∷ others) ≡ false) t

  cleared_lem :
      {node : Node} {s : String} {t : S} (ss : List String)
      → LastRead N E polls node s (Verdict N (s ∷ ss) true) t
      → LastRead N E polls node s (λ texts. any (contains texts) (s ∷ ss) ≡ false) t
  cleared_lem ss r = record {
    before = r.before;
    instance = r.instance;
    read = r.read;
    reading = record {
      interface = r.reading.interface;
      first = r.reading.first;
      texts = r.reading.texts;
      listed = r.reading.listed;
      verdict = ground (arith, r.reading.verdict);
    };
  }

  cleared_in_end :
      (node : Node) (x : String) (xs : List String) (t u : S)
      → Gives (wait_for_completion N E node (x ∷ xs) true) t tt u
      → LastRead N E polls node x (λ texts. any (contains texts) (x ∷ xs) ≡ false) u
  cleared_in_end node x xs t u h = cleared_lem xs (
      subst (LastRead N E polls node x (Verdict N (x ∷ xs) true)) (ap (λ o. o.1) h) (
        outcome_of_ok (LastRead N E polls node x (Verdict N (x ∷ xs) true))
          (wait_for_completion N E node (x ∷ xs) true t) tt (waited N E polls node x xs true t)
          (ap (λ o. o.0) h)))

  -- What follows the read of the instance and of its texts of the address.
  found_lem :
      (ip : Option N.Addr) (node : Node) (i : Instance) (n : Interface) (ips : List String)
      (s t u : S)
      → get_instance N E node s ≡ (ok i, t)
      → first_interface i ≡ ok n
      → matching N ip (addresses N (N.is_ipv6 ip) n) ≡ ok ips
      → Gives (release_all N E ip node n ips) t tt u
      → Released ip node s u
  unfolding release_all
  found_lem ip node i n [] s t u g f m h = cc
  found_lem ip node i n (x ∷ xs) s t u g f m h =
      let (_, v, call, wait) =
        Gives-bind (unassign_call N E (N.is_ipv6 ip) n.network_interface_id (x ∷ xs)) _ t tt u h in
      record {
        first_read = i;
        after_read = t;
        read = g;
        interface = n;
        first = f;
        sample = x;
        others = xs;
        found = m;
        after_call = v;
        unassigned = call;
        cleared = cleared_in_end node x xs v u wait;
      }

  released_lem :
      (ip : Option N.Addr) (node : Node) (s u : S)
      → Gives (release_private_ip N E ip node) s tt u
      → Released ip node s u
  unfolding release_private_ip
  released_lem ip node s u h =
      let (i, t, g, k) = Gives-bind (get_instance N E node) _ s tt u h in
      let (n, v, f, o) = Gives-bind (lift (first_interface i)) _ t tt u k in
      let (first, vt) = Gives-lift (first_interface i) t n v f in
      let (ips, w, q, r) =
        Gives-bind (lift (matching N ip (addresses N (N.is_ipv6 ip) n))) _ v tt u o in
      let (found, wv) = Gives-lift (matching N ip (addresses N (N.is_ipv6 ip) n)) v ips w q in
      found_lem ip node i n ips s t u g first found
        (subst (λ x. Gives (release_all N E ip node n ips) x tt u) (wv ∙ vt) r)

  -- With a poll that succeeds only after a run of its condition that gave true: when AWS reports
  -- that an address is released, the instance of the node was read first, with texts of the address
  -- in its family on its first interface; a call unassigned exactly these texts from this interface;
  -- and the last thing that happened is a read of the node's instance whose first interface lists
  -- none of these texts any more.
  pub release_private_ip-Released :
      (ip : Option N.Addr) (node : Node) (s : S)
      → (release_private_ip N E ip node s).0 ≡ ok tt
      → Released ip node s (release_private_ip N E ip node s).1
  release_private_ip-Released ip node s h =
      let (u, g) = gives (release_private_ip N E ip node) s tt h in
      subst (Released ip node s) (sym (ap (λ x. x.1) g)) (released_lem ip node s u g)
