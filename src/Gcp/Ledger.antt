-- ===== src/Gcp/Ledger.antt =====
-- GCP as an implementation of the ledger of the instances that have an address.
use cloud_network_config_con.Base.{
  String, List, [], ◌∷◌, ◌++◌, Option, some, true, false, not, contains, ◌≡◌, ◌≢◌, ◌↔◌, refl, sym,
  ◌∙◌, ap, subst, arith,
}
use cloud_network_config_con.Effect.{ok, already_existing_ip, non_existing_ip, lift}
use cloud_network_config_con.Effect.Success.{Gives, gives, Gives-bind, Gives-lift, Gives-guard}
use cloud_network_config_con.Cloud.{Net, Node}
use cloud_network_config_con.Cloud.Ledger.{
  Op, give, take, pass, Step, Request, assign, release, move, perform, Asks, IsAllowed,
}
use cloud_network_config_con.Gcp.{
  Interface, Compute, first_interface, get_instance, update, with_alias, without_alias,
  assign_private_ip, release_private_ip,
}
use cloud_network_config_con.Gcp.Urls.{Location, split_gcp_node}
use cloud_network_config_con.Gcp.Aliases.{keep_aliases, has_alias, is_covered, fate}
use cloud_network_config_con.Gcp.Provider.{provider}
use cloud_network_config_con.Gcp.Store.{Store, is_sent, IsPrompt, sent_lem}

module _ (N : Net) {S : Type 0} {G : Compute S} (X : Store G) (ip : Option N.Addr) where
  -- The instance has an alias that reads as the address.
  abbrev pub HasAddress : Location → S → Type 0
  HasAddress l s = has_alias N ip (X.aliases l s) ≡ true

  module _ (a : N.Addr) (reads : N.parse_ip (N.ip_string ip) ≡ some a)
      (same : N.ip_equal (some a) ip ≡ true) where
    -- The address that is added reads as the address, and none that is kept does.
    added_lem : (rs : List String) → has_alias N ip (rs ++ (N.ip_string ip ∷ [])) ≡ true
    unfolding has_alias fate
    added_lem [] = rw (reads, same) refl
    added_lem (r ∷ rs) = ground (arith, added_lem rs)

  kept_lem : (rs : List String) → has_alias N ip (keep_aliases N ip rs) ≡ false
  unfolding has_alias keep_aliases
  kept_lem [] = refl
  kept_lem (r ∷ rs) = ground (arith, kept_lem rs)

  same_aliases :
      (b : Location) (s u : S) → X.aliases b u ≡ X.aliases b s → HasAddress b s ↔ HasAddress b u
  same_aliases b s u e = (λ h. ap (has_alias N ip) e ∙ h, λ h. ap (has_alias N ip) (sym e) ∙ h)

  -- What an assignment sends has an alias, and what a release sends is forced.
  added_is_sent : (n : Interface) → is_sent (with_alias N G ip n) ≡ true
  added_is_sent n = some_sent n.alias_ip_ranges
    where
      some_sent :
          (rs : List String)
          → is_sent (record n { alias_ip_ranges = rs ++ (N.ip_string ip ∷ []) }) ≡ true
      some_sent [] = refl
      some_sent (r ∷ rs) = refl

  kept_is_sent : (n : Interface) → is_sent (without_alias N G ip n) ≡ true
  kept_is_sent n =
      forced (keep_aliases N ip n.alias_ip_ranges) (n.force_send_fields ++ ("AliasIpRanges" ∷ []))
        (last_listed n.force_send_fields)
    where
      last_listed :
          (fs : List String) → contains (fs ++ ("AliasIpRanges" ∷ [])) "AliasIpRanges" ≡ true
      last_listed [] = refl
      last_listed (f ∷ fs) = ground (arith, last_listed fs)

      forced :
          (rs fs : List String)
          → contains fs "AliasIpRanges" ≡ true
          → is_sent (record n { alias_ip_ranges = rs; force_send_fields = fs }) ≡ true
      forced [] fs h = h
      forced (r ∷ rs) fs h = refl

  -- An assignment that succeeds.
  given_lem :
      (node : Node) (l : Location) (s u : S)
      → split_gcp_node G.parse_url node ≡ ok l
      → IsPrompt X
      → Gives (assign_private_ip N G ip node) s tt u
      → (X.aliases l u ≡ X.aliases l s ++ (N.ip_string ip ∷ []))
        × ((b : Location) → b ≢ l → X.aliases b u ≡ X.aliases b s)
  unfolding assign_private_ip
  given_lem node l s u at prompt h =
      let ((m, i), t, g, k) = Gives-bind (get_instance N G node) _ s tt u h in
      let (n, v, f, o) = Gives-bind (lift (first_interface i)) _ t tt u k in
      let (first, w) = Gives-lift (first_interface i) t n v f in
      let (free, sent) =
        Gives-guard (is_covered N ip n.alias_ip_ranges) already_existing_ip
          (update N G m i (with_alias N G ip n)) v tt u o in
      let (stored, others, ranges) =
        sent_lem N X prompt node l m i n (with_alias N G ip n) s t u at g first refl
          (added_is_sent n)
          (subst (λ x. Gives (update N G m i (with_alias N G ip n)) x tt u) w sent) in
      (stored ∙ ap (λ r. r ++ (N.ip_string ip ∷ [])) ranges, others)

  -- A release that succeeds.
  taken_lem :
      (node : Node) (l : Location) (s u : S)
      → split_gcp_node G.parse_url node ≡ ok l
      → IsPrompt X
      → Gives (release_private_ip N G ip node) s tt u
      → (X.aliases l u ≡ keep_aliases N ip (X.aliases l s))
        × ((b : Location) → b ≢ l → X.aliases b u ≡ X.aliases b s)
  unfolding release_private_ip
  taken_lem node l s u at prompt h =
      let ((m, i), t, g, k) = Gives-bind (get_instance N G node) _ s tt u h in
      let (n, v, f, o) = Gives-bind (lift (first_interface i)) _ t tt u k in
      let (first, w) = Gives-lift (first_interface i) t n v f in
      let (found, sent) =
        Gives-guard (not (has_alias N ip n.alias_ip_ranges)) non_existing_ip
          (update N G m i (without_alias N G ip n)) v tt u o in
      let (stored, others, ranges) =
        sent_lem N X prompt node l m i n (without_alias N G ip n) s t u at g first refl
          (kept_is_sent n)
          (subst (λ x. Gives (update N G m i (without_alias N G ip n)) x tt u) w sent) in
      (stored ∙ ap (keep_aliases N ip) ranges, others)

  module _ (a : N.Addr) (reads : N.parse_ip (N.ip_string ip) ≡ some a)
      (same : N.ip_equal (some a) ip ≡ true) where
    -- Where the compute API stores aliases as `Store` says, where a wait that returns without an
    -- error returns a finished operation, and where the address reads back as itself: a call of the GCP provider that is allowed and succeeds makes the step that it is asked for on
    -- the instances which have the address.
    pub perform-Step :
        (r : Request) (o : Op Location) (s : S)
        → IsPrompt X
        → IsAllowed (provider N G) r
        → Asks (λ node l. split_gcp_node G.parse_url node ≡ ok l) r o
        → (perform (provider N G) ip r s).0 ≡ ok tt
        → Step o (λ l. HasAddress l s) (λ l. HasAddress l (perform (provider N G) ip r s).1)
    unfolding perform Asks IsAllowed Step
    perform-Step (assign node) (give l) s prompt allowed at e =
        let (u, g) = gives (assign_private_ip N G ip node) s tt e in
        let (stored, others) = given_lem node l s u at prompt g in
        subst (λ x. Step (give l) (λ b. HasAddress b s) (λ b. HasAddress b x))
          (sym (ap (λ x. x.1) g))
          (
            ap (has_alias N ip) stored ∙ added_lem a reads same (X.aliases l s),
            λ b ne. same_aliases b s u (others b ne),
          )
    perform-Step (release node) (take l) s prompt allowed at e =
        let (u, g) = gives (release_private_ip N G ip node) s tt e in
        let (stored, others) = taken_lem node l s u at prompt g in
        subst (λ x. Step (take l) (λ b. HasAddress b s) (λ b. HasAddress b x))
          (sym (ap (λ x. x.1) g))
          (
            λ h. cc (ap (has_alias N ip) stored ∙ kept_lem (X.aliases l s)),
            λ b ne. same_aliases b s u (others b ne),
          )
    perform-Step (move to_add to_del) o s prompt allowed at e = cc
    perform-Step (assign node) (take d) s prompt allowed h e = elim h [ ]
    perform-Step (assign node) (pass a' d) s prompt allowed h e = elim h [ ]
    perform-Step (release node) (give a') s prompt allowed h e = elim h [ ]
    perform-Step (release node) (pass a' d) s prompt allowed h e = elim h [ ]
