-- ===== src/Gcp/Store.antt =====
-- A compute API that stores aliases, and what `getInstance` and an update do on it.
use cloud_network_config_con.Base.{
  String, List, [], ◌∷◌, Option, none, some, Bool, true, false, ◌||◌, contains, ◌≡◌, ◌≢◌, refl, sym,
  ◌∙◌, ap, subst,
}
use cloud_network_config_con.Effect.{Result, ok, err, panic, lift}
use cloud_network_config_con.Effect.Success.{Gives, Gives-bind, Gives-lift, Gives-pure_world}
use cloud_network_config_con.Cloud.{Net, Node}
use cloud_network_config_con.Gcp.{
  Interface, Instance, Compute, first_interface, operation_error, get_instance, wait_for_completion,
  update,
}
use cloud_network_config_con.Gcp.Urls.{Location, split_gcp_node}

abbrev is_not_empty : List String → Bool
is_not_empty [] = false
is_not_empty (r ∷ rs) = true

-- Whether the aliases are in what is sent: the client leaves an empty list out, unless the field is
-- named in `ForceSendFields`.
abbrev pub is_sent : Interface → Bool
is_sent n = is_not_empty n.alias_ip_ranges || contains n.force_send_fields "AliasIpRanges"

-- What is assumed of the compute API: an instance that is read has the name that was asked for, and
-- its first interface the name and the aliases that are stored; a read changes none of them; and an
-- update of the first interface whose operation is finished without an error has stored the aliases,
-- where they were in what was sent, and left all other instances as they were. A wait may return
-- without an error before its operation is finished.
pub record Store {S : Type 0} (G : Compute S) : Type 0 where
  pub interface_name : Location → S → String
  pub aliases : Location → S → List String
  pub is_done : Location → String → S → Bool
  pub reads :
      (l : Location) (i : Instance) (n : Interface) (s t : S)
      → Gives (G.get_instance l.project l.zone l.instance) s i t
      → first_interface i ≡ ok n
      → (i.name ≡ l.instance)
        × (n.name ≡ interface_name l t)
        × (n.alias_ip_ranges ≡ aliases l t)
        × ((m : Location) → aliases m t ≡ aliases m s)
  pub stores :
      (l : Location) (n : Interface) (operation : String) (s t u : S)
      → n.name ≡ interface_name l s
      → is_sent n ≡ true
      → Gives (G.update_network_interface l.project l.zone l.instance n.name n) s operation t
      → Gives (G.wait l.project l.zone operation) t none u
      → is_done l operation u ≡ true
      → (aliases l u ≡ n.alias_ip_ranges) × ((m : Location) → m ≢ l → aliases m u ≡ aliases m s)

-- Every wait that returns without an error returns a finished operation, that is, no operation takes
-- longer than the wait.
abbrev pub IsPrompt : {S : Type 0} {G : Compute S} → Store G → Type 0
IsPrompt {S} {G} X =
    (l : Location) (operation : String) (t u : S)
    → Gives (G.wait l.project l.zone operation) t none u
    → X.is_done l operation u ≡ true

module _ (N : Net) {S : Type 0} {G : Compute S} (X : Store G) (prompt : IsPrompt X) where
  operation_lem : (l : Location) (e : Option (Result String)) → operation_error e ≡ ok tt → e ≡ none
  operation_lem l none h = refl
  operation_lem l (some (ok x)) h = cc
  operation_lem l (some (err x)) h = cc
  operation_lem l (some panic) h = cc

  -- An update that succeeds stores the aliases that it sends.
  update_lem :
      (l : Location) (i : Instance) (n : Interface) (s u : S)
      → i.name ≡ l.instance
      → n.name ≡ X.interface_name l s
      → is_sent n ≡ true
      → Gives (update N G l i n) s tt u
      → (X.aliases l u ≡ n.alias_ip_ranges)
        × ((m : Location) → m ≢ l → X.aliases m u ≡ X.aliases m s)
  unfolding update wait_for_completion
  update_lem l i n s u e f forced h =
      let sent = G.update_network_interface l.project l.zone in
      let (operation, t, g, k) = Gives-bind (sent i.name n.name n) _ s tt u h in
      let (outcome, v, w, o) = Gives-bind (G.wait l.project l.zone operation) _ t tt u k in
      let (a, b) = Gives-lift (operation_error outcome) v tt u o in
      let waited =
        subst (λ x. Gives (G.wait l.project l.zone operation) t x u) (operation_lem l outcome a)
          (subst (λ x. Gives (G.wait l.project l.zone operation) t outcome x) (sym b) w) in
      X.stores l n operation s t u f forced (subst (λ x. Gives (sent x n.name n) s operation t) e g)
        waited (prompt l operation t u waited)

  -- What `get_instance` reads, and that it changes nothing.
  get_lem :
      (node : Node) (l m : Location) (i : Instance) (n : Interface) (s t : S)
      → split_gcp_node G.parse_url node ≡ ok l
      → Gives (get_instance N G node) s (m, i) t
      → first_interface i ≡ ok n
      → (m ≡ l)
        × (i.name ≡ l.instance)
        × (n.name ≡ X.interface_name l t)
        × (n.alias_ip_ranges ≡ X.aliases l t)
        × ((b : Location) → X.aliases b t ≡ X.aliases b s)
  unfolding get_instance
  get_lem node l m i n s t at h first =
      let (k, s1, g1, h1) = Gives-bind (lift (split_gcp_node G.parse_url node)) _ s (m, i) t h in
      let (j, s2, g2, h2) =
        Gives-bind (G.get_instance k.project k.zone k.instance) _ s1 (m, i) t h1 in
      let (a, b) = Gives-lift (split_gcp_node G.parse_url node) s k s1 g1 in
      let (c, d) = Gives-pure_world (k, j) (m, i) s2 t h2 in
      let kl : k ≡ l = cc in
      let q1 = subst (λ x. Gives (G.get_instance x.project x.zone x.instance) s1 j s2) kl g2 in
      let q2 = subst (λ x. Gives (G.get_instance l.project l.zone l.instance) x j s2) b q1 in
      let q3 =
        subst (λ x. Gives (G.get_instance l.project l.zone l.instance) s x s2) (ap (λ x. x.1) c)
          q2 in
      let q4 = subst (λ x. Gives (G.get_instance l.project l.zone l.instance) s i x) d q3 in
      let r = X.reads l i n s t q4 first in (sym (ap (λ x. x.0) c) ∙ kl, r.0, r.1, r.2, r.3)

  -- After the instance has been read, an update of its first interface that succeeds stores what it
  -- sends for the instance of the node.
  pub sent_lem :
      (node : Node) (l m : Location) (i : Instance) (n sent : Interface) (s t u : S)
      → split_gcp_node G.parse_url node ≡ ok l
      → Gives (get_instance N G node) s (m, i) t
      → first_interface i ≡ ok n
      → sent.name ≡ n.name
      → is_sent sent ≡ true
      → Gives (update N G m i sent) t tt u
      → (X.aliases l u ≡ sent.alias_ip_ranges)
        × ((b : Location) → b ≢ l → X.aliases b u ≡ X.aliases b s)
        × (n.alias_ip_ranges ≡ X.aliases l s)
  sent_lem node l m i n sent s t u at g first name forced h =
      let (place, host, nic, ranges, quiet) = get_lem node l m i n s t at g first in
      let (stored, others) =
        update_lem l i sent t u host (name ∙ nic) forced
          (subst (λ x. Gives (update N G x i sent) t tt u) place h) in
      (stored, λ b ne. others b ne ∙ quiet b, ranges ∙ quiet l)
