-- ===== src/Tests/SimNeutron.antt =====
-- A small Neutron with one port for each of two servers, whose worlds are the pairs of each port.
use cloud_network_config_con.Base.{
  ◌⊎◌, String, List, [], ◌∷◌, ◌++◌, Option, some, Bool, true, false, ◌||◌, ◌==◌, string_eq, ◌≡◌,
  ◌≢◌, refl, sym, ap, subst, ◌∙◌, inl, inr, any, arith, eq_iff, Bool-cases, beq_refl, if◌then◌else◌,
}
use cloud_network_config_con.Effect.{Result, ok, err, panic}
use cloud_network_config_con.Effect.Retry.{last}
use cloud_network_config_con.OpenStack.{Port, AddressPair, Subnet, Neutron, all_pages, pairs_allow}
use cloud_network_config_con.OpenStack.Store.{Store, shows, owned_ports, owned_pages}
use cloud_network_config_con.Tests.Sim.{text_net}

abbrev pub World : Type 0
World = String → List AddressPair

abbrev pub address : Option String
address = some "10.0.0.5"

abbrev pub ports_of : String → List String
ports_of server = if server == "u1" then "p1" ∷ [] else (if server == "u2" then "p2" ∷ [] else [])

abbrev pub port : String → World → Port
port id s = record {
  id = id;
  network_id = "net";
  device_owner = "compute:nova";
  device_id = "";
  fixed_ips = [];
  allowed_address_pairs = s id;
  revision_number = 0;
}

abbrev pub ports_from : List String → World → List Port
ports_from [] s = []
ports_from (id ∷ ids) s = port id s ∷ ports_from ids s

abbrev written : String → List AddressPair → World → World
written id pairs s q = if q == id then pairs else s q

abbrev pub subnet : Subnet
subnet = record { id = "sub"; network_id = "net"; cidr = "10.0.0.5" }

abbrev pub neutron : Neutron World
neutron = record {
  is_uuid = λ _. true;
  error_text = λ _. "";
  list_ports = λ opts s. (ok (ok (ports_from (ports_of opts.device_id) s) ∷ []), s);
  list_subnets = λ n s. (ok (ok (subnet ∷ []) ∷ []), s);
  create_port = λ opts s. (ok (port "reserved" s), s);
  delete_port = λ id s. (ok tt, s);
  get_port = λ id s. (ok (port id s), s);
  update_port = λ id opts s. (
    ok (port id (written id opts.allowed_address_pairs s)),
    written id opts.allowed_address_pairs s,
  );
  retry_on_conflict = λ m s. m s;
}

abbrev attached : String → String → Bool
attached server q = any (λ p. p == q) (ports_of server)

abbrev allows : World → String → Bool
allows s q = pairs_allow text_net address (s q)

abbrev value : {A : Type 0} → A → Result A → A
value a (ok b) = b
value a (err e) = a
value a panic = a

pub shown :
    (ids : List String) (s : World) (q : String)
    → any (λ p. p == q) ids ≡ true
    → allows s q ≡ true
    → shows text_net address (ports_from ids s ++ []) q ≡ true
shown [] s q h k = cc
shown (p ∷ ids) s q h k = elim (Bool-cases (p == q)) [
  | inl e ↦ rw (e, subst (λ x. allows s x ≡ true) (sym ((eq_iff p q).0 e)) k) refl
  | inr e ↦ rw e (shown ids s q (ground (arith, h, e)) k)
]

pub known :
    (ids : List String) (s : World) (q : String)
    → any (λ p. p.id == q) (ports_from ids s ++ []) ≡ any (λ p. p == q) ids
known [] s q = refl
known (p ∷ ids) s q = ap (λ b. p == q || b) (known ids s q)

pub pages_lem :
    (ids : List String) (s : World) {pages : List (Result (List Port))} {ps : List Port}
    → ok (ok (ports_from ids s) ∷ []) ≡ ok pages
    → all_pages pages ≡ ok ps
    → ports_from ids s ++ [] ≡ ps
pages_lem ids s {pages} {ps} h k = ap (value []) (ap all_pages (ap (value []) h) ∙ k)

pub owned_lem :
    (ids : List String) (s : World) → owned_ports (λ id. "compute:nova") (ports_from ids s) ≡ true
owned_lem [] s = refl
owned_lem (p ∷ ids) s = owned_lem ids s

pub ne_lem : (id q : String) → q ≢ id → (q == id) ≡ false
ne_lem id q ne = ground (arith, eq_iff q id)

abbrev pub store : Store text_net neutron address
store = record {
  attached = attached;
  allows = allows;
  retry_runs = λ call s. last s;
  list_keeps = λ opts s q. refl;
  subnets_keeps = λ n s q. refl;
  create_keeps = λ opts s q. refl;
  owner = λ id. "compute:nova";
  list_owners = λ opts s h.
      subst (λ l. owned_pages (λ id. "compute:nova") l ≡ true) (ap (value []) h)
        (rw (owned_lem (ports_of opts.device_id) s) refl);
  delete_keeps = λ id s q o. refl;
  get_keeps = λ id s q. refl;
  list_attached = λ server s h k. (
    λ q a al.
        subst (λ l. shows text_net address l q ≡ true) (pages_lem (ports_of server) s h k)
          (shown (ports_of server) s q a al),
    λ q a.
        sym (known (ports_of server) s q)
        ∙ subst (λ l. any (λ p. p.id == q) l ≡ true) (sym (pages_lem (ports_of server) s h k)) a,
  );
  get_reads = λ id s h. (
    ap (λ r. (value (port "" s) r).id) (sym h),
    ap (λ r. pairs_allow text_net address (value (port "" s) r).allowed_address_pairs) h,
  );
  update_others = λ id opts s q ne. rw (ne_lem id q ne) refl;
  update_keeps = λ id opts s h. inr (
      subst
        (λ b. pairs_allow text_net address (if b then opts.allowed_address_pairs else s id) ≡ true)
        (beq_refl id) h);
  update_writes = λ id opts s h. rw (beq_refl id) refl;
  get_errors = λ id s h. cc;
  update_errors = λ id opts s h. cc;
}

abbrev Owned : String → String → Type 0
Owned a q = ((a ≡ "u1") × (q ≡ "p1")) ⊎ ((a ≡ "u2") × (q ≡ "p2"))

owner : (a q : String) → attached a q ≡ true → Owned a q
owner a q h = by_test (a == "u1") (a == "u2") refl refl h
  where
    by_test :
        (x y : Bool)
        → (a == "u1") ≡ x
        → (a == "u2") ≡ y
        → any (λ p. p == q) (if x then "p1" ∷ [] else (if y then "p2" ∷ [] else [])) ≡ true
        → Owned a q
    by_test true y e f h = inl ((eq_iff a "u1").0 e, sym ((eq_iff "p1" q).0 (ground (arith, h))))
    by_test false true e f h =
        inr ((eq_iff a "u2").0 f, sym ((eq_iff "p2" q).0 (ground (arith, h))))
    by_test false false e f h = cc

-- A port belongs to one server at most.
pub exclusive : (q a b : String) → attached a q ≡ true → attached b q ≡ true → a ≡ b
exclusive q a b h k = by_owners (owner a q h) (owner b q k)
  where
    by_owners : Owned a q → Owned b q → a ≡ b
    by_owners (inl (e, x)) (inl (f, y)) = e ∙ sym f
    by_owners (inr (e, x)) (inr (f, y)) = e ∙ sym f
    by_owners (inl (e, x)) (inr (f, y)) = ground (arith, ap (λ s. s == "p1") (sym x ∙ y))
    by_owners (inr (e, x)) (inl (f, y)) = ground (arith, ap (λ s. s == "p1") (sym x ∙ y))
