-- ===== src/OpenStack/Usage.antt =====
-- The addresses counted on a port, when one more pair is allowed on it.
use cloud_network_config_con.Base.{
  ℕ, suc, String, List, [], ◌∷◌, ◌++◌, Option, Bool, true, false, not, ◌||◌, ◌==◌, string_eq,
  contains, length, any-append, if◌then◌else◌, ◌≡◌, refl, ap, ◌∙◌, arith, eq_iff, Bool-cases, inl,
  inr,
}
use cloud_network_config_con.Cloud.{Net}
use cloud_network_config_con.OpenStack.{Port, AddressPair}
use cloud_network_config_con.OpenStack.Pairs.{with_pair}
use cloud_network_config_con.OpenStack.Egress.{
  add_text, add_address, add_addresses, fixed_texts, pair_texts, get_ips_on_port,
}

module _ (N : Net) where
  abbrev listed : List String × List String → String → Bool
  listed used t = if N.is_ipv4 (N.parse_ip t) then contains used.0 t else contains used.1 t

  -- One place of the family of the address is used.
  abbrev pub one_more : Bool → ℕ × ℕ → ℕ × ℕ
  one_more v4 (m, n) = if v4 then (suc m, n) else (m, suc n)

  -- The texts of a port's addresses.
  abbrev pub port_texts : Port → List String
  port_texts p = fixed_texts N p.fixed_ips ++ pair_texts N p.allowed_address_pairs

  contains-add_text :
      (keys : List String) (a t : String)
      → contains (add_text keys a) t ≡ (contains keys t || a == t)
  unfolding add_text
  contains-add_text keys a t = elim (Bool-cases (contains keys a)) [
    | inl h ↦ rw h (ground (arith, eq_iff a t, h))
    | inr h ↦ rw h (ground arith)
  ]

  differ_lem :
      (a t : String) (b : Bool)
      → N.is_ipv4 (N.parse_ip a) ≡ b
      → N.is_ipv4 (N.parse_ip t) ≡ not b
      → (a == t) ≡ false
  differ_lem a t b h k = elim (Bool-cases (a == t)) [
    | inl e ↦ ground (arith, ap (λ x. N.is_ipv4 (N.parse_ip x)) ((eq_iff a t).0 e), h, k)
    | inr e ↦ e
  ]

  listed_lem :
      (used : List String × List String) (a t : String)
      → listed (add_address N used a) t ≡ (listed used t || a == t)
  unfolding add_address
  listed_lem (v4, v6) a t = elim (Bool-cases (N.is_ipv4 (N.parse_ip t))) [
    | inl k ↦ elim (Bool-cases (N.is_ipv4 (N.parse_ip a))) [
      | inl h ↦ rw (h, k) (contains-add_text v4 a t)
      | inr h ↦ rw (h, k) (ground (arith, differ_lem a t false h k))
    ]
    | inr k ↦ elim (Bool-cases (N.is_ipv4 (N.parse_ip a))) [
      | inl h ↦ rw (h, k) (ground (arith, differ_lem a t true h k))
      | inr h ↦ rw (h, k) (contains-add_text v6 a t)
    ]
  ]

  listed_all :
      (used : List String × List String) (xs : List String) (t : String)
      → listed (add_addresses N used xs) t ≡ (listed used t || contains xs t)
  unfolding add_addresses
  listed_all used [] t = ground arith
  listed_all used (a ∷ xs) t =
      ground (arith, listed_all (add_address N used a) xs t, listed_lem used a t)

  append_lem :
      (used : List String × List String) (xs ys : List String)
      → add_addresses N used (xs ++ ys) ≡ add_addresses N (add_addresses N used xs) ys
  unfolding add_addresses
  append_lem used [] ys = refl
  append_lem used (x ∷ xs) ys = append_lem (add_address N used x) xs ys

  texts_lem :
      (ip : Option N.Addr) (ps : List AddressPair)
      → pair_texts N (with_pair N ip ps) ≡ pair_texts N ps ++ (N.ip_string ip ∷ [])
  texts_lem ip [] = refl
  texts_lem ip (p ∷ ps) = ap (λ xs. p.ip_address ∷ xs) (texts_lem ip ps)

  abbrev counts : List String × List String → ℕ × ℕ
  counts used = (length used.0, length used.1)

  counts_lem :
      (used : List String × List String) (t : String)
      → counts (add_address N used t)
        ≡ (if listed used t then counts used else one_more (N.is_ipv4 (N.parse_ip t)) (counts used))
  unfolding add_address add_text
  counts_lem (v4, v6) t = elim (Bool-cases (N.is_ipv4 (N.parse_ip t))) [
    | inl h ↦ rw h (elim (Bool-cases (contains v4 t)) [ inl k ↦ rw k refl | inr k ↦ rw k refl ])
    | inr h ↦ rw h (elim (Bool-cases (contains v6 t)) [ inl k ↦ rw k refl | inr k ↦ rw k refl ])
  ]

  -- Where the text of an address is on a port already, allowing the address leaves the counts of the
  -- port; else it adds one to the count of its family.
  pub get_ips_on_port-with_pair :
      (p : Port) (ip : Option N.Addr)
      → get_ips_on_port N
          (record p { allowed_address_pairs = with_pair N ip p.allowed_address_pairs })
        ≡ (if contains (port_texts p) (N.ip_string ip)
            then get_ips_on_port N p
            else one_more (N.is_ipv4 (N.parse_ip (N.ip_string ip))) (get_ips_on_port N p))
  unfolding get_ips_on_port add_addresses
  get_ips_on_port-with_pair p ip =
      rw
        (
          texts_lem ip p.allowed_address_pairs,
          append_lem fixed (pair_texts N p.allowed_address_pairs) (N.ip_string ip ∷ []),
        )
        (counts_lem used (N.ip_string ip)
          ∙ ap
              (λ b.
                if b
                then counts used
                else one_more (N.is_ipv4 (N.parse_ip (N.ip_string ip))) (counts used))
              present)
    where
      fixed : List String × List String
      fixed = add_addresses N ([], []) (fixed_texts N p.fixed_ips)

      used : List String × List String
      used = add_addresses N fixed (pair_texts N p.allowed_address_pairs)

      present : listed used (N.ip_string ip) ≡ contains (port_texts p) (N.ip_string ip)
      present = ground (
        arith,
        listed_all fixed (pair_texts N p.allowed_address_pairs) (N.ip_string ip),
        listed_all ([], []) (fixed_texts N p.fixed_ips) (N.ip_string ip),
        any-append (λ x. x == N.ip_string ip) (fixed_texts N p.fixed_ips)
            (pair_texts N p.allowed_address_pairs),
      )
