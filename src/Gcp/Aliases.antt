-- ===== src/Gcp/Aliases.antt =====
-- The loops over the alias ranges of an interface in `AssignPrivateIP` and `ReleasePrivateIP`.
use cloud_network_config_con.Base.{
  String, List, [], ◌∷◌, ◌++◌, Option, none, some, Bool, true, false, ◌||◌, any, all, if◌then◌else◌,
  ◌≡◌, refl, arith, ap,
}
use cloud_network_config_con.Cloud.{Net}

-- What a release does with an alias: keep it, drop it as the address, or drop it as unreadable.
pub data Fate : Type 0 where
  keeps ours unreadable : Fate

abbrev is_kept : Fate → Bool
is_kept keeps = true
is_kept _ = false

abbrev is_ours : Fate → Bool
is_ours ours = true
is_ours _ = false

module _ (N : Net) where
  abbrev in_subnet : Option N.Addr → Option (N.Addr × N.Subnet) → Bool
  in_subnet ip none = false
  in_subnet ip (some (_, subnet)) = N.subnet_contains subnet ip

  -- Whether an assignment takes the alias for one that covers the address.
  abbrev pub covers : Option N.Addr → String → Bool
  covers ip range = N.ip_equal (N.parse_ip range) ip || in_subnet ip (N.parse_cidr range)

  unfoldable pub is_covered : Option N.Addr → List String → Bool
  is_covered ip ranges = any (covers ip) ranges

  abbrev by_equal : Bool → Fate
  by_equal true = ours
  by_equal false = keeps

  abbrev cidr_fate : Option N.Addr → Option (N.Addr × N.Subnet) → Fate
  cidr_fate ip none = unreadable
  cidr_fate ip (some (a, _)) = by_equal (N.ip_equal (some a) ip)

  abbrev fate_or : Option N.Addr → Fate → Option N.Addr → Fate
  fate_or ip other none = other
  fate_or ip other (some a) = by_equal (N.ip_equal (some a) ip)

  unfoldable pub fate : Option N.Addr → String → Fate
  fate ip range = fate_or ip (cidr_fate ip (N.parse_cidr range)) (N.parse_ip range)

  -- `keepAliases` and `ipAssigned`
  unfoldable pub keep_aliases : Option N.Addr → List String → List String
  keep_aliases ip [] = []
  keep_aliases ip (r ∷ rs) =
      let rest = keep_aliases ip rs in if is_kept (fate ip r) then r ∷ rest else rest

  unfoldable pub has_alias : Option N.Addr → List String → Bool
  has_alias ip ranges = any (λ r. is_ours (fate ip r)) ranges

  -- A range that the package `net` reads as an address or as a range.
  abbrev pub reads : Option N.Addr → Option (N.Addr × N.Subnet) → Bool
  reads none none = false
  reads _ _ = true

  abbrev pub is_readable : String → Bool
  is_readable range = reads (N.parse_ip range) (N.parse_cidr range)

  -- `within` says that a range contains the address that it is written with.
  module _ (ip : Option N.Addr)
      (within : (r : String) (a : N.Addr) (n : N.Subnet)
        → N.parse_cidr r ≡ some (a, n)
        → N.ip_equal (some a) ip ≡ true
        → N.subnet_contains n ip ≡ true) where
    uncovered_kept : (r : String) → is_readable r ≡ true → covers ip r ≡ false → fate ip r ≡ keeps
    unfolding fate
    uncovered_kept r h k = by_cases (N.parse_ip r) (N.parse_cidr r) refl refl h k
      where
        by_cases :
            (o : Option N.Addr) (c : Option (N.Addr × N.Subnet))
            → N.parse_ip r ≡ o
            → N.parse_cidr r ≡ c
            → reads o c ≡ true
            → (N.ip_equal o ip || in_subnet ip c) ≡ false
            → fate_or ip (cidr_fate ip c) o ≡ keeps
        by_cases (some a) c p q h k = ground arith
        by_cases none none p q h k = cc
        by_cases none (some (a, n)) p q h k = ground (arith, within r a n q)

    kept_all :
        (rs : List String)
        → all is_readable rs ≡ true
        → is_covered ip rs ≡ false
        → (keep_aliases ip (rs ++ (N.ip_string ip ∷ []))
            ≡ rs ++ keep_aliases ip (N.ip_string ip ∷ []))
          × (has_alias ip (rs ++ (N.ip_string ip ∷ [])) ≡ has_alias ip (N.ip_string ip ∷ []))
    unfolding is_covered keep_aliases has_alias
    kept_all [] h k = (refl, refl)
    kept_all (r ∷ rs) h k = ground (arith, kept_all rs, uncovered_kept r)

    -- A release undoes an assignment: where the aliases of an interface are readable and none
    -- covers the address, the list with the printed address appended has it and is cut back to the
    -- former list, provided that the printed address reads back as one equal to it, and that a
    -- range contains the address that it is written with.
    pub keep_aliases-assigned :
        (a : N.Addr) (rs : List String)
        → N.parse_ip (N.ip_string ip) ≡ some a
        → N.ip_equal (some a) ip ≡ true
        → all is_readable rs ≡ true
        → is_covered ip rs ≡ false
        → (has_alias ip (rs ++ (N.ip_string ip ∷ [])) ≡ true)
          × (keep_aliases ip (rs ++ (N.ip_string ip ∷ [])) ≡ rs)
    unfolding keep_aliases has_alias fate
    keep_aliases-assigned a rs p e h k =
        (rw ((kept_all rs h k).1, p, e) refl, rw ((kept_all rs h k).0, p, e) (append_nil rs))
      where
        append_nil : (xs : List String) → xs ++ [] ≡ xs
        append_nil [] = refl
        append_nil (x ∷ xs) = ap (λ l. x ∷ l) (append_nil xs)
