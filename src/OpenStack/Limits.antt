-- ===== src/OpenStack/Limits.antt =====
-- The bounds of the ceilings on a port's addresses.
use native.Mathlib.Nat.{pow-le-pow_right}
use cloud_network_config_con.Base.{
  ℕ, ◌-◌, ◌+◌, ◌^◌, ◌≤◌, ◌<◌, false, leb, ◌≡◌, refl, ap, sym, subst, ◌⊎◌, ◌↔◌, arith, Bool-cases,
  inl, inr,
}
use cloud_network_config_con.Base.Int.{ℤ, pos, negsuc, sub_ℕ, min_ℤ, ◌≤ℤ◌}
use cloud_network_config_con.OpenStack.Egress.{addresses_of, ceiling}

-- What the ceiling is, from the number of addresses that the range has.
abbrev Bounded : ℤ → Type 0 → Type 0 → Type 0
Bounded z full some_left = (z ≤ℤ pos 64) × ((z ≡ pos 64) ↔ full) × ((pos 0 ≤ℤ z) ↔ some_left)

many_lem : (v : ℕ) → 66 ≤ v → min_ℤ (pos 64) (sub_ℕ v 2) ≡ pos 64
many_lem v h = ground arith

few_lem : (v : ℕ) → 2 ≤ v → v ≤ 65 → min_ℤ (pos 64) (sub_ℕ v 2) ≡ pos (v - 2)
few_lem v h k = ground arith

-- The powers at the bounds.
power_lem :
    (d : ℕ)
    → ((d ≡ 0) → 2 ^ d ≡ 1)
      × ((1 ≤ d) → 2 ≤ 2 ^ d)
      × ((d ≤ 6) → 2 ^ d ≤ 64)
      × ((7 ≤ d) → 128 ≤ 2 ^ d)
power_lem d = (
  λ h. ap (λ n. 2 ^ n) h,
  λ h. pow-le-pow_right two h,
  λ h. pow-le-pow_right two h,
  λ h. pow-le-pow_right two h,
)
  where
    two : 0 < 2
    two = ground arith

value_many : (bits prefix : ℕ) → prefix + 7 ≤ bits → ceiling bits prefix ≡ pos 64
unfolding ceiling addresses_of
value_many bits prefix h = elim (Bool-cases (leb prefix bits)) [
  | inl k ↦ rw k (
      many_lem (2 ^ (bits - prefix)) (ground (arith, (power_lem (bits - prefix)).3 (ground arith))))
  | inr k ↦ ground (arith, h, k)
]

value_few :
    (bits prefix : ℕ)
    → prefix < bits
    → bits < prefix + 7
    → ceiling bits prefix ≡ pos (2 ^ (bits - prefix) - 2)
unfolding ceiling addresses_of
value_few bits prefix h l = elim (Bool-cases (leb prefix bits)) [
  | inl k ↦ rw k (
      few_lem (2 ^ (bits - prefix)) ((power_lem (bits - prefix)).1 (ground arith))
        (ground (arith, (power_lem (bits - prefix)).2 (ground arith))))
  | inr k ↦ ground (arith, h, k)
]

value_none :
    (bits prefix : ℕ)
    → bits ≤ prefix
    → (ceiling bits prefix ≡ negsuc 0) ⊎ (ceiling bits prefix ≡ negsuc 1)
unfolding ceiling addresses_of
value_none bits prefix h = elim (Bool-cases (leb prefix bits)) [
  | inl k ↦ inl (rw (k, (power_lem (bits - prefix)).0 (ground arith)) refl)
  | inr k ↦ elim (Bool-cases (leb (prefix - bits) 52)) [
    | inl f ↦ inl (rw (k, f) refl)
    | inr f ↦ inr (rw (k, f) refl)
  ]
]

-- The ceiling of a range is at most 64, and it is 64 just for a prefix that leaves seven bits or more.
-- It is at least 0 just for a prefix that leaves a bit, hence not for a single address.
pub ceiling-bounds :
    (bits prefix : ℕ)
    → (ceiling bits prefix ≤ℤ pos 64)
      × ((ceiling bits prefix ≡ pos 64) ↔ (prefix + 7 ≤ bits))
      × ((pos 0 ≤ℤ ceiling bits prefix) ↔ (prefix < bits))
ceiling-bounds bits prefix = elim (Bool-cases (leb (prefix + 7) bits)) [
  | inl h ↦ of_value (pos 64) (value_many bits prefix (ground arith)) (ground arith)
  | inr h ↦ elim (Bool-cases (leb bits prefix)) [
    | inl k ↦ elim (value_none bits prefix (ground arith)) [
      | inl e ↦ of_value (negsuc 0) e (ground arith)
      | inr e ↦ of_value (negsuc 1) e (ground arith)
    ]
    | inr k ↦
        of_value (pos (2 ^ (bits - prefix) - 2))
          (value_few bits prefix (ground arith) (ground arith))
          (few_left (2 ^ (bits - prefix)) ((power_lem (bits - prefix)).1 (ground arith))
            ((power_lem (bits - prefix)).2 (ground arith)) h k)
  ]
]
  where
    few_left :
        (v : ℕ)
        → 2 ≤ v
        → v ≤ 64
        → leb (prefix + 7) bits ≡ false
        → leb bits prefix ≡ false
        → Bounded (pos (v - 2)) (prefix + 7 ≤ bits) (prefix < bits)
    few_left v a b h k = ground arith

    of_value :
        (v : ℤ)
        → ceiling bits prefix ≡ v
        → Bounded v (prefix + 7 ≤ bits) (prefix < bits)
        → Bounded (ceiling bits prefix) (prefix + 7 ≤ bits) (prefix < bits)
    of_value v e h = subst (λ z. Bounded z (prefix + 7 ≤ bits) (prefix < bits)) (sym e) h
