-- ===== src/Secrets/Ttl/Bounds.antt =====
-- What ParseTTL returns lies in its range.
use knxvault.Prelude.{
  ℕ, ◌≤◌, ◌<◌, ◌≡◌, inl, inr, Option, none, some, Text, arith, Bool-cases, Option-cases, ltb,
  length, ◌==◌,
}
use knxvault.Secrets.Paths.{trim_space}
use knxvault.Secrets.Ttl.{
  is_positive, max_parse_ttl, ttl, Numbers, but_last, last_byte, unit_of, in_range, with_unit,
  parse_trimmed, parse_ttl,
}

in_range-bounds : (d r : ℕ) → in_range d ≡ ttl r → (0 < r) × (r ≤ max_parse_ttl)
unfolding in_range
in_range-bounds d r h = ground arith

with_unit-bounds :
    (value : Option ℕ) (u r : ℕ) → with_unit value u ≡ ttl r → (0 < r) × (r ≤ max_parse_ttl)
unfolding with_unit
with_unit-bounds none u r h = absurd (cc)
with_unit-bounds (some v) u r h = elim (Bool-cases (is_positive v)) [
  | inr e ↦ absurd (ground arith)
  | inl e ↦ elim (Option-cases (unit_of u)) [
    | inl f ↦ absurd (ground arith)
    | inr (n, f) ↦ ground arith
  ]
]

parse_trimmed-bounds :
    (lib : Numbers) (raw : Text) (r : ℕ)
    → parse_trimmed lib raw ≡ ttl r
    → (0 < r) × (r ≤ max_parse_ttl)
unfolding parse_trimmed
parse_trimmed-bounds lib raw r h = elim (Bool-cases (length raw == 0)) [
  | inl e ↦ absurd (ground arith)
  | inr e ↦ elim (Option-cases (lib.parse_duration raw)) [
    | inr (d, f) ↦ in_range-bounds d r (ground arith)
    | inl f ↦ elim (Bool-cases (ltb (length raw) 2)) [
      | inl g ↦ absurd (ground arith)
      | inr g ↦ with_unit-bounds (lib.atoi (but_last raw)) (last_byte raw) r (ground arith)
    ]
  ]
]

-- A duration that ParseTTL returns is positive and at most ten years.
pub parse_ttl-bounds :
    (lib : Numbers) (raw : Text) (r : ℕ) → parse_ttl lib raw ≡ ttl r → (0 < r) × (r ≤ max_parse_ttl)
unfolding parse_ttl
parse_ttl-bounds lib raw r h = parse_trimmed-bounds lib (trim_space raw) r h
