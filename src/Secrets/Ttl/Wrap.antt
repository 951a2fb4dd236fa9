-- ===== src/Secrets/Ttl/Wrap.antt =====
-- Numbers of days whose nanoseconds do not fit an int64.
use knxvault.Prelude.{
  ℕ, ◌+◌, ◌*◌, ◌%◌, ◌^◌, ◌≤◌, ◌<◌, ◌≡◌, sym, ap, ◌∙◌, none, some, Text, arith, length,
}
use knxvault.Secrets.Paths.{trim_space}
use knxvault.Secrets.Ttl.{
  word, sign, day, max_parse_ttl, Numbers, but_last, last_byte, in_range, with_unit, parse_trimmed,
  parse_ttl,
}

-- A text that is a number of days, which Atoi reads and ParseDuration does not.
abbrev pub CountsDays : Numbers → Text → ℕ → Type 0
CountsDays lib raw v =
    (2 ≤ length (trim_space raw))
    × (last_byte (trim_space raw) ≡ b'd')
    × (lib.parse_duration (trim_space raw) ≡ none)
    × (lib.atoi (but_last (trim_space raw)) ≡ some v)

-- The nanoseconds of 2 ^ 48 days are a multiple of 2 ^ 64.
days-wrap : (v k : ℕ) → (v + k * 2 ^ 48) * day % word ≡ v * day % word
days-wrap v k = omega arith

parse_ttl-days :
    (lib : Numbers) (raw : Text) (v : ℕ)
    → CountsDays lib raw v
    → 0 < v
    → v < sign
    → parse_ttl lib raw ≡ in_range (v * day % word)
unfolding parse_ttl parse_trimmed with_unit
parse_ttl-days lib raw v h p s = ground arith

-- Two texts are numbers of days that Atoi reads and ParseDuration does not, positive and below 2 ^
-- 63, and the second counts a positive multiple of 2 ^ 48 days more. They get the same answer from
-- ParseTTL, although the second lifetime is over the maximum: where the first is accepted, so is
-- the second, with the lifetime of the first.
pub parse_ttl-wraps :
    (lib : Numbers) (raw longer : Text) (v k : ℕ)
    → CountsDays lib raw v
    → CountsDays lib longer (v + k * 2 ^ 48)
    → 0 < v
    → 0 < k
    → v + k * 2 ^ 48 < sign
    → (parse_ttl lib longer ≡ parse_ttl lib raw) × (max_parse_ttl < (v + k * 2 ^ 48) * day)
parse_ttl-wraps lib raw longer v k a b p q s = (
  parse_ttl-days lib longer (v + k * 2 ^ 48) b (omega arith) s
      ∙ ap in_range (days-wrap v k)
      ∙ sym (parse_ttl-days lib raw v a p (omega arith)),
  omega arith,
)
