-- ===== src/Secrets/Ttl.antt =====
-- ParseTTL of internal/utils/duration.go. A time.Duration is an int64 of nanoseconds; it stands
-- here as its 64 bits, so it is positive when it lies between 1 and 2 ^ 63 - 1.
use knxvault.Prelude.{
  ℕ, ◌*◌, ◌%◌, ◌^◌, Bool, ◌&&◌, not, Option, none, some, [], ◌∷◌, Text, ltb, ◌==◌, length,
  if◌then◌else◌,
}
use knxvault.Secrets.Paths.{trim_space}
pub mod Bounds
pub mod Wrap

abbrev pub word : ℕ
word = 2 ^ 64

abbrev pub sign : ℕ
sign = 2 ^ 63

-- d > 0 for a signed word.
abbrev pub is_positive : ℕ → Bool
is_positive d = ltb 0 d && ltb d sign

abbrev pub second : ℕ
second = 1000000000

abbrev pub minute : ℕ
minute = 60 * second

abbrev pub hour : ℕ
hour = 60 * minute

abbrev pub day : ℕ
day = 24 * hour

-- MaxParseTTL
abbrev pub max_parse_ttl : ℕ
max_parse_ttl = 10 * 365 * day

pub data TtlError : Type 0 where
  required invalid must_be_positive unsupported_unit exceeds_maximum : TtlError

pub data TtlResult : Type 0 where
  ttl : ℕ → TtlResult
  bad : TtlError → TtlResult

-- raw[:len(raw)-1] and raw[len(raw)-1], for a text that is not empty.
unfoldable pub but_last : Text → Text
but_last [] = []
but_last (c ∷ []) = []
but_last (c ∷ d ∷ s) = c ∷ but_last (d ∷ s)

unfoldable pub last_byte : Text → ℕ
last_byte [] = 0
last_byte (c ∷ []) = c
last_byte (c ∷ d ∷ s) = last_byte (d ∷ s)

-- The number of nanoseconds of a unit.
unfoldable pub unit_of : ℕ → Option ℕ
unit_of u =
    if u == b'd'
    then some day
    else if u == b'h'
    then some hour
    else if u == b'm'
    then some minute
    else if u == b's'
    then some second
    else none

-- The tests at the end.
unfoldable pub in_range : ℕ → TtlResult
in_range d =
    if not (is_positive d)
    then bad must_be_positive
    else if ltb max_parse_ttl d
    then bad exceeds_maximum
    else ttl d

-- time.ParseDuration and strconv.Atoi: a signed word, or no number.
pub record Numbers : Type 0 where
  pub parse_duration : Text → Option ℕ
  pub atoi : Text → Option ℕ

-- The branch that reads a number and a unit: the product is an int64, so it wraps around.
unfoldable pub with_unit : Option ℕ → ℕ → TtlResult
unfolding unit_of in_range
with_unit none u = bad invalid
with_unit (some value) u =
    if not (is_positive value) then bad must_be_positive else elim (unit_of u) [
      | none ↦ bad unsupported_unit
      | some nanoseconds ↦ in_range (value * nanoseconds % word)
    ]

unfoldable pub parse_trimmed : Numbers → Text → TtlResult
unfolding with_unit
parse_trimmed lib raw = if length raw == 0 then bad required else elim (lib.parse_duration raw) [
  | some parsed ↦ in_range parsed
  | none ↦
      if ltb (length raw) 2
      then bad invalid
      else with_unit (lib.atoi (but_last raw)) (last_byte raw)
]

-- ParseTTL
unfoldable pub parse_ttl : Numbers → Text → TtlResult
unfolding parse_trimmed
parse_ttl lib raw = parse_trimmed lib (trim_space raw)
