-- ===== src/Auth/Policy/Patterns.antt =====
-- What the patterns of a policy match.
use mathlib.Core.List.{append_assoc}
use knxvault.Prelude.{
  ℕ, ◌≡◌, ◌↔◌, ◌⊎◌, inl, inr, ◌∙◌, refl, true, false, ◌||◌, [], ◌∷◌, ◌++◌, Text, has_prefix,
  has_suffix, contains_byte, contains_any, has_prefix-append, append_of-has_prefix,
  has_suffix-append, trim_suffix-append, arith, Bool-cases,
}
use knxvault.Auth.Glob.{star, question, slash}
use knxvault.Auth.Glob.Literal.{IsPlain}
use knxvault.Auth.Policy.{match_all, slash_star, under, match_resource}

contains_byte-append :
    (s t : Text) (b : ℕ) → contains_byte (s ++ t) b ≡ (contains_byte s b || contains_byte t b)
unfolding contains_byte
contains_byte-append [] t b = refl
contains_byte-append (c ∷ s) t b = ground (arith, contains_byte-append s t b)

IsPlain-star : (s : Text) → IsPlain s → contains_byte s star ≡ false
unfolding contains_byte
IsPlain-star [] h = refl
IsPlain-star (c ∷ s) h = ground (arith, IsPlain-star s)

IsPlain-question : (s : Text) → IsPlain s → contains_byte s question ≡ false
unfolding contains_byte
IsPlain-question [] h = refl
IsPlain-question (c ∷ s) h = ground (arith, IsPlain-question s)

IsPlain-any : (s : Text) → IsPlain s → contains_any s star question ≡ false
unfolding contains_any
IsPlain-any [] h = refl
IsPlain-any (c ∷ s) h = ground (arith, IsPlain-any s)

IsPlain-has_suffix : (s : Text) → IsPlain s → has_suffix s slash_star ≡ false
unfolding has_suffix
IsPlain-has_suffix [] h = ground arith
IsPlain-has_suffix (c ∷ []) h = ground arith
IsPlain-has_suffix (c ∷ d ∷ s) h = ground (arith, IsPlain-has_suffix (d ∷ s))

match_all-plain : (s : Text) → IsPlain s → match_all s ≡ false
match_all-plain [] h = ground arith
match_all-plain (c ∷ s) h = ground arith

match_all-base : (s : Text) → IsPlain s → match_all (s ++ slash_star) ≡ false
match_all-base [] h = ground arith
match_all-base (c ∷ s) h = ground arith

-- `under` is the path itself or a path below it.
pub under_iff :
    (prefix resource : Text)
    → (under prefix resource ≡ true)
      ↔ ((resource ≡ prefix) ⊎ ((rest : Text) × (resource ≡ prefix ++ slash ∷ rest)))
unfolding under
under_iff prefix resource = (
  λ h. elim (Bool-cases (has_prefix resource (prefix ++ slash ∷ []))) [
    | inl e ↦
        let (rest, split) = append_of-has_prefix resource (prefix ++ slash ∷ []) e in
        inr (rest, split ∙ append_assoc prefix (slash ∷ []) rest)
    | inr e ↦ inl (ground arith)
  ],
  elim [
    | inl e ↦ ground arith
    | inr (rest, split) ↦
        let e : has_prefix resource (prefix ++ slash ∷ []) ≡ true =
          rw (split, ← append_assoc prefix (slash ∷ []) rest)
            (has_prefix-append (prefix ++ slash ∷ []) rest) in
        ground arith
  ],
)

-- A pattern with no wildcard matches itself and nothing else.
pub match_resource-plain :
    (pattern resource : Text)
    → IsPlain pattern
    → (match_resource pattern resource ≡ true) ↔ (pattern ≡ resource)
unfolding match_resource
match_resource-plain pattern resource h =
    ground (arith, match_all-plain pattern, IsPlain-has_suffix pattern, IsPlain-any pattern)

match_resource-under :
    (base resource : Text)
    → IsPlain base
    → match_resource (base ++ slash_star) resource ≡ under base resource
unfolding match_resource contains_byte
match_resource-under base resource h = ground (
  arith,
  match_all-base base,
  has_suffix-append base slash_star,
  trim_suffix-append base slash (star ∷ []),
  IsPlain-star base,
  IsPlain-question base,
  contains_byte-append base slash_star question,
)

-- A path with `/*` behind it matches the path itself and every path below it, at any depth.
pub match_resource-below :
    (base resource : Text)
    → IsPlain base
    → (match_resource (base ++ slash_star) resource ≡ true)
      ↔ ((resource ≡ base) ⊎ ((rest : Text) × (resource ≡ base ++ slash ∷ rest)))
match_resource-below base resource h =
    rw (match_resource-under base resource h) (under_iff base resource)
