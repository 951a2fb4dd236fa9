-- ===== src/Secrets/Paths/Reserved.antt =====
-- No path below a reserved prefix passes, with white space before it or letters in upper case.
use mathlib.Core.Path.{subst}
use knxvault.Prelude.{
  ℕ, ◌≡◌, ◌≢◌, inl, inr, refl, ◌∙◌, ap, true, false, List, [], ◌∷◌, ◌++◌, Text, codes, has_prefix,
  has_prefix-append, trim_prefix, In, arith,
}
use knxvault.Secrets.Paths.{
  is_space, trim_left, drop_space, trim_right, lower_byte, to_lower, reserved_prefixes, under_any,
  normal_path, is_reserved,
}

abbrev pub AllSpace : Text → Type 0
AllSpace [] = Unit
AllSpace (c ∷ s) = (is_space c ≡ true) × AllSpace s

abbrev NoSpace : Text → Type 0
NoSpace [] = Unit
NoSpace (c ∷ s) = (is_space c ≡ false) × NoSpace s

drop_space-keep : (b : ℕ) (t : Text) → is_space b ≡ false → drop_space b t ≡ b ∷ t
drop_space-keep b [] h = rw h
drop_space-keep b (d ∷ t) h = refl

trim_right-append : (p r : Text) → NoSpace p → trim_right (p ++ r) ≡ p ++ trim_right r
unfolding trim_right
trim_right-append [] r h = refl
trim_right-append (c ∷ p) r h =
    ap (drop_space c) (trim_right-append p r h.1) ∙ drop_space-keep c (p ++ trim_right r) h.0

trim_left-spaces : (ws s : Text) → AllSpace ws → trim_left (ws ++ s) ≡ trim_left s
unfolding trim_left
trim_left-spaces [] s h = refl
trim_left-spaces (c ∷ ws) s h = rw h.0 (trim_left-spaces ws s h.1)

to_lower-append : (p r : Text) → to_lower (p ++ r) ≡ to_lower p ++ to_lower r
unfolding to_lower
to_lower-append [] r = refl
to_lower-append (c ∷ p) r = ap (◌∷◌ (lower_byte c)) (to_lower-append p r)

lower_byte-space : (c : ℕ) → is_space (lower_byte c) ≡ false → is_space c ≡ false
unfolding lower_byte is_space
lower_byte-space c h = ground arith

to_lower-NoSpace : (p : Text) → NoSpace (to_lower p) → NoSpace p
unfolding to_lower
to_lower-NoSpace [] h = tt
to_lower-NoSpace (c ∷ p) h = (lower_byte-space c h.0, to_lower-NoSpace p h.1)

-- A prefix in small letters, with no white space, that does not begin with a slash.
abbrev Clean : Text → Type 0
Clean [] = ⊥
Clean (c ∷ p) = (c ≢ b'/') × NoSpace (c ∷ p)

abbrev AllClean : List Text → Type 0
AllClean [] = Unit
AllClean (p ∷ ps) = Clean p × AllClean ps

reserved-AllClean : AllClean reserved_prefixes
unfolding is_space
reserved-AllClean = ground arith

Clean-of-In : (p : Text) (ps : List Text) → AllClean ps → In p ps → Clean p
Clean-of-In p [] a i = absurd i
Clean-of-In p (q ∷ ps) a (inl e) = subst Clean e a.0
Clean-of-In p (q ∷ ps) a (inr i) = Clean-of-In p ps a.1 i

under_any_of-In : (p r : Text) (ps : List Text) → In p ps → under_any (p ++ r) ps ≡ true
unfolding under_any
under_any_of-In p r [] i = absurd i
under_any_of-In p r (q ∷ ps) (inl e) =
    let h : has_prefix (p ++ r) q ≡ true = rw e (has_prefix-append p r) in ground arith
under_any_of-In p r (q ∷ ps) (inr i) = ground (arith, under_any_of-In p r ps i)

trim_left-append : (p r : Text) → NoSpace p → p ≢ [] → trim_left (p ++ r) ≡ p ++ r
unfolding trim_left
trim_left-append [] r h n = absurd (n refl)
trim_left-append (c ∷ p) r h n = rw h.0

trim_prefix-Clean : (p r : Text) → Clean p → trim_prefix (p ++ r) (codes "/") ≡ p ++ r
unfolding trim_prefix
trim_prefix-Clean [] r h = absurd h
trim_prefix-Clean (c ∷ p) r h = ground arith

Clean-NoSpace : (p : Text) → Clean p → NoSpace p
Clean-NoSpace [] h = absurd h
Clean-NoSpace (c ∷ p) h = h.1

Clean-ne : (p : Text) → Clean (to_lower p) → p ≢ []
unfolding to_lower
Clean-ne [] h e = h
Clean-ne (c ∷ p) h e = cc

normal_path-Clean :
    (ws p r : Text)
    → AllSpace ws
    → Clean (to_lower p)
    → normal_path (ws ++ (p ++ r)) ≡ to_lower p ++ to_lower (trim_right r)
unfolding normal_path
normal_path-Clean ws p r a c =
    let plain = to_lower-NoSpace p (Clean-NoSpace (to_lower p) c) in
    rw
      (
        trim_left-spaces ws (p ++ r) a,
        trim_left-append p r plain (Clean-ne p c),
        trim_right-append p r plain,
        to_lower-append p (trim_right r),
      )
      (trim_prefix-Clean (to_lower p) (to_lower (trim_right r)) c)

not_nil : (p r : Text) → Clean p → p ++ r ≢ []
not_nil [] r h = absurd h
not_nil (c ∷ p) r h = λ e. cc

-- A path that begins with one of the reserved prefixes, in small or capital letters, is rejected,
-- with any white space before it and whatever stands behind it.
pub is_reserved-below :
    (ws p r : Text)
    → AllSpace ws
    → In (to_lower p) reserved_prefixes
    → is_reserved (ws ++ (p ++ r)) ≡ true
unfolding is_reserved
is_reserved-below ws p r a i =
    let clean = Clean-of-In (to_lower p) reserved_prefixes reserved-AllClean i in
    let path = normal_path-Clean ws p r a clean in
    let found = under_any_of-In (to_lower p) (to_lower (trim_right r)) reserved_prefixes i in
    let some_text = not_nil (to_lower p) (to_lower (trim_right r)) clean in rw path (ground arith)
