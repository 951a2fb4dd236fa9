-- ===== src/Prelude/Strings.antt =====
-- Go strings as lists of bytes, and the functions of package strings that the program calls.
use Prim.Native.Nat.{ℕ, suc, ◌+◌}
use Prim.Native.Char.{code}
use Prim.Native.String.{String}
use mathlib.Core.Path.{◌≡◌, refl, ap, ap₂}
use mathlib.Core.Bool.{Bool, true, false, ◌&&◌, ◌||◌}
use mathlib.Core.List.{List, [], ◌∷◌, ◌++◌}
use native.Mathlib.Omega.{arith}
unfoldable use native.Mathlib.Decide.{ℕ_discrete}
use knxvault.Prelude.Tests.{◌==◌, if◌then◌else◌}

abbrev pub Text : Type 0
Text = List ℕ

abbrev pub codes : String → Text
codes String.[] = []
codes (String.◌∷◌ c s) = code c ∷ codes s

unfoldable pub Text-discrete : Discrete Text
unfolding ℕ_discrete
Text-discrete [] [] = yes refl
Text-discrete [] (y ∷ ys) = no (λ e. cc)
Text-discrete (x ∷ xs) [] = no (λ e. cc)
Text-discrete (x ∷ xs) (y ∷ ys) =
    let rest = Text-discrete xs ys in
    elim (ℕ_discrete x y) [
      | yes p ↦ elim rest [ yes q ↦ yes (ap₂ ◌∷◌ p q) | no q ↦ no (λ e. q (cc)) ]
      | no p ↦ no (λ e. p (cc))
    ]

abbrev pub length {ℓ} : {A : Type ℓ} → List A → ℕ
length [] = 0
length (x ∷ xs) = suc (length xs)

pub length-append {ℓ} : {A : Type ℓ} (xs ys : List A) → length (xs ++ ys) ≡ length xs + length ys
length-append [] ys = omega arith
length-append (x ∷ xs) ys = omega (arith, length-append xs ys)

-- The operator == on strings.
abbrev pub str_eq : Text → Text → Bool
str_eq a b = elim (Text-discrete a b) [ yes _ ↦ true | no _ ↦ false ]

-- strings.HasPrefix
unfoldable pub has_prefix : Text → Text → Bool
has_prefix s [] = true
has_prefix [] (p ∷ ps) = false
has_prefix (c ∷ s) (p ∷ ps) = c == p && has_prefix s ps

-- strings.TrimPrefix
unfoldable pub trim_prefix : Text → Text → Text
trim_prefix s p = go s p s
  where
    go : Text → Text → Text → Text
    go s [] whole = s
    go [] (p ∷ ps) whole = whole
    go (c ∷ s) (p ∷ ps) whole = if c == p then go s ps whole else whole

-- strings.HasSuffix
unfoldable pub has_suffix : Text → Text → Bool
unfolding Text-discrete
has_suffix [] t = str_eq [] t
has_suffix (c ∷ s) t = str_eq (c ∷ s) t || has_suffix s t

-- strings.TrimSuffix
unfoldable pub trim_suffix : Text → Text → Text
unfolding Text-discrete
trim_suffix [] t = []
trim_suffix (c ∷ s) t = if str_eq (c ∷ s) t then [] else c ∷ trim_suffix s t

-- strings.Contains for a single byte, and strings.ContainsAny for two.
unfoldable pub contains_byte : Text → ℕ → Bool
contains_byte [] b = false
contains_byte (c ∷ s) b = c == b || contains_byte s b

unfoldable pub contains_any : Text → ℕ → ℕ → Bool
contains_any [] a b = false
contains_any (c ∷ s) a b = c == a || c == b || contains_any s a b

-- strings.Count of a text of two bytes: occurrences that do not overlap.
unfoldable pub count_pair : Text → ℕ → ℕ → ℕ
count_pair [] a b = 0
count_pair (c ∷ []) a b = 0
count_pair (c ∷ d ∷ s) a b = elim (c == a && d == b) [
  | true ↦ suc (count_pair s a b)
  | false ↦ count_pair (d ∷ s) a b
]

pub has_prefix-append : (p s : Text) → has_prefix (p ++ s) p ≡ true
unfolding has_prefix
has_prefix-append [] s = refl
has_prefix-append (c ∷ p) s = ground (arith, has_prefix-append p s)

pub append_of-has_prefix : (s p : Text) → has_prefix s p ≡ true → (r : Text) × (s ≡ p ++ r)
unfolding has_prefix
append_of-has_prefix s [] h = (s, refl)
append_of-has_prefix [] (p ∷ ps) h = (p ∷ ps, ground arith)
append_of-has_prefix (c ∷ s) (p ∷ ps) h =
    let (r, e) = append_of-has_prefix s ps (ground arith) in (r, ground arith)

pub has_suffix-append : (w t : Text) → has_suffix (w ++ t) t ≡ true
unfolding has_suffix
has_suffix-append [] [] = ground arith
has_suffix-append [] (c ∷ t) = ground arith
has_suffix-append (c ∷ w) t = ground (arith, has_suffix-append w t)

cons-append-ne : (c : ℕ) (w t : Text) → c ∷ (w ++ t) ≡ t → ⊥
cons-append-ne c w t h = omega (arith, ap length h, length-append w t)

pub trim_suffix-append : (w : Text) (b : ℕ) (t : Text) → trim_suffix (w ++ b ∷ t) (b ∷ t) ≡ w
unfolding trim_suffix
trim_suffix-append [] b t = ground arith
trim_suffix-append (c ∷ w) b t =
    ground (arith, trim_suffix-append w b t, cons-append-ne c w (b ∷ t))
