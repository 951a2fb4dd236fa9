-- ===== src/Auth/Glob/Literal.antt =====
-- A literal start of a pattern, and a single star behind it: where the two matchers part.
use knxvault.Prelude.{ℕ, ◌≡◌, ◌≢◌, ◌↔◌, refl, true, Bool, [], ◌∷◌, ◌++◌, Text, arith}
use knxvault.Auth.Glob.{
  star, question, try_all, try_segment, same_byte, at_end, glob_with, match_glob, glob_match,
}
use knxvault.Auth.Glob.Loops.{NoSlash}

-- The text holds neither wildcard.
abbrev pub IsPlain : Text → Type 0
IsPlain [] = Unit
IsPlain (c ∷ s) = (c ≢ star) × (c ≢ question) × IsPlain s

module _ (run : (Text → Bool) → Text → Bool) where
  glob_with-same :
      (c : ℕ) (p s : Text)
      → c ≢ star
      → c ≢ question
      → glob_with run (c ∷ p) (c ∷ s) ≡ glob_with run p s
  unfolding glob_with same_byte
  glob_with-same c [] s h k = ground arith
  glob_with-same c (q ∷ []) s h k = ground arith
  glob_with-same c (q ∷ t ∷ ps) s h k = ground arith

  -- A literal start is matched byte by byte.
  glob_with-literal :
      (l p s : Text) → IsPlain l → glob_with run (l ++ p) (l ++ s) ≡ glob_with run p s
  glob_with-literal [] p s h = refl
  glob_with-literal (c ∷ l) p s (a, b, h) =
      rw (glob_with-same c (l ++ p) (l ++ s) a b) (glob_with-literal l p s h)

  glob_with-star : (s : Text) → glob_with run (star ∷ []) s ≡ run at_end s
  unfolding glob_with
  glob_with-star s = refl

try_segment-at_end : (w : Text) → (try_segment at_end w ≡ true) ↔ NoSlash w
unfolding try_segment at_end
try_segment-at_end [] = (λ _. tt, λ _. refl)
try_segment-at_end (c ∷ w) = ground (arith, try_segment-at_end w)

try_all-at_end : (w : Text) → try_all at_end w ≡ true
unfolding try_all at_end
try_all-at_end [] = refl
try_all-at_end (c ∷ w) = ground (arith, try_all-at_end w)

-- Behind a literal start a single star at the end of the pattern takes exactly the texts with no
-- slash in matchGlob, and every text in globMatch.
pub single_star_differs :
    (l w : Text)
    → IsPlain l
    → ((match_glob (l ++ star ∷ []) (l ++ w) ≡ true) ↔ NoSlash w)
      × (glob_match (l ++ star ∷ []) (l ++ w) ≡ true)
unfolding match_glob glob_match
single_star_differs l w h = (
  rw (glob_with-literal try_segment l (star ∷ []) w h, glob_with-star try_segment w)
      (try_segment-at_end w),
  rw (glob_with-literal try_all l (star ∷ []) w h, glob_with-star try_all w) (try_all-at_end w),
)
