-- ===== src/Auth/Glob.antt =====
-- The two glob matchers: matchGlob of internal/auth/glob.go and globMatch of
-- internal/domain/auth/policy.go. A call with indices pi and si is a call on pat[pi:] and str[si:].
use knxvault.Prelude.{ℕ, Bool, true, false, ◌||◌, [], ◌∷◌, Text, ◌==◌, if◌then◌else◌}
pub mod Loops
pub mod Relation
pub mod Decides
pub mod Literal

abbrev pub star : ℕ
star = b'*'

abbrev pub question : ℕ
question = b'?'

abbrev pub slash : ℕ
slash = b'/'

-- The loop of `**`: a match is tried at every position.
unfoldable pub try_all : (Text → Bool) → Text → Bool
try_all m [] = m []
try_all m (c ∷ s) = m (c ∷ s) || try_all m s

-- The loop of a single `*`: positions up to the next slash.
unfoldable pub try_segment : (Text → Bool) → Text → Bool
try_segment m [] = m []
try_segment m (c ∷ s) = m (c ∷ s) || (if c == slash then false else try_segment m s)

-- The loop of `**/`: the first position, those behind a slash, and the end of the text. The flag
-- says whether the loop stands at a position; IndexByte walks with it down.
unfoldable pub try_segments : (Text → Bool) → Bool → Text → Bool
try_segments m here [] = m []
try_segments m here (c ∷ s) = (if here then m (c ∷ s) else false) || try_segments m (c == slash) s

-- The case `?`.
unfoldable pub any_byte : (Text → Bool) → Text → Bool
any_byte m [] = false
any_byte m (c ∷ s) = if c == slash then false else m s

-- The default case.
unfoldable pub same_byte : ℕ → (Text → Bool) → Text → Bool
same_byte p m [] = false
same_byte p m (c ∷ s) = if p == c then m s else false

-- The switch on pat[pi]: what a star does, and what the rest of the pattern does.
unfoldable pub glob_step : ℕ → (Text → Bool) → (Text → Bool) → Text → Bool
glob_step p starred rest s =
    if p == star then starred s else if p == question then any_byte rest s else same_byte p rest s

unfoldable pub at_end : Text → Bool
at_end [] = true
at_end (c ∷ s) = false

-- Both matchers, over what a single star may run through.
unfoldable pub glob_with : ((Text → Bool) → Text → Bool) → Text → Text → Bool
unfolding glob_step
glob_with single [] s = at_end s
glob_with single (p ∷ []) s = glob_step p (single (glob_with single [])) (glob_with single []) s
glob_with single (p ∷ q ∷ []) s =
    glob_step p
      (if q == star then try_all (glob_with single []) else single (glob_with single (q ∷ [])))
      (glob_with single (q ∷ [])) s
glob_with single (p ∷ q ∷ r ∷ ps) s =
    glob_step p
      (if q == star
        then (if r == slash
            then try_segments (glob_with single ps) true
            else try_all (glob_with single (r ∷ ps)))
        else single (glob_with single (q ∷ r ∷ ps)))
      (glob_with single (q ∷ r ∷ ps)) s

-- matchGlob: a single star stays within a path segment.
unfoldable pub match_glob : Text → Text → Bool
unfolding glob_with try_segment
match_glob = glob_with try_segment

-- globMatch: a single star runs through slashes.
unfoldable pub glob_match : Text → Text → Bool
unfolding glob_with
glob_match = glob_with try_all
