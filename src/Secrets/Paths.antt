-- ===== src/Secrets/Paths.antt =====
-- rejectReservedKVPath of internal/engine/secrets/kvv2.go: the paths that belong to other engines.
use knxvault.Prelude.{
  ℕ, ◌+◌, Bool, false, ◌&&◌, ◌||◌, not, List, [], ◌∷◌, Text, codes, str_eq, has_prefix, trim_prefix,
  trim_suffix, ltb, ◌==◌, if◌then◌else◌,
}
pub mod Reserved

-- The white space of ASCII.
unfoldable pub is_space : ℕ → Bool
is_space c = c == 32 || (not (ltb c 9) && ltb c 14)

-- The two halves of strings.TrimSpace.
unfoldable pub trim_left : Text → Text
unfolding is_space
trim_left [] = []
trim_left (c ∷ s) = if is_space c then trim_left s else c ∷ s

abbrev drop_space : ℕ → Text → Text
drop_space c [] = if is_space c then [] else c ∷ []
drop_space c (d ∷ s) = c ∷ d ∷ s

unfoldable pub trim_right : Text → Text
unfolding is_space
trim_right [] = []
trim_right (c ∷ s) = drop_space c (trim_right s)

-- strings.TrimSpace
unfoldable pub trim_space : Text → Text
unfolding trim_left trim_right
trim_space s = trim_right (trim_left s)

unfoldable pub lower_byte : ℕ → ℕ
lower_byte c = if not (ltb c b'A') && ltb c 91 then c + 32 else c

-- strings.ToLower, on the letters of ASCII.
unfoldable pub to_lower : Text → Text
unfolding lower_byte
to_lower [] = []
to_lower (c ∷ s) = lower_byte c ∷ to_lower s

-- reservedKVPathPrefixes
abbrev pub reserved_prefixes : List Text
reserved_prefixes =
    codes "cubbyhole/"
    ∷ codes "sys/wrapping/"
    ∷ codes "sys/internal/"
    ∷ codes "database/creds/"
    ∷ codes "ssh/creds/"
    ∷ codes "transit/keys/"
    ∷ []

-- The loop over the prefixes.
unfoldable pub under_any : Text → List Text → Bool
unfolding has_prefix trim_suffix
under_any p [] = false
under_any p (prefix ∷ prefixes) =
    (str_eq p (trim_suffix prefix (codes "/")) || has_prefix p prefix) || under_any p prefixes

-- strings.TrimPrefix(strings.ToLower(strings.TrimSpace(path)), "/")
unfoldable pub normal_path : Text → Text
unfolding to_lower trim_space trim_prefix
normal_path path = trim_prefix (to_lower (trim_space path)) (codes "/")

-- Whether rejectReservedKVPath returns an error.
unfoldable pub is_reserved : Text → Bool
unfolding normal_path under_any
is_reserved path =
    if str_eq (normal_path path) [] then false else under_any (normal_path path) reserved_prefixes
