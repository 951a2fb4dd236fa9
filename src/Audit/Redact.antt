-- ===== src/Audit/Redact.antt =====
-- internal/audit/redact.go: what is taken out of the details of an entry before it is stored.
use knxvault.Prelude.{
  is_empty, ℕ, suc, Bool, true, false, ◌&&◌, ◌||◌, not, Option, none, some, List, [], ◌∷◌, Text,
  codes, Text-discrete, elem, has_prefix, contains_byte, leb, ◌==◌, if◌then◌else◌,
}
use knxvault.Secrets.Paths.{trim_space, to_lower}
pub mod Clean
pub mod Tests

-- A value of a map[string]any: a string, a []any, a map[string]any (its keys in the order of a
-- range), or a value of any other type, by its text. The other types have numbers and Boolean
-- values among them, and also a []string or a map[string]string, which the code does not look into.
mutual
  pub data Detail : Type 0 where
    text : Text → Detail
    items : Details → Detail
    object : Fields → Detail
    other : Text → Detail

  pub data Details : Type 0 where
    end_items : Details
    item : Detail → Details → Details

  pub data Fields : Type 0 where
    end_fields : Fields
    field : Text → Detail → Fields → Fields

-- sensitiveDetailKeys
abbrev pub sensitive_keys : List Text
sensitive_keys =
    codes "password"
    ∷ codes "passwd"
    ∷ codes "secret"
    ∷ codes "token"
    ∷ codes "client_token"
    ∷ codes "jwt"
    ∷ codes "access_token"
    ∷ codes "refresh_token"
    ∷ codes "api_key"
    ∷ codes "apikey"
    ∷ codes "credential"
    ∷ codes "credentials"
    ∷ codes "private_key"
    ∷ codes "private_key_pem"
    ∷ codes "tls_key"
    ∷ codes "access_key"
    ∷ codes "secret_key"
    ∷ codes "secret_id"
    ∷ codes "unseal_key"
    ∷ codes "master_key"
    ∷ codes "connection_url"
    ∷ codes "connection_string"
    ∷ codes "database_url"
    ∷ codes "dsn"
    ∷ []

-- isSensitiveKey
unfoldable pub is_sensitive_key : Text → Bool
is_sensitive_key key = elem Text-discrete (to_lower (trim_space key)) sensitive_keys

-- strings.Contains
unfoldable pub contains_text : Text → Text → Bool
contains_text [] t = has_prefix [] t
contains_text (c ∷ s) t = has_prefix (c ∷ s) t || contains_text s t

-- What strings.Cut gives before the first such byte, where there is one.
unfoldable pub before_byte : Text → ℕ → Text
before_byte [] b = []
before_byte (c ∷ s) b = if c == b then [] else c ∷ before_byte s b

-- strings.Count for a byte.
unfoldable pub count_byte : Text → ℕ → ℕ
count_byte [] b = 0
count_byte (c ∷ s) b = if c == b then suc (count_byte s b) else count_byte s b

-- looksLikeEmbeddedCredentials
unfoldable pub looks_like_credentials : Text → Bool
unfolding contains_text before_byte count_byte
looks_like_credentials value =
    let trimmed = trim_space value in
    if is_empty trimmed
    then false
    else contains_text trimmed (codes "://")
      && (contains_byte trimmed b'@'
          && (contains_byte trimmed b':' && leb 2 (count_byte (before_byte trimmed b'@') b':')))

abbrev pub redacted : Text
redacted = codes "[REDACTED]"

unfoldable mutual
  unfolding is_sensitive_key looks_like_credentials

  -- sanitizeValue
  pub sanitize_value : Detail → Detail
  sanitize_value (text s) = if looks_like_credentials s then text redacted else text s
  sanitize_value (items xs) = items (sanitize_items xs)
  sanitize_value (object fs) = object (sanitize_map fs)
  sanitize_value (other s) = other s

  pub sanitize_items : Details → Details
  sanitize_items end_items = end_items
  sanitize_items (item x xs) = item (sanitize_value x) (sanitize_items xs)

  -- sanitizeMap
  pub sanitize_map : Fields → Fields
  sanitize_map end_fields = end_fields
  sanitize_map (field key value fs) =
      let value' = sanitize_value value in
      field key (if is_sensitive_key key then text redacted else value') (sanitize_map fs)

-- SanitizeDetails; `none` is a nil map.
unfoldable pub sanitize_details : Option Fields → Option Fields
unfolding sanitize_map
sanitize_details none = none
sanitize_details (some fs) = some (sanitize_map fs)

-- walkSensitive, as the test that finds nothing.
unfoldable mutual
  unfolding is_sensitive_key looks_like_credentials

  pub walk_value : Detail → Bool
  walk_value (text s) = not (looks_like_credentials s)
  walk_value (items xs) = walk_items xs
  walk_value (object fs) = walk_map fs
  walk_value (other s) = true

  pub walk_items : Details → Bool
  walk_items end_items = true
  walk_items (item x xs) = walk_value x && walk_items xs

  pub walk_map : Fields → Bool
  walk_map end_fields = true
  walk_map (field key value fs) = not (is_sensitive_key key) && (walk_value value && walk_map fs)

-- RejectSensitiveDetails, as the test that passes.
unfoldable pub accepts_details : Option Fields → Bool
unfolding walk_map
accepts_details none = true
accepts_details (some fs) = walk_map fs
