-- ===== src/Secrets/DatabaseConfig.antt =====
-- internal/domain/secrets/database_role_config.go: what the configuration of a database role may
-- hold. A value of the configuration is a detail of the audit log, a Boolean value its text.
use knxvault.Prelude.{
  is_empty, ℕ, Bool, true, false, ◌&&◌, ◌||◌, not, List, [], ◌∷◌, Text, codes, str_eq,
  Text-discrete, elem, has_prefix, ltb, ◌==◌, if◌then◌else◌,
}
use knxvault.Secrets.Paths.{trim_space, to_lower}
use knxvault.Audit.Redact.{
  Detail, text, items, object, other, Details, end_items, item, Fields, end_fields, field,
  contains_text,
}

abbrev pub mode_client : Text
mode_client = codes "client"

abbrev pub mode_managed : Text
mode_managed = codes "managed"

-- bannedConfigKeys
abbrev pub banned_keys : List Text
banned_keys =
    codes "password"
    ∷ codes "passwd"
    ∷ codes "secret"
    ∷ codes "token"
    ∷ codes "api_key"
    ∷ codes "apikey"
    ∷ codes "credential"
    ∷ codes "credentials"
    ∷ codes "connection_url"
    ∷ codes "connection_string"
    ∷ codes "connectionuri"
    ∷ codes "database_url"
    ∷ codes "dsn"
    ∷ codes "uri"
    ∷ codes "url"
    ∷ codes "private_key"
    ∷ codes "access_key"
    ∷ codes "secret_key"
    ∷ codes "admin_password"
    ∷ codes "admin_credentials"
    ∷ codes "admin_credentials_path"
    ∷ []

abbrev between : ℕ → ℕ → ℕ → Bool
between low high c = not (ltb c low) && not (ltb high c)

-- [a-zA-Z] and [a-zA-Z0-9]
unfoldable pub is_letter : ℕ → Bool
is_letter c = between b'a' b'z' c || between b'A' b'Z' c

unfoldable pub is_alphanumeric : ℕ → Bool
unfolding is_letter
is_alphanumeric c = is_letter c || between b'0' b'9' c

-- \s of a regular expression.
unfoldable pub is_blank : ℕ → Bool
is_blank c = c == 32 || (c == 9 || (c == 10 || (c == 12 || c == 13)))

-- embeddedCredsPattern behind the colon of the user: [^@\s]+@
unfoldable pub password_part : Bool → Text → Bool
unfolding is_blank
password_part some_seen [] = false
password_part some_seen (c ∷ s) =
    if c == b'@' then some_seen else if is_blank c then false else password_part true s

-- embeddedCredsPattern behind the slashes: [^:@\s]+: and the password.
unfoldable pub user_part : Bool → Text → Bool
unfolding is_blank password_part
user_part some_seen [] = false
user_part some_seen (c ∷ s) =
    if c == b':'
    then some_seen && password_part false s
    else if c == b'@' || is_blank c
    then false
    else user_part true s

-- The user behind two slashes.
unfoldable pub after_slashes : Text → Bool
unfolding user_part
after_slashes (c ∷ d ∷ s) = c == b'/' && (d == b'/' && user_part false s)
after_slashes (c ∷ []) = false
after_slashes [] = false

-- embeddedCredsPattern behind its first letter.
unfoldable pub scheme_part : Text → Bool
unfolding is_alphanumeric after_slashes
scheme_part [] = false
scheme_part (c ∷ s) =
    if c == b':'
    then after_slashes s
    else (is_alphanumeric c || (c == b'+' || (c == b'.' || c == b'-'))) && scheme_part s

-- embeddedCredsPattern
unfoldable pub embedded_creds : Text → Bool
unfolding is_letter scheme_part
embedded_creds [] = false
embedded_creds (c ∷ s) = is_letter c && scheme_part s

-- The class of kvPathPattern, for all bytes of a text.
unfoldable pub path_bytes : Text → Bool
unfolding is_alphanumeric
path_bytes [] = true
path_bytes (c ∷ s) = (is_alphanumeric c || (c == b'/' || (c == b'_' || c == b'-'))) && path_bytes s

-- kvPathPattern
unfoldable pub kv_path : Text → Bool
unfolding is_alphanumeric path_bytes
kv_path [] = false
kv_path (c ∷ s) = is_alphanumeric c && path_bytes s

-- ValidateExecutionMode, as the test that passes.
unfoldable pub validate_execution_mode : Text → Bool
unfolding Text-discrete
validate_execution_mode mode = str_eq mode mode_client || str_eq mode mode_managed

-- ValidateAdminCredentialsPath, as the test that passes.
unfoldable pub validate_admin_path : Text → Bool
unfolding trim_space contains_text has_prefix kv_path
validate_admin_path given =
    let path = trim_space given in
    if is_empty path
    then true
    else if contains_text path (codes "..") || has_prefix path (codes "/")
    then false
    else kv_path path

-- validateConfigKey, as the test that passes.
unfoldable pub validate_key : Text → Bool
unfolding to_lower trim_space Text-discrete elem
validate_key key = not (elem Text-discrete (to_lower (trim_space key)) banned_keys)

-- url.Parse, as the test whether it gives a user with a password.
module _ (url_password : Text → Bool) where
  -- validateConfigString, as the test that passes.
  unfoldable pub validate_string : Text → Bool
  unfolding trim_space embedded_creds
  validate_string value =
      let trimmed = trim_space value in
      if is_empty trimmed
      then true
      else if embedded_creds trimmed
      then false
      else not (url_password trimmed)

  -- validateConfigValue, as the test that passes; ValidateDatabaseRoleConfig is validate_map.
  unfoldable mutual
    unfolding validate_string validate_key

    pub validate_value : Detail → Bool
    validate_value (text s) = validate_string s
    validate_value (items xs) = validate_items xs
    validate_value (object fs) = validate_map fs
    validate_value (other s) = true

    pub validate_items : Details → Bool
    validate_items end_items = true
    validate_items (item x xs) = validate_value x && validate_items xs

    pub validate_map : Fields → Bool
    validate_map end_fields = true
    validate_map (field key value fs) =
        validate_key key && (validate_value value && validate_map fs)
