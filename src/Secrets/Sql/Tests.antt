-- ===== src/Secrets/Sql/Tests.antt =====
-- Tests of the statements of managed database roles.
use knxvault.Prelude.{◌≡◌, refl, is_empty, false, ◌∷◌, ◌++◌, Text, codes, contains_byte}
use knxvault.Secrets.Paths.{trim_space}
use knxvault.Audit.Redact.{contains_text}
use knxvault.Secrets.Sql.{normalize_managed_sql, body_of, validate_one}
use knxvault.Secrets.Sql.Allowed.{IsAllowed, validate_one-IsAllowed}
use knxvault.Secrets.Sql.Hidden.{validate_one-hidden}

abbrev head : Text
head = codes "create user u password '{{p}}"

abbrev tail : Text
tail = codes "' superuser"

validate_one-IsAllowed_example :
    (is_empty (trim_space head) ≡ false)
    × (contains_byte (body_of (trim_space head)) b';' ≡ false)
    × IsAllowed
        (normalize_managed_sql (body_of (trim_space head)))
        (contains_text (trim_space head) (codes "{{"))
unfolding validate_one
validate_one-IsAllowed_example = validate_one-IsAllowed head refl

validate_one-hidden_example : validate_one (head ++ b'-' ∷ b'-' ∷ tail) ≡ validate_one head
unfolding contains_byte contains_text knxvault.Prelude.has_prefix trim_space
validate_one-hidden_example =
    validate_one-hidden head tail (refl, refl) refl refl refl refl refl refl
