-- ===== src/Secrets/Sql.antt =====
-- internal/domain/secrets/sql_allow.go: the statements that a managed database role may run.
use knxvault.Prelude.{
  is_empty, ℕ, suc, Bool, true, false, ◌&&◌, ◌||◌, not, Option, none, some, List, [], ◌∷◌, Text,
  codes, has_prefix, has_suffix, trim_prefix, trim_suffix, contains_byte, ◌==◌, if◌then◌else◌,
}
use knxvault.Secrets.Paths.{is_space, trim_space, to_lower}
use knxvault.Audit.Redact.{contains_text}
pub mod Allowed
pub mod Hidden
pub mod Tests

-- managedSQLAllowPrefixes
abbrev pub allow_prefixes : List Text
allow_prefixes =
    codes "create role"
    ∷ codes "create user"
    ∷ codes "alter role"
    ∷ codes "alter user"
    ∷ codes "alter default privileges"
    ∷ codes "drop role"
    ∷ codes "drop user"
    ∷ codes "grant "
    ∷ codes "revoke "
    ∷ codes "create table"
    ∷ codes "drop table"
    ∷ codes "create temporary table"
    ∷ []

-- managedSQLDenySubstrings
abbrev pub deny_substrings : List Text
deny_substrings =
    codes "drop database"
    ∷ codes "drop schema"
    ∷ codes "truncate "
    ∷ codes "alter system"
    ∷ codes "copy "
    ∷ codes "pg_read_file"
    ∷ codes "pg_write_file"
    ∷ codes "lo_import"
    ∷ codes "lo_export"
    ∷ codes ";--"
    ∷ codes " union "
    ∷ codes " into outfile"
    ∷ codes "load_file"
    ∷ codes "superuser"
    ∷ codes "createdb"
    ∷ codes "createrole"
    ∷ codes "replication"
    ∷ codes "bypassrls"
    ∷ codes "with admin option"
    ∷ codes "grant all"
    ∷ codes "grant all privileges"
    ∷ codes "set role"
    ∷ codes "grant create"
    ∷ codes "with grant option"
    ∷ codes "security invoker"
    ∷ codes "security definer"
    ∷ []

-- The roles that validateOneManagedSQL lists.
abbrev pub deny_roles : List Text
deny_roles =
    codes "pg_read_server_files"
    ∷ codes "pg_write_server_files"
    ∷ codes "pg_execute_server_program"
    ∷ codes "pg_checkpoint"
    ∷ codes "pg_monitor"
    ∷ codes "pg_read_all_data"
    ∷ codes "pg_write_all_data"
    ∷ []

-- Where the loop of stripSQLComments stands: in a statement, in a comment up to the end of the
-- line, or in a comment up to a star and a slash.
pub data Place : Type 0 where
  code line_comment block_comment : Place

-- stripSQLComments, from a place on.
unfoldable pub strip_from : Place → Text → Text
strip_from code [] = []
strip_from code (c ∷ []) = c ∷ []
strip_from code (c ∷ d ∷ s) = elim (c == b'-' && d == b'-') [
  | true ↦ strip_from line_comment s
  | false ↦ elim (c == b'/' && d == b'*') [
    | true ↦ strip_from block_comment s
    | false ↦ c ∷ strip_from code (d ∷ s)
  ]
]
strip_from line_comment [] = []
strip_from line_comment (c ∷ s) = elim (c == 10) [
  | true ↦ 32 ∷ strip_from code s
  | false ↦ strip_from line_comment s
]
strip_from block_comment [] = 32 ∷ []
strip_from block_comment (c ∷ []) = 32 ∷ []
strip_from block_comment (c ∷ d ∷ s) = elim (c == b'*' && d == b'/') [
  | true ↦ 32 ∷ strip_from code s
  | false ↦ strip_from block_comment (d ∷ s)
]

-- stripSQLComments
unfoldable pub strip_sql_comments : Text → Text
unfolding strip_from
strip_sql_comments s = strip_from code s

-- The loop of normalizeManagedSQL, with prevSpace.
unfoldable pub collapse_spaces : Bool → Text → Text
unfolding is_space
collapse_spaces prev_space [] = []
collapse_spaces prev_space (c ∷ s) = elim (is_space c) [
  | true ↦ if prev_space then collapse_spaces true s else 32 ∷ collapse_spaces true s
  | false ↦ c ∷ collapse_spaces false s
]

-- normalizeManagedSQL
unfoldable pub normalize_managed_sql : Text → Text
unfolding strip_sql_comments to_lower collapse_spaces trim_space
normalize_managed_sql s = trim_space (collapse_spaces false (to_lower (strip_sql_comments s)))

-- The first listed text that a text contains.
unfoldable pub first_in : Text → List Text → Option Text
unfolding contains_text
first_in s [] = none
first_in s (bad ∷ rest) = if contains_text s bad then some bad else first_in s rest

-- The first listed text that a text starts with.
unfoldable pub first_prefix : Text → List Text → Option Text
unfolding has_prefix
first_prefix s [] = none
first_prefix s (p ∷ rest) = if has_prefix s p then some p else first_prefix s rest

-- The statement behind its verb, as the first loop of hasRoleMembershipEscalation leaves it.
unfoldable pub after_verb : Text → Text
unfolding first_prefix trim_prefix
after_verb norm =
    elim (first_prefix norm (
      codes "create role "
      ∷ codes "alter role "
      ∷ codes "drop role "
      ∷ codes "create user "
      ∷ codes "alter user "
      ∷ codes "drop user "
      ∷ [])) [ none ↦ norm | some p ↦ trim_prefix norm p ]

abbrev pub found : Option Text → Bool
found none = false
found (some _) = true

-- hasRoleMembershipEscalation
unfoldable pub has_role_membership_escalation : Text → Bool
unfolding after_verb first_in contains_text has_suffix
has_role_membership_escalation norm =
    let rest = after_verb norm in
    if found (
      first_in rest
        (codes " in role " ∷ codes " in group " ∷ codes " role " ∷ codes " admin " ∷ []))
    then true
    else contains_text rest (codes " role ") || has_suffix rest (codes " role")

-- isBareRoleMembershipGrant
unfoldable pub is_bare_role_membership_grant : Text → Bool
unfolding has_prefix contains_text
is_bare_role_membership_grant norm =
    if not (has_prefix norm (codes "grant "))
    then false
    else if contains_text norm (codes " on ")
    then false
    else contains_text norm (codes " to ")

-- The errors of validateOneManagedSQL.
pub data SqlError : Type 0 where
  empty_statement stacked role_membership bare_grant bad_verb plain_password : SqlError
  disallowed : Text → SqlError

-- The checks of validateOneManagedSQL on the normalized statement; the test is whether the statement
-- has a template placeholder.
unfoldable pub check_normalized : Text → Bool → Option SqlError
unfolding first_in first_prefix has_role_membership_escalation is_bare_role_membership_grant
    contains_text
check_normalized norm has_template = elim (first_in norm deny_substrings) [
  | some bad ↦ some (disallowed bad)
  | none ↦
      if has_role_membership_escalation norm
      then some role_membership
      else if is_bare_role_membership_grant norm
      then some bare_grant
      else elim (first_in norm deny_roles) [
        | some bad ↦ some (disallowed bad)
        | none ↦
            if not (found (first_prefix norm allow_prefixes))
            then some bad_verb
            else if contains_text norm (codes "password") && not has_template
            then some plain_password
            else none
      ]
]

-- The statement without its end, as validateOneManagedSQL checks it.
unfoldable pub body_of : Text → Text
unfolding trim_space trim_suffix
body_of s = trim_suffix (trim_space s) (codes ";")

-- validateOneManagedSQL
unfoldable pub validate_one : Text → Option SqlError
unfolding normalize_managed_sql check_normalized body_of contains_text trim_space contains_byte
validate_one stmt =
    let s = trim_space stmt in
    if is_empty s
    then some empty_statement
    else if contains_byte (body_of s) b';'
    then some stacked
    else check_normalized (normalize_managed_sql (body_of s)) (contains_text s (codes "{{"))

-- ValidateManagedSQLStatements, from an index on: the index of the first bad statement, and its
-- error.
unfoldable pub validate_from : ℕ → List Text → Option (ℕ × SqlError)
unfolding validate_one
validate_from i [] = none
validate_from i (stmt ∷ stmts) = elim (validate_one stmt) [
  | some e ↦ some (i, e)
  | none ↦ validate_from (suc i) stmts
]

-- ValidateManagedSQLStatements
unfoldable pub validate_statements : List Text → Option (ℕ × SqlError)
unfolding validate_from
validate_statements stmts = validate_from 0 stmts
