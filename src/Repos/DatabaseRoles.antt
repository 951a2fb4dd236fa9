-- ===== src/Repos/DatabaseRoles.antt =====
-- DatabaseRole of internal/domain/secrets/database_role.go and its repository,
-- internal/repository/memory/database_role_repository.go.
use knxvault.Prelude.{
  [], is_empty, ℕ, Bool, true, false, ◌&&◌, ◌||◌, not, Option, none, some, List, Text, codes,
  str_eq, Text-discrete, ◌==◌, if◌then◌else◌,
}
use knxvault.Errors.{Result}
use knxvault.Secrets.Paths.{trim_space}
use knxvault.Secrets.Tuning.{RoleLimits, normalize_lease_tuning}
use knxvault.Secrets.Engine.Listing.{text_lt}
use knxvault.Secrets.Sql.{SqlError, validate_statements}
use knxvault.Secrets.DatabaseConfig.{
  mode_client, mode_managed, validate_execution_mode, validate_admin_path, validate_map,
}
use knxvault.Audit.Redact.{Detail, text, items, object, other, Fields, end_fields, field}
use knxvault.Repos.{Table, Outcome, put, find, remove, values, sort_by}
pub mod Managed

-- DatabaseRole; a nil configuration is the empty one.
pub record DatabaseRole : Type 0 where
  pub name : Text
  pub limits : RoleLimits
  pub username_prefix : Text
  pub default_username : Text
  pub creation_statements : List Text
  pub revocation_statements : List Text
  pub execution_mode : Text
  pub admin_credentials_path : Text
  pub config : Fields
  pub created_at : ℕ
  pub updated_at : ℕ

-- NormalizeDatabaseRole
unfoldable pub normalize_database_role : DatabaseRole → DatabaseRole
unfolding trim_space normalize_lease_tuning
normalize_database_role r = record r {
  execution_mode = if is_empty (trim_space r.execution_mode) then mode_client else r.execution_mode;
  admin_credentials_path = trim_space r.admin_credentials_path;
  limits = normalize_lease_tuning r.limits;
}

-- The value of a key of the configuration.
unfoldable pub config_value : Text → Fields → Option Detail
unfolding Text-discrete
config_value key end_fields = none
config_value key (field k value fs) = if str_eq k key then some value else config_value key fs

-- Whether a value of sql_strict leaves the statements strict.
unfoldable pub is_strict : Option Detail → Bool
unfolding Text-discrete
is_strict none = true
is_strict (some (text t)) = not (str_eq t (codes "false")) && not (str_eq t (codes "0"))
is_strict (some (other t)) = not (str_eq t (codes "false"))
is_strict (some (items _)) = true
is_strict (some (object _)) = true

abbrev pub accepted : Option (ℕ × SqlError) → Bool
accepted none = true
accepted (some _) = false

-- What Validate checks of a role in managed mode.
unfoldable pub managed_checks : DatabaseRole → Bool
unfolding config_value is_strict validate_statements
managed_checks r =
    if is_empty r.admin_credentials_path
    then false
    else if is_empty r.creation_statements
    then false
    else if not (is_strict (config_value (codes "sql_strict") r.config))
    then false
    else if not (accepted (validate_statements r.creation_statements))
    then false
    else is_empty r.revocation_statements || accepted (validate_statements r.revocation_statements)

-- url.Parse, as the test whether it gives a user with a password.
module _ (url_password : Text → Bool) where
  -- What Validate checks of the role that it has normalized.
  unfoldable pub checks : DatabaseRole → Bool
  unfolding managed_checks validate_execution_mode validate_admin_path validate_map Text-discrete
  checks r =
      if is_empty r.name
      then false
      else if r.limits.ttl_seconds == 0
      then false
      else if is_empty r.username_prefix
      then false
      else if not (validate_execution_mode r.execution_mode)
      then false
      else if not (validate_admin_path r.admin_credentials_path)
      then false
      else if not (validate_map url_password r.config)
      then false
      else if str_eq r.execution_mode mode_managed
      then managed_checks r
      else true

  -- Validate, as the test that passes.
  unfoldable pub validate : DatabaseRole → Bool
  unfolding checks normalize_database_role
  validate r = checks (normalize_database_role r)

  -- Save; Validate normalizes the role that is stored.
  unfoldable pub save : Table DatabaseRole → DatabaseRole → Outcome (Table DatabaseRole) (Unit {0})
  unfolding validate normalize_database_role put
  save t role =
      put (validate role) (codes "invalid database role") role.name (normalize_database_role role) t

-- Get
unfoldable pub get : Table DatabaseRole → Text → Result DatabaseRole
unfolding find
get t name = find (codes "database role not found") name t

-- List
unfoldable pub list : Table DatabaseRole → List DatabaseRole
unfolding sort_by values text_lt
list t = sort_by (λ a b. text_lt a.name b.name) (values t)

-- Delete
unfoldable pub delete : Table DatabaseRole → Text → Outcome (Table DatabaseRole) (Unit {0})
unfolding remove
delete t name = remove (codes "database role not found") name t

-- Clear
unfoldable pub clear : Table DatabaseRole → Table DatabaseRole
clear t = []
