-- ===== src/Repos/SshRoles.antt =====
-- SSHRole of internal/domain/secrets/ssh_role.go and its repository,
-- internal/repository/memory/ssh_role_repository.go.
use knxvault.Prelude.{
  is_empty, ℕ, Bool, false, ◌&&◌, ◌||◌, not, Option, none, some, List, [], ◌∷◌, Text, codes, str_eq,
  Text-discrete, ◌==◌, if◌then◌else◌,
}
use knxvault.Errors.{Result}
use knxvault.Secrets.Paths.{trim_space}
use knxvault.Secrets.Tuning.{RoleLimits, or_default}
use knxvault.Secrets.Engine.Listing.{text_lt}
use knxvault.Repos.{Table, Outcome, put, find, remove, values, sort_by}

abbrev pub key_type_ed25519 : Text
key_type_ed25519 = codes "ed25519"

abbrev pub key_type_rsa : Text
key_type_rsa = codes "rsa"

-- SSHRole; `none` is the nil map of extensions.
pub record SshRole : Type 0 where
  pub name : Text
  pub limits : RoleLimits
  pub ca_key_path : Text
  pub allowed_users : List Text
  pub default_user : Text
  pub key_type : Text
  pub extensions : Option (List (Text × Text))
  pub created_at : ℕ
  pub updated_at : ℕ

abbrev pub default_extensions : Option (List (Text × Text)) → Option (List (Text × Text))
default_extensions none = some ((codes "permit-pty", []) ∷ [])
default_extensions (some extensions) = some extensions

-- NormalizeSSHRole, with each assignment in turn.
unfoldable pub normalize_ssh_role : SshRole → SshRole
normalize_ssh_role r =
    let ttl = or_default r.limits.ttl_seconds 3600 in
    let default_ttl = or_default r.limits.default_ttl ttl in
    let max_ttl = or_default r.limits.max_ttl default_ttl in
    record r {
      limits = record r.limits { ttl_seconds = ttl; default_ttl = default_ttl; max_ttl = max_ttl };
      key_type = if is_empty r.key_type then key_type_ed25519 else r.key_type;
      extensions = default_extensions r.extensions;
    }

-- What Validate checks of the role that it has normalized.
unfoldable pub checks : SshRole → Bool
unfolding Text-discrete trim_space
checks r =
    if is_empty r.name
    then false
    else if r.limits.ttl_seconds == 0
    then false
    else if is_empty (trim_space r.ca_key_path)
    then false
    else if not (str_eq r.key_type key_type_ed25519 || str_eq r.key_type key_type_rsa)
    then false
    else not (is_empty r.default_user && is_empty r.allowed_users)

-- Validate, as the test that passes.
unfoldable pub validate : SshRole → Bool
unfolding checks normalize_ssh_role
validate r = checks (normalize_ssh_role r)

-- The loop of AllowedUser.
unfoldable pub any_user : Text → List Text → Bool
unfolding Text-discrete trim_space
any_user username [] = false
any_user username (allowed ∷ users) =
    str_eq (trim_space allowed) username || any_user username users

-- AllowedUser
unfoldable pub allowed_user : SshRole → Text → Bool
unfolding any_user trim_space Text-discrete
allowed_user r given =
    let username = trim_space given in
    if is_empty username
    then false
    else if is_empty r.allowed_users
    then is_empty r.default_user || str_eq r.default_user username
    else any_user username r.allowed_users

-- Save; Validate normalizes the role that is stored.
unfoldable pub save : Table SshRole → SshRole → Outcome (Table SshRole) (Unit {0})
unfolding validate normalize_ssh_role put
save t role = put (validate role) (codes "invalid ssh role") role.name (normalize_ssh_role role) t

-- Get
unfoldable pub get : Table SshRole → Text → Result SshRole
unfolding find
get t name = find (codes "ssh role not found") name t

-- List
unfoldable pub list : Table SshRole → List SshRole
unfolding sort_by values text_lt
list t = sort_by (λ a b. text_lt a.name b.name) (values t)

-- Delete
unfoldable pub delete : Table SshRole → Text → Outcome (Table SshRole) (Unit {0})
unfolding remove
delete t name = remove (codes "ssh role not found") name t

-- Clear
unfoldable pub clear : Table SshRole → Table SshRole
clear t = []
