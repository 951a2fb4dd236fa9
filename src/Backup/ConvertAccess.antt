-- ===== src/Backup/ConvertAccess.antt =====
-- internal/backup/convert.go: what a record keeps of a stored policy, role or token, and the value
-- that it gives back. What a record has no field for comes back as the zero value.
use knxvault.Prelude.{ℕ, false, none, []}
use knxvault.Auth.Policy.{Policy}
use knxvault.Auth.Roles.{Role}
use knxvault.Secrets.Tuning.{RoleLimits}
use knxvault.Repos.{nil_uuid}
use knxvault.Repos.PkiRoles.{PkiRole}
use knxvault.Repos.DatabaseRoles.{DatabaseRole, normalize_database_role}
use knxvault.Repos.SshRoles.{SshRole, normalize_ssh_role}
use knxvault.Repos.Tokens.{ClientToken}
use knxvault.Backup.Snapshot.{
  TokenRecord, PolicyRecord, RoleRecord, PkiRoleRecord, SshRoleRecord, DatabaseRoleRecord,
}

-- pkiRoleFromDomain
unfoldable pub pki_role_from_domain : PkiRole → PkiRoleRecord
pki_role_from_domain x = record {
  name = x.name;
  ca_name = x.ca_name;
  allowed_domains = x.allowed_domains;
  max_ttl_seconds = x.max_ttl_seconds;
  key_usage = x.key_usage;
  allow_subdomains = x.allow_subdomains;
}

-- pkiRoleToDomain
unfoldable pub pki_role_to_domain : PkiRoleRecord → PkiRole
pki_role_to_domain x = record {
  name = x.name;
  ca_name = x.ca_name;
  allowed_domains = x.allowed_domains;
  max_ttl_seconds = x.max_ttl_seconds;
  key_usage = x.key_usage;
  allow_subdomains = x.allow_subdomains;
}

-- policyFromDomain
unfoldable pub policy_from_domain : Policy → PolicyRecord
policy_from_domain x = record {
  name = x.name;
  effect = x.effect;
  resources = x.resources;
  actions = x.actions;
  conditions = x.conditions;
}

-- policyToDomain
unfoldable pub policy_to_domain : PolicyRecord → Policy
policy_to_domain x = record {
  id = nil_uuid;
  name = x.name;
  effect = x.effect;
  resources = x.resources;
  actions = x.actions;
  capabilities = [];
  includes = [];
  conditions = x.conditions;
}

-- roleFromDomain
unfoldable pub role_from_domain : Role → RoleRecord
role_from_domain x = record {
  name = x.name;
  policies = x.policies;
  bound_names = x.bound_names;
  bound_namespaces = x.bound_namespaces;
}

-- roleToDomain
unfoldable pub role_to_domain : RoleRecord → Role
role_to_domain x = record {
  name = x.name;
  policies = x.policies;
  policy_groups = [];
  bound_names = x.bound_names;
  bound_namespaces = x.bound_namespaces;
  auth_method = [];
  oidc = none;
  require_mfa = false;
}

-- tokenFromDomain
unfoldable pub token_from_domain : ClientToken → TokenRecord
token_from_domain x = record {
  id = x.id;
  subject = x.subject;
  policies = x.policies;
  expires_at = x.expires_at;
  renewable = x.renewable;
  revoked = x.revoked;
}

-- tokenToDomain
unfoldable pub token_to_domain : TokenRecord → ClientToken
token_to_domain x = record {
  id = x.id;
  subject = x.subject;
  policies = x.policies;
  expires_at = x.expires_at;
  renewable = x.renewable;
  revoked = x.revoked;
  parent_identity_id = [];
  agent_id = [];
  allowed_actions = [];
  path_prefix = [];
  max_expires_at = 0;
}

-- The limits of a role that has a lifetime only.
abbrev limits_of : ℕ → RoleLimits
limits_of ttl_seconds = record {
  ttl_seconds = ttl_seconds;
  default_ttl = 0;
  max_ttl = 0;
  period = 0;
  renewable = false;
  max_leases = 0;
}

-- sshRoleFromDomain
unfoldable pub ssh_role_from_domain : SshRole → SshRoleRecord
unfolding normalize_ssh_role
ssh_role_from_domain given =
    let x = normalize_ssh_role given in
    record {
      name = x.name;
      ttl_seconds = x.limits.ttl_seconds;
      ca_key_path = x.ca_key_path;
      allowed_users = x.allowed_users;
      default_user = x.default_user;
      key_type = x.key_type;
      extensions = x.extensions;
    }

-- sshRoleToDomain
unfoldable pub ssh_role_to_domain : SshRoleRecord → SshRole
unfolding normalize_ssh_role
ssh_role_to_domain x = normalize_ssh_role (record {
  name = x.name;
  limits = limits_of x.ttl_seconds;
  ca_key_path = x.ca_key_path;
  allowed_users = x.allowed_users;
  default_user = x.default_user;
  key_type = x.key_type;
  extensions = x.extensions;
  created_at = 0;
  updated_at = 0;
})

-- databaseRoleFromDomain
unfoldable pub database_role_from_domain : DatabaseRole → DatabaseRoleRecord
unfolding normalize_database_role
database_role_from_domain given =
    let x = normalize_database_role given in
    record {
      name = x.name;
      ttl_seconds = x.limits.ttl_seconds;
      username_prefix = x.username_prefix;
      default_username = x.default_username;
      creation_statements = x.creation_statements;
      revocation_statements = x.revocation_statements;
      execution_mode = x.execution_mode;
      admin_credentials_path = x.admin_credentials_path;
      config = x.config;
    }

-- databaseRoleToDomain
unfoldable pub database_role_to_domain : DatabaseRoleRecord → DatabaseRole
unfolding normalize_database_role
database_role_to_domain x = normalize_database_role (record {
  name = x.name;
  limits = limits_of x.ttl_seconds;
  username_prefix = x.username_prefix;
  default_username = x.default_username;
  creation_statements = x.creation_statements;
  revocation_statements = x.revocation_statements;
  execution_mode = x.execution_mode;
  admin_credentials_path = x.admin_credentials_path;
  config = x.config;
  created_at = 0;
  updated_at = 0;
})
