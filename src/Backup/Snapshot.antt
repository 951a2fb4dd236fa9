-- ===== src/Backup/Snapshot.antt =====
-- internal/backup/snapshot.go: the records of a snapshot, and the repositories that it is taken of.
use knxvault.Prelude.{ℕ, Bool, Option, List, Text}
use knxvault.Auth.Policy.{Policy, Value}
use knxvault.Auth.Roles.{Role}
use knxvault.Secrets.Store.{Store}
use knxvault.Secrets.Leases.{Leases}
use knxvault.Audit.Redact.{Fields}
use knxvault.Audit.Chain.{AuditRepository}
use knxvault.Repos.{Table}
use knxvault.Repos.Cas.{Ca}
use knxvault.Repos.PkiRoles.{PkiRole}
use knxvault.Repos.IssuedCerts.{IssuedCertificate}
use knxvault.Repos.Revocations.{Revocations}
use knxvault.Repos.DatabaseRoles.{DatabaseRole}
use knxvault.Repos.SshRoles.{SshRole}
use knxvault.Repos.Tokens.{ClientToken}

-- formatVersion
abbrev pub format_version : ℕ
format_version = 1

-- TokenRecord
pub record TokenRecord : Type 0 where
  pub id : Text
  pub subject : Text
  pub policies : List Text
  pub expires_at : ℕ
  pub renewable : Bool
  pub revoked : Bool

-- CARecord
pub record CaRecord : Type 0 where
  pub id : Text
  pub parent_id : Option Text
  pub name : Text
  pub type : Text
  pub common_name : Text
  pub serial : Text
  pub cert_pem : Text
  pub private_key_enc : List ℕ
  pub dek_enc : List ℕ
  pub status : Text
  pub created_at : ℕ
  pub expires_at : ℕ
  pub crl_next_update : Option ℕ

-- SecretRecord
pub record SecretRecord : Type 0 where
  pub id : ℕ
  pub path : Text
  pub version : ℕ
  pub data_enc : List ℕ
  pub dek_enc : List ℕ
  pub lease_id : Option Text
  pub ttl_seconds : Option ℕ
  pub created_at : ℕ
  pub expires_at : Option ℕ
  pub destroyed : Bool

-- RevokedRecord
pub record RevokedRecord : Type 0 where
  pub serial : Text
  pub ca_id : Text
  pub revoked_at : ℕ
  pub reason : Text

-- PolicyRecord
pub record PolicyRecord : Type 0 where
  pub name : Text
  pub effect : Text
  pub resources : List Text
  pub actions : List Text
  pub conditions : List (Text × Value)

-- RoleRecord
pub record RoleRecord : Type 0 where
  pub name : Text
  pub policies : List Text
  pub bound_names : List Text
  pub bound_namespaces : List Text

-- PKIRoleRecord
pub record PkiRoleRecord : Type 0 where
  pub name : Text
  pub ca_name : Text
  pub allowed_domains : List Text
  pub max_ttl_seconds : ℕ
  pub key_usage : Text
  pub allow_subdomains : Bool

-- SSHRoleRecord
pub record SshRoleRecord : Type 0 where
  pub name : Text
  pub ttl_seconds : ℕ
  pub ca_key_path : Text
  pub allowed_users : List Text
  pub default_user : Text
  pub key_type : Text
  pub extensions : Option (List (Text × Text))

-- DatabaseRoleRecord
pub record DatabaseRoleRecord : Type 0 where
  pub name : Text
  pub ttl_seconds : ℕ
  pub username_prefix : Text
  pub default_username : Text
  pub creation_statements : List Text
  pub revocation_statements : List Text
  pub execution_mode : Text
  pub admin_credentials_path : Text
  pub config : Fields

-- LeaseRecord
pub record LeaseRecord : Type 0 where
  pub id : Text
  pub path : Text
  pub role_name : Text
  pub engine : Text
  pub ttl_seconds : ℕ
  pub created_at : ℕ
  pub expires_at : ℕ
  pub revoked_at : Option ℕ
  pub renewable : Bool

-- IssuedCertRecord
pub record IssuedCertRecord : Type 0 where
  pub id : Text
  pub ca_id : Text
  pub role : Text
  pub serial : Text
  pub common_name : Text
  pub dns_names : List Text
  pub ttl_seconds : ℕ
  pub issued_at : ℕ
  pub expires_at : ℕ
  pub auto_renew : Bool
  pub renewed_from_serial : Option Text

-- AuditRecord
pub record AuditRecord : Type 0 where
  pub timestamp : ℕ
  pub actor : Text
  pub action : Text
  pub resource : Text
  pub status : Text
  pub details : Option Fields
  pub hash : Text

-- Snapshot
pub record Snapshot : Type 0 where
  pub version : ℕ
  pub created_at : ℕ
  pub cas : List CaRecord
  pub secrets : List SecretRecord
  pub revoked : List RevokedRecord
  pub policies : List PolicyRecord
  pub roles : List RoleRecord
  pub pki_roles : List PkiRoleRecord
  pub db_roles : List DatabaseRoleRecord
  pub ssh_roles : List SshRoleRecord
  pub leases : List LeaseRecord
  pub issued : List IssuedCertRecord
  pub audit : List AuditRecord
  pub tokens : List TokenRecord

-- Repos, all of them configured, by the state of the in-memory repository behind each.
pub record Repos : Type 0 where
  pub cas : Table Ca
  pub secrets : Store
  pub audit : AuditRepository
  pub revoked : Revocations
  pub leases : Leases
  pub policies : Table Policy
  pub roles : Table Role
  pub pki_roles : Table PkiRole
  pub db_roles : Table DatabaseRole
  pub ssh_roles : Table SshRole
  pub issued : Table IssuedCertificate
  pub tokens : Table ClientToken
