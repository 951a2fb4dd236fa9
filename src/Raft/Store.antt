-- ===== src/Raft/Store.antt =====
-- Store of internal/raft/store.go: the repositories that are replicated, and their snapshots.
use knxvault.Prelude.{ℕ, Bool, []}
use knxvault.Errors.{ok, err}
use knxvault.Auth.Policy.{Policy}
use knxvault.Auth.Roles.{Role}
use knxvault.Secrets.Store as Secrets
use knxvault.Secrets.Leases.{Leases}
use knxvault.Audit.Chain.{AuditRepository}
use knxvault.Audit.Chain as Audit
use knxvault.Repos.{Table, Outcome}
use knxvault.Repos.Cas.{Ca}
use knxvault.Repos.PkiRoles.{PkiRole}
use knxvault.Repos.IssuedCerts.{IssuedCertificate}
use knxvault.Repos.Revocations.{Revocations}
use knxvault.Repos.Revocations as Revocations
use knxvault.Repos.DatabaseRoles.{DatabaseRole}
use knxvault.Repos.SshRoles.{SshRole}
use knxvault.Repos.RotationPolicies.{RotationPolicy}
use knxvault.Repos.Identities.{MachineIdentity}
use knxvault.Repos.Tokens.{ClientToken}
use knxvault.Backup.Snapshot.{Snapshot, Repos}
use knxvault.Backup.Export.{export}
use knxvault.Backup.Validate.{validate_snapshot}
use knxvault.Backup.Restore.{RestoreEnv, restore}
pub mod Valid
pub mod Import

-- Store
pub record Store : Type 0 where
  pub cas : Table Ca
  pub secrets : Secrets.Store
  pub audit : AuditRepository
  pub revoked : Revocations
  pub leases : Leases
  pub policies : Table Policy
  pub roles : Table Role
  pub db_roles : Table DatabaseRole
  pub ssh_roles : Table SshRole
  pub issued : Table IssuedCertificate
  pub pki_roles : Table PkiRole
  pub tokens : Table ClientToken
  pub identities : Table MachineIdentity
  pub rotations : Table RotationPolicy

-- NewStore
unfoldable pub new_store : Store
unfolding Audit.new_repository Revocations.new_repository
new_store = record {
  cas = [];
  secrets = [];
  audit = Audit.new_repository;
  revoked = Revocations.new_repository;
  leases = [];
  policies = [];
  roles = [];
  db_roles = [];
  ssh_roles = [];
  issued = [];
  pki_roles = [];
  tokens = [];
  identities = [];
  rotations = [];
}

-- Repos
unfoldable pub repos : Store → Repos
repos s = record {
  cas = s.cas;
  secrets = s.secrets;
  audit = s.audit;
  revoked = s.revoked;
  leases = s.leases;
  policies = s.policies;
  roles = s.roles;
  pki_roles = s.pki_roles;
  db_roles = s.db_roles;
  ssh_roles = s.ssh_roles;
  issued = s.issued;
  tokens = s.tokens;
}

-- A store whose repositories, seen through Repos, are these.
unfoldable pub with_repos : Store → Repos → Store
with_repos s r = record s {
  cas = r.cas;
  secrets = r.secrets;
  audit = r.audit;
  revoked = r.revoked;
  leases = r.leases;
  policies = r.policies;
  roles = r.roles;
  pki_roles = r.pki_roles;
  db_roles = r.db_roles;
  ssh_roles = r.ssh_roles;
  issued = r.issued;
  tokens = r.tokens;
}

-- ExportSnapshot
unfoldable pub export_store : Store → Bool → ℕ → Snapshot
unfolding export repos
export_store s include_audit now =
    export (repos s) (record { include_audit = include_audit; audit_limit = 0 }) now

-- The store that takes the place of the old one, where Restore succeeded.
unfoldable pub replaced : Store → Outcome Repos (Unit {0}) → Outcome Store (Unit {0})
unfolding with_repos new_store
replaced s (r, ok _) = (with_repos new_store r, ok tt)
replaced s (r, err e) = (s, err e)

-- ImportSnapshot
unfoldable pub import_snapshot : RestoreEnv → Store → Snapshot → Outcome Store (Unit {0})
unfolding validate_snapshot restore repos new_store replaced
import_snapshot env s snapshot = elim (validate_snapshot env.audit snapshot) [
  | err e ↦ (s, err e)
  | ok _ ↦ replaced s (restore env snapshot (repos new_store))
]
