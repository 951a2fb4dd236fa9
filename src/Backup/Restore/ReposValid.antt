-- ===== src/Backup/Restore/ReposValid.antt =====
-- The well-formed states of the repositories, and that Restore leaves one.
use knxvault.Prelude.{Text, Bool}
use knxvault.Auth.Policy.{Policy}
use knxvault.Auth.Roles.{Role}
use knxvault.Secrets.Store.{Store}
use knxvault.Secrets.Store.Valid.{IsValid}
use knxvault.Secrets.Leases.{Leases}
use knxvault.Audit.Chain.{AuditRepository}
use knxvault.Audit.Chain.Numbered.{AuditValid}
use knxvault.Repos.{Table}
use knxvault.Repos.Kept.{
  PkiRolesValid, IssuedValid, LeasesValid, PoliciesValid, RolesValid, DatabaseRolesValid,
  SshRolesValid, TokensValid,
}
use knxvault.Repos.Cas.{Ca}
use knxvault.Repos.Cas.Names.{CasValid}
use knxvault.Repos.PkiRoles.{PkiRole}
use knxvault.Repos.IssuedCerts.{IssuedCertificate}
use knxvault.Repos.Revocations.{Revocations}
use knxvault.Repos.Revocations.Listed.{IsListed}
use knxvault.Repos.DatabaseRoles.{DatabaseRole}
use knxvault.Repos.SshRoles.{SshRole}
use knxvault.Repos.Tokens.{ClientToken}
use knxvault.Backup.Snapshot.{Repos}

-- Each repository has its invariant: checked records under their keys, names of authorities that are
-- told apart, secret versions under their paths and numbers, revocations in step, and audit entries
-- with consecutive numbers.
pub record ReposValid (url_password : Text → Bool) (r : Repos) : Type 0 where
  pub cas : CasValid r.cas
  pub secrets : IsValid r.secrets
  pub audit : AuditValid r.audit
  pub revoked : IsListed r.revoked
  pub leases : LeasesValid r.leases
  pub policies : PoliciesValid r.policies
  pub roles : RolesValid r.roles
  pub pki_roles : PkiRolesValid r.pki_roles
  pub db_roles : DatabaseRolesValid url_password r.db_roles
  pub ssh_roles : SshRolesValid r.ssh_roles
  pub issued : IssuedValid r.issued
  pub tokens : TokensValid r.tokens

module _ {url_password : Text → Bool} {r : Repos} (v : ReposValid url_password r) where
  pub with_cas : (t : Table Ca) → CasValid t → ReposValid url_password (record r { cas = t })
  with_cas t h = record {
    cas = h;
    secrets = v.secrets;
    audit = v.audit;
    revoked = v.revoked;
    leases = v.leases;
    policies = v.policies;
    roles = v.roles;
    pki_roles = v.pki_roles;
    db_roles = v.db_roles;
    ssh_roles = v.ssh_roles;
    issued = v.issued;
    tokens = v.tokens;
  }

  pub with_secrets : (t : Store) → IsValid t → ReposValid url_password (record r { secrets = t })
  with_secrets t h = record {
    cas = v.cas;
    secrets = h;
    audit = v.audit;
    revoked = v.revoked;
    leases = v.leases;
    policies = v.policies;
    roles = v.roles;
    pki_roles = v.pki_roles;
    db_roles = v.db_roles;
    ssh_roles = v.ssh_roles;
    issued = v.issued;
    tokens = v.tokens;
  }

  pub with_audit :
      (t : AuditRepository) → AuditValid t → ReposValid url_password (record r { audit = t })
  with_audit t h = record {
    cas = v.cas;
    secrets = v.secrets;
    audit = h;
    revoked = v.revoked;
    leases = v.leases;
    policies = v.policies;
    roles = v.roles;
    pki_roles = v.pki_roles;
    db_roles = v.db_roles;
    ssh_roles = v.ssh_roles;
    issued = v.issued;
    tokens = v.tokens;
  }

  pub with_revoked :
      (t : Revocations) → IsListed t → ReposValid url_password (record r { revoked = t })
  with_revoked t h = record {
    cas = v.cas;
    secrets = v.secrets;
    audit = v.audit;
    revoked = h;
    leases = v.leases;
    policies = v.policies;
    roles = v.roles;
    pki_roles = v.pki_roles;
    db_roles = v.db_roles;
    ssh_roles = v.ssh_roles;
    issued = v.issued;
    tokens = v.tokens;
  }

  pub with_leases : (t : Leases) → LeasesValid t → ReposValid url_password (record r { leases = t })
  with_leases t h = record {
    cas = v.cas;
    secrets = v.secrets;
    audit = v.audit;
    revoked = v.revoked;
    leases = h;
    policies = v.policies;
    roles = v.roles;
    pki_roles = v.pki_roles;
    db_roles = v.db_roles;
    ssh_roles = v.ssh_roles;
    issued = v.issued;
    tokens = v.tokens;
  }

  pub with_policies :
      (t : Table Policy) → PoliciesValid t → ReposValid url_password (record r { policies = t })
  with_policies t h = record {
    cas = v.cas;
    secrets = v.secrets;
    audit = v.audit;
    revoked = v.revoked;
    leases = v.leases;
    policies = h;
    roles = v.roles;
    pki_roles = v.pki_roles;
    db_roles = v.db_roles;
    ssh_roles = v.ssh_roles;
    issued = v.issued;
    tokens = v.tokens;
  }

  pub with_roles :
      (t : Table Role) → RolesValid t → ReposValid url_password (record r { roles = t })
  with_roles t h = record {
    cas = v.cas;
    secrets = v.secrets;
    audit = v.audit;
    revoked = v.revoked;
    leases = v.leases;
    policies = v.policies;
    roles = h;
    pki_roles = v.pki_roles;
    db_roles = v.db_roles;
    ssh_roles = v.ssh_roles;
    issued = v.issued;
    tokens = v.tokens;
  }

  pub with_pki_roles :
      (t : Table PkiRole) → PkiRolesValid t → ReposValid url_password (record r { pki_roles = t })
  with_pki_roles t h = record {
    cas = v.cas;
    secrets = v.secrets;
    audit = v.audit;
    revoked = v.revoked;
    leases = v.leases;
    policies = v.policies;
    roles = v.roles;
    pki_roles = h;
    db_roles = v.db_roles;
    ssh_roles = v.ssh_roles;
    issued = v.issued;
    tokens = v.tokens;
  }

  pub with_db_roles :
      (t : Table DatabaseRole)
      → DatabaseRolesValid url_password t
      → ReposValid url_password (record r { db_roles = t })
  with_db_roles t h = record {
    cas = v.cas;
    secrets = v.secrets;
    audit = v.audit;
    revoked = v.revoked;
    leases = v.leases;
    policies = v.policies;
    roles = v.roles;
    pki_roles = v.pki_roles;
    db_roles = h;
    ssh_roles = v.ssh_roles;
    issued = v.issued;
    tokens = v.tokens;
  }

  pub with_ssh_roles :
      (t : Table SshRole) → SshRolesValid t → ReposValid url_password (record r { ssh_roles = t })
  with_ssh_roles t h = record {
    cas = v.cas;
    secrets = v.secrets;
    audit = v.audit;
    revoked = v.revoked;
    leases = v.leases;
    policies = v.policies;
    roles = v.roles;
    pki_roles = v.pki_roles;
    db_roles = v.db_roles;
    ssh_roles = h;
    issued = v.issued;
    tokens = v.tokens;
  }

  pub with_issued :
      (t : Table IssuedCertificate)
      → IssuedValid t
      → ReposValid url_password (record r { issued = t })
  with_issued t h = record {
    cas = v.cas;
    secrets = v.secrets;
    audit = v.audit;
    revoked = v.revoked;
    leases = v.leases;
    policies = v.policies;
    roles = v.roles;
    pki_roles = v.pki_roles;
    db_roles = v.db_roles;
    ssh_roles = v.ssh_roles;
    issued = h;
    tokens = v.tokens;
  }

  pub with_tokens :
      (t : Table ClientToken) → TokensValid t → ReposValid url_password (record r { tokens = t })
  with_tokens t h = record {
    cas = v.cas;
    secrets = v.secrets;
    audit = v.audit;
    revoked = v.revoked;
    leases = v.leases;
    policies = v.policies;
    roles = v.roles;
    pki_roles = v.pki_roles;
    db_roles = v.db_roles;
    ssh_roles = v.ssh_roles;
    issued = v.issued;
    tokens = h;
  }
