-- ===== src/Backup/Export.antt =====
-- Export of internal/backup/export.go. The time at which it runs is an argument.
use knxvault.Prelude.{ℕ, Bool, true, none, List, [], ◌∷◌, ◌++◌, map, ◌==◌, if◌then◌else◌}
use knxvault.Secrets.Engine.Listing.{list_by_path}
use knxvault.Secrets.Leases.{list_leases}
use knxvault.Audit.Chain.{AuditRepository, ListOptions, list_entries}
use knxvault.Repos.Cas.{Ca}
use knxvault.Repos.Cas as Cas
use knxvault.Repos.PkiRoles as PkiRoles
use knxvault.Repos.IssuedCerts as IssuedCerts
use knxvault.Repos.Policies as Policies
use knxvault.Repos.Roles as Roles
use knxvault.Repos.DatabaseRoles as DatabaseRoles
use knxvault.Repos.SshRoles as SshRoles
use knxvault.Repos.Tokens as Tokens
use knxvault.Repos.Revocations.{Revocations, list_by_ca}
use knxvault.Backup.Snapshot.{format_version, RevokedRecord, AuditRecord, Snapshot, Repos}
use knxvault.Backup.Convert.{
  ca_from_domain, secret_from_domain, revoked_from_domain, lease_from_domain, issued_from_domain,
  audit_from_domain,
}
use knxvault.Backup.ConvertAccess.{
  policy_from_domain, role_from_domain, token_from_domain, pki_role_from_domain,
  ssh_role_from_domain, database_role_from_domain,
}

-- ExportOptions
pub record ExportOptions : Type 0 where
  pub include_audit : Bool
  pub audit_limit : ℕ

-- The loop over the authorities that lists their revocations.
unfoldable pub export_revoked : Revocations → List Ca → List RevokedRecord
unfolding list_by_ca revoked_from_domain
export_revoked r [] = []
export_revoked r (ca ∷ cas) = map revoked_from_domain (list_by_ca r ca.id) ++ export_revoked r cas

-- The options of the list of audit entries.
abbrev pub audit_options : ℕ → ListOptions
audit_options limit = record {
  since = none;
  order_asc = true;
  offset = 0;
  limit = if limit == 0 then 10000 else limit;
}

-- The audit entries of a snapshot.
unfoldable pub export_audit : AuditRepository → ExportOptions → List AuditRecord
unfolding list_entries audit_from_domain
export_audit r opts =
    if opts.include_audit
    then map audit_from_domain (list_entries r (audit_options opts.audit_limit))
    else []

-- Export, where every repository is configured.
unfoldable pub export : Repos → ExportOptions → ℕ → Snapshot
unfolding export_revoked export_audit list_by_path list_leases Cas.list PkiRoles.list
    IssuedCerts.list Policies.list Roles.list DatabaseRoles.list SshRoles.list Tokens.list
    ca_from_domain secret_from_domain lease_from_domain issued_from_domain policy_from_domain
    role_from_domain token_from_domain pki_role_from_domain ssh_role_from_domain
    database_role_from_domain
export r opts now =
    let cas = Cas.list r.cas in
    record {
      version = format_version;
      created_at = now;
      cas = map ca_from_domain cas;
      secrets = map secret_from_domain (list_by_path r.secrets []);
      revoked = export_revoked r.revoked cas;
      policies = map policy_from_domain (Policies.list r.policies);
      roles = map role_from_domain (Roles.list r.roles);
      pki_roles = map pki_role_from_domain (PkiRoles.list r.pki_roles);
      db_roles = map database_role_from_domain (DatabaseRoles.list r.db_roles);
      ssh_roles = map ssh_role_from_domain (SshRoles.list r.ssh_roles);
      leases = map lease_from_domain (list_leases r.leases);
      issued = map issued_from_domain (IssuedCerts.list r.issued);
      audit = export_audit r.audit opts;
      tokens = map token_from_domain (Tokens.list r.tokens);
    }
