-- ===== src/Backup/Convert.antt =====
-- internal/backup/convert.go: what a record keeps of a stored authority, secret, certificate, lease or
-- audit entry, and the value that it gives back. What a record has no field for comes back as the
-- zero value. The conversions of a revocation stand in export.go and import.go.
use knxvault.Prelude.{[]}
use knxvault.Secrets.Store.{SecretVersion}
use knxvault.Secrets.Leases.{Lease}
use knxvault.Audit.AuthFields.{AuthFields}
use knxvault.Audit.Chain.{AuditEntry}
use knxvault.Repos.Cas.{Ca}
use knxvault.Repos.IssuedCerts.{IssuedCertificate}
use knxvault.Repos.Revocations.{RevokedCertificate}
use knxvault.Backup.Snapshot.{
  CaRecord, SecretRecord, RevokedRecord, LeaseRecord, IssuedCertRecord, AuditRecord,
}

-- The fields that no record keeps of an entry of the audit log.
abbrev no_auth : AuthFields
no_auth = record {
  auth_method = [];
  source_ip = [];
  client_identity = [];
  failure_reason = [];
  request_id = [];
  namespace = [];
}

-- caFromDomain
unfoldable pub ca_from_domain : Ca → CaRecord
ca_from_domain x = record {
  id = x.id;
  parent_id = x.parent_id;
  name = x.name;
  type = x.type;
  common_name = x.subject.common_name;
  serial = x.serial;
  cert_pem = x.cert_pem;
  private_key_enc = x.private_key_enc;
  dek_enc = x.dek_enc;
  status = x.status;
  created_at = x.created_at;
  expires_at = x.expires_at;
  crl_next_update = x.crl_next_update;
}

-- caToDomain
unfoldable pub ca_to_domain : CaRecord → Ca
ca_to_domain x = record {
  id = x.id;
  parent_id = x.parent_id;
  name = x.name;
  type = x.type;
  subject = record {
    common_name = x.common_name;
    organization = [];
    organizational_unit = [];
    country = [];
  };
  serial = x.serial;
  cert_pem = x.cert_pem;
  private_key_enc = x.private_key_enc;
  dek_enc = x.dek_enc;
  status = x.status;
  created_at = x.created_at;
  expires_at = x.expires_at;
  crl_next_update = x.crl_next_update;
}

-- secretFromDomain
unfoldable pub secret_from_domain : SecretVersion → SecretRecord
secret_from_domain x = record {
  id = x.id;
  path = x.path;
  version = x.version;
  data_enc = x.data_enc;
  dek_enc = x.dek_enc;
  lease_id = x.lease_id;
  ttl_seconds = x.ttl_seconds;
  created_at = x.created_at;
  expires_at = x.expires_at;
  destroyed = x.destroyed;
}

-- secretToDomain
unfoldable pub secret_to_domain : SecretRecord → SecretVersion
secret_to_domain x = record {
  id = x.id;
  path = x.path;
  version = x.version;
  data_enc = x.data_enc;
  dek_enc = x.dek_enc;
  lease_id = x.lease_id;
  ttl_seconds = x.ttl_seconds;
  created_at = x.created_at;
  expires_at = x.expires_at;
  destroyed = x.destroyed;
  labels = [];
}

-- The record of a revocation, of Export
unfoldable pub revoked_from_domain : RevokedCertificate → RevokedRecord
revoked_from_domain x = record {
  serial = x.serial;
  ca_id = x.ca_id;
  revoked_at = x.revoked_at;
  reason = x.reason;
}

-- The revocation of a record, of Restore
unfoldable pub revoked_to_domain : RevokedRecord → RevokedCertificate
revoked_to_domain x = record {
  serial = x.serial;
  ca_id = x.ca_id;
  revoked_at = x.revoked_at;
  reason = x.reason;
}

-- leaseFromDomain
unfoldable pub lease_from_domain : Lease → LeaseRecord
lease_from_domain x = record {
  id = x.id;
  path = x.path;
  role_name = x.role_name;
  engine = x.engine;
  ttl_seconds = x.ttl_seconds;
  created_at = x.created_at;
  expires_at = x.expires_at;
  revoked_at = x.revoked_at;
  renewable = x.renewable;
}

-- leaseToDomain
unfoldable pub lease_to_domain : LeaseRecord → Lease
lease_to_domain x = record {
  id = x.id;
  path = x.path;
  role_name = x.role_name;
  engine = x.engine;
  ttl_seconds = x.ttl_seconds;
  created_at = x.created_at;
  expires_at = x.expires_at;
  revoked_at = x.revoked_at;
  renewable = x.renewable;
  token_id = [];
  metadata = [];
}

-- issuedFromDomain
unfoldable pub issued_from_domain : IssuedCertificate → IssuedCertRecord
issued_from_domain x = record {
  id = x.id;
  ca_id = x.ca_id;
  role = x.role;
  serial = x.serial;
  common_name = x.common_name;
  dns_names = x.dns_names;
  ttl_seconds = x.ttl_seconds;
  issued_at = x.issued_at;
  expires_at = x.expires_at;
  auto_renew = x.auto_renew;
  renewed_from_serial = x.renewed_from_serial;
}

-- issuedToDomain
unfoldable pub issued_to_domain : IssuedCertRecord → IssuedCertificate
issued_to_domain x = record {
  id = x.id;
  ca_id = x.ca_id;
  role = x.role;
  serial = x.serial;
  common_name = x.common_name;
  dns_names = x.dns_names;
  ttl_seconds = x.ttl_seconds;
  issued_at = x.issued_at;
  expires_at = x.expires_at;
  auto_renew = x.auto_renew;
  renewed_from_serial = x.renewed_from_serial;
}

-- auditFromDomain
unfoldable pub audit_from_domain : AuditEntry → AuditRecord
audit_from_domain x = record {
  timestamp = x.timestamp;
  actor = x.actor;
  action = x.action;
  resource = x.resource;
  status = x.status;
  details = x.details;
  hash = x.hash;
}

-- auditToDomain
unfoldable pub audit_to_domain : AuditRecord → AuditEntry
audit_to_domain x = record {
  id = 0;
  timestamp = x.timestamp;
  actor = x.actor;
  action = x.action;
  resource = x.resource;
  status = x.status;
  details = x.details;
  hash = x.hash;
  signature = [];
  auth = no_auth;
}
