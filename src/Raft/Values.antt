-- ===== src/Raft/Values.antt =====
-- What travels as JSON between the client and the state machine of internal/raft: commands, responses,
-- the payloads of commands and the data of responses. A struct with fields that the program fills by
-- name is a tuple of these fields.
use knxvault.Prelude.{ℕ, Bool, Option, List, Text}
use knxvault.Errors.{ErrorCode}
use knxvault.Auth.Policy.{Policy}
use knxvault.Auth.Roles.{Role}
use knxvault.Secrets.Store.{SecretVersion}
use knxvault.Secrets.Leases.{Lease}
use knxvault.Audit.Chain.{AuditEntry, ListOptions}
use knxvault.Repos.Cas.{Ca}
use knxvault.Repos.PkiRoles.{PkiRole}
use knxvault.Repos.IssuedCerts.{IssuedCertificate}
use knxvault.Repos.Revocations.{RevokedCertificate}
use knxvault.Repos.DatabaseRoles.{DatabaseRole}
use knxvault.Repos.SshRoles.{SshRole}
use knxvault.Repos.RotationPolicies.{RotationPolicy}
use knxvault.Repos.Identities.{MachineIdentity}
use knxvault.Repos.Tokens.{ClientToken}
use knxvault.Backup.Snapshot.{Snapshot}
use knxvault.Backup.Export.{ExportOptions}

-- Command
pub record Command : Type 0 where
  pub op : Text
  pub payload : Text

-- Response; `none` is the empty error code, and data that is not there.
pub record Response : Type 0 where
  pub error_code : Option ErrorCode
  pub message : Text
  pub content : Option Text

-- The payload of secret.put.
pub record PutRequest : Type 0 where
  pub secret_version : SecretVersion
  pub cas_version : Option ℕ
  pub max_versions : ℕ

-- The types that a text is read as.
pub data Kind : Type 0 where
  command_value response_value id_request name_request path_request prefix_request serial_request
        ca_id_request version_request dek_request put_request before_request revoke_request
        cert_request audit_options_value export_options_value ca_value cas_value secret_value
        secrets_value pki_role_value pki_roles_value entry_value entries_value revoked_value
        revoked_list_value lease_value leases_value policy_value policies_value role_value
        roles_value db_role_value db_roles_value ssh_role_value ssh_roles_value issued_value
        issued_list_value token_value tokens_value identity_value identities_value rotation_value
        rotations_value snapshot_value number_value text_value bool_value :
      Kind

abbrev pub Val : Kind → Type 0
Val command_value = Command
Val response_value = Response
Val id_request = Text
Val name_request = Text
Val path_request = Text
Val prefix_request = Text
Val serial_request = Text
Val ca_id_request = Text
Val version_request = Text × ℕ
Val dek_request = Text × ℕ × List ℕ
Val put_request = PutRequest
Val before_request = ℕ × ℕ
Val revoke_request = Text × ℕ
Val cert_request = Text × Text
Val audit_options_value = ListOptions
Val export_options_value = ExportOptions
Val ca_value = Ca
Val cas_value = List Ca
Val secret_value = SecretVersion
Val secrets_value = List SecretVersion
Val pki_role_value = PkiRole
Val pki_roles_value = List PkiRole
Val entry_value = AuditEntry
Val entries_value = List AuditEntry
Val revoked_value = RevokedCertificate
Val revoked_list_value = List RevokedCertificate
Val lease_value = Lease
Val leases_value = List Lease
Val policy_value = Policy
Val policies_value = List Policy
Val role_value = Role
Val roles_value = List Role
Val db_role_value = DatabaseRole
Val db_roles_value = List DatabaseRole
Val ssh_role_value = SshRole
Val ssh_roles_value = List SshRole
Val issued_value = IssuedCertificate
Val issued_list_value = List IssuedCertificate
Val token_value = ClientToken
Val tokens_value = List ClientToken
Val identity_value = MachineIdentity
Val identities_value = List MachineIdentity
Val rotation_value = RotationPolicy
Val rotations_value = List RotationPolicy
Val snapshot_value = Snapshot
Val number_value = ℕ
Val text_value = Text
Val bool_value = Bool

-- encoding/json on these types: Unmarshal, with `none` where it refuses a text, Marshal, and the text of
-- the error of an Unmarshal.
pub record Json : Type 0 where
  pub decode : (k : Kind) → Text → Option (Val k)
  pub encode : (k : Kind) → Val k → Text
  pub complaint : (k : Kind) → Text → Text

-- The data of a handler, before it is encoded; `none` is nil.
abbrev pub Any : Type 0
Any = Option ((k : Kind) × Val k)
