-- ===== src/Raft/SecretsAdapters.antt =====
-- The repositories of internal/repository/dragonboat/repo.go for authorities, secrets, leases, certificates and their roles.
-- A read that leaves its variable at the zero value gives `none`.
use knxvault.Prelude.{ℕ, Option, none, some, List, Text}
use knxvault.Errors.{Result}
use knxvault.Repos.Cas.{Ca}
use knxvault.Secrets.Store.{SecretVersion}
use knxvault.Repos.Revocations.{RevokedCertificate}
use knxvault.Repos.PkiRoles.{PkiRole}
use knxvault.Secrets.Leases.{Lease}
use knxvault.Repos.DatabaseRoles.{DatabaseRole}
use knxvault.Repos.SshRoles.{SshRole}
use knxvault.Repos.IssuedCerts.{IssuedCertificate}
use knxvault.Repos.RotationPolicies.{RotationPolicy}
use knxvault.Repos.{Outcome}
use knxvault.Raft.Ops.{
  op_ca_get_by_id, op_ca_get_by_name, op_ca_list, op_ca_save, op_db_role_delete, op_db_role_get,
  op_db_role_list, op_db_role_save, op_issued_get_by_serial, op_issued_list,
  op_issued_list_expiring, op_issued_save, op_lease_count_active, op_lease_get, op_lease_list,
  op_lease_list_expired, op_lease_revoke, op_lease_save, op_pki_role_get, op_pki_role_list,
  op_pki_role_save, op_revoke_is, op_revoke_list_by_ca, op_revoke_save, op_rotation_policy_delete,
  op_rotation_policy_get, op_rotation_policy_list, op_rotation_policy_save, op_secret_destroy_ver,
  op_secret_get_latest, op_secret_get_version, op_secret_list_by_path, op_secret_next_version,
  op_secret_put, op_secret_save_version, op_secret_update_dek_enc, op_ssh_role_delete,
  op_ssh_role_get, op_ssh_role_list, op_ssh_role_save,
}
use knxvault.Raft.Values.{
  Val, Json, PutRequest, before_request, bool_value, ca_id_request, ca_value, cas_value,
  cert_request, db_role_value, db_roles_value, dek_request, id_request, issued_list_value,
  issued_value, lease_value, leases_value, name_request, number_value, path_request, pki_role_value,
  pki_roles_value, prefix_request, put_request, revoke_request, revoked_list_value, revoked_value,
  rotation_value, rotations_value, secret_value, secrets_value, serial_request, ssh_role_value,
  ssh_roles_value, version_request,
}
use knxvault.Raft.Store.{Store}
use knxvault.Raft.Client.{NodeHost, write, write_result, read}

abbrev pub put_payload : SecretVersion → Option ℕ → ℕ → PutRequest
put_payload sv cas_version max_versions = record {
  secret_version = sv;
  cas_version = cas_version;
  max_versions = max_versions;
}

module _ (json : Json) (node : NodeHost) where
  -- CARepository.Save
  unfoldable pub ca_save : Store → Ca → Outcome Store (Unit {0})
  unfolding write
  ca_save s ca = write json node s op_ca_save (some (ca_value, ca))

  -- CARepository.GetByID
  unfoldable pub ca_get_by_id : Store → Text → Result (Option (Val ca_value))
  unfolding read
  ca_get_by_id s id = read json node ca_value s op_ca_get_by_id (some (id_request, id))

  -- CARepository.GetByName
  unfoldable pub ca_get_by_name : Store → Text → Result (Option (Val ca_value))
  unfolding read
  ca_get_by_name s name = read json node ca_value s op_ca_get_by_name (some (name_request, name))

  -- CARepository.List
  unfoldable pub ca_list : Store → Result (Option (Val cas_value))
  unfolding read
  ca_list s = read json node cas_value s op_ca_list none

  -- SecretRepository.SaveVersion
  unfoldable pub secret_save_version : Store → SecretVersion → Outcome Store (Unit {0})
  unfolding write
  secret_save_version s sv = write json node s op_secret_save_version (some (secret_value, sv))

  -- SecretRepository.UpdateDEKEnc
  unfoldable pub secret_update_dek_enc : Store → Text → ℕ → List ℕ → Outcome Store (Unit {0})
  unfolding write
  secret_update_dek_enc s path version dek_enc =
      write json node s op_secret_update_dek_enc (some (dek_request, (path, version, dek_enc)))

  -- SecretRepository.GetLatest
  unfoldable pub secret_get_latest : Store → Text → Result (Option (Val secret_value))
  unfolding read
  secret_get_latest s path =
      read json node secret_value s op_secret_get_latest (some (path_request, path))

  -- SecretRepository.GetVersion
  unfoldable pub secret_get_version : Store → Text → ℕ → Result (Option (Val secret_value))
  unfolding read
  secret_get_version s path version =
      read json node secret_value s op_secret_get_version (some (version_request, (path, version)))

  -- SecretRepository.ListByPath
  unfoldable pub secret_list_by_path : Store → Text → Result (Option (Val secrets_value))
  unfolding read
  secret_list_by_path s prefix =
      read json node secrets_value s op_secret_list_by_path (some (prefix_request, prefix))

  -- SecretRepository.NextVersion
  unfoldable pub secret_next_version : Store → Text → Result (Option (Val number_value))
  unfolding read
  secret_next_version s path =
      read json node number_value s op_secret_next_version (some (path_request, path))

  -- SecretRepository.PutAtomic
  unfoldable pub secret_put :
      Store → SecretVersion → Option ℕ → ℕ → Outcome Store (Option (Val number_value))
  unfolding write_result
  secret_put s sv cas_version max_versions =
      write_result json node number_value s op_secret_put
        (some (put_request, put_payload sv cas_version max_versions))

  -- SecretRepository.DestroyVersion
  unfoldable pub secret_destroy_version : Store → Text → ℕ → Outcome Store (Unit {0})
  unfolding write
  secret_destroy_version s path version =
      write json node s op_secret_destroy_ver (some (version_request, (path, version)))

  -- PKIRoleRepository.Save
  unfoldable pub pki_role_save : Store → PkiRole → Outcome Store (Unit {0})
  unfolding write
  pki_role_save s x = write json node s op_pki_role_save (some (pki_role_value, x))

  -- PKIRoleRepository.Get
  unfoldable pub pki_role_get : Store → Text → Result (Option (Val pki_role_value))
  unfolding read
  pki_role_get s name = read json node pki_role_value s op_pki_role_get (some (name_request, name))

  -- PKIRoleRepository.List
  unfoldable pub pki_role_list : Store → Result (Option (Val pki_roles_value))
  unfolding read
  pki_role_list s = read json node pki_roles_value s op_pki_role_list none

  -- RevocationRepository.Revoke
  unfoldable pub revoke : Store → RevokedCertificate → Outcome Store (Unit {0})
  unfolding write
  revoke s cert = write json node s op_revoke_save (some (revoked_value, cert))

  -- RevocationRepository.IsRevoked
  unfoldable pub is_revoked : Store → Text → Result (Option (Val bool_value))
  unfolding read
  is_revoked s serial = read json node bool_value s op_revoke_is (some (serial_request, serial))

  -- RevocationRepository.ListByCA
  unfoldable pub revoked_list_by_ca : Store → Text → Result (Option (Val revoked_list_value))
  unfolding read
  revoked_list_by_ca s ca_id =
      read json node revoked_list_value s op_revoke_list_by_ca (some (ca_id_request, ca_id))

  -- LeaseRepository.Save
  unfoldable pub lease_save : Store → Lease → Outcome Store (Unit {0})
  unfolding write
  lease_save s x = write json node s op_lease_save (some (lease_value, x))

  -- LeaseRepository.Get
  unfoldable pub lease_get : Store → Text → Result (Option (Val lease_value))
  unfolding read
  lease_get s id = read json node lease_value s op_lease_get (some (id_request, id))

  -- LeaseRepository.List
  unfoldable pub lease_list : Store → Result (Option (Val leases_value))
  unfolding read
  lease_list s = read json node leases_value s op_lease_list none

  -- LeaseRepository.ListExpired
  unfoldable pub lease_list_expired : Store → ℕ → ℕ → Result (Option (Val leases_value))
  unfolding read
  lease_list_expired s before limit =
      read json node leases_value s op_lease_list_expired (some (before_request, (before, limit)))

  -- LeaseRepository.Revoke
  unfoldable pub lease_revoke : Store → Text → ℕ → Outcome Store (Unit {0})
  unfolding write
  lease_revoke s id revoked_at =
      write json node s op_lease_revoke (some (revoke_request, (id, revoked_at)))

  -- LeaseRepository.CountActive
  unfoldable pub lease_count_active : Store → Result (Option (Val number_value))
  unfolding read
  lease_count_active s = read json node number_value s op_lease_count_active none

  -- DatabaseRoleRepository.Save
  unfoldable pub db_role_save : Store → DatabaseRole → Outcome Store (Unit {0})
  unfolding write
  db_role_save s x = write json node s op_db_role_save (some (db_role_value, x))

  -- DatabaseRoleRepository.Get
  unfoldable pub db_role_get : Store → Text → Result (Option (Val db_role_value))
  unfolding read
  db_role_get s name = read json node db_role_value s op_db_role_get (some (name_request, name))

  -- DatabaseRoleRepository.List
  unfoldable pub db_role_list : Store → Result (Option (Val db_roles_value))
  unfolding read
  db_role_list s = read json node db_roles_value s op_db_role_list none

  -- DatabaseRoleRepository.Delete
  unfoldable pub db_role_delete : Store → Text → Outcome Store (Unit {0})
  unfolding write
  db_role_delete s name = write json node s op_db_role_delete (some (name_request, name))

  -- SSHRoleRepository.Save
  unfoldable pub ssh_role_save : Store → SshRole → Outcome Store (Unit {0})
  unfolding write
  ssh_role_save s x = write json node s op_ssh_role_save (some (ssh_role_value, x))

  -- SSHRoleRepository.Get
  unfoldable pub ssh_role_get : Store → Text → Result (Option (Val ssh_role_value))
  unfolding read
  ssh_role_get s name = read json node ssh_role_value s op_ssh_role_get (some (name_request, name))

  -- SSHRoleRepository.List
  unfoldable pub ssh_role_list : Store → Result (Option (Val ssh_roles_value))
  unfolding read
  ssh_role_list s = read json node ssh_roles_value s op_ssh_role_list none

  -- SSHRoleRepository.Delete
  unfoldable pub ssh_role_delete : Store → Text → Outcome Store (Unit {0})
  unfolding write
  ssh_role_delete s name = write json node s op_ssh_role_delete (some (name_request, name))

  -- IssuedCertRepository.Save
  unfoldable pub issued_save : Store → IssuedCertificate → Outcome Store (Unit {0})
  unfolding write
  issued_save s x = write json node s op_issued_save (some (issued_value, x))

  -- IssuedCertRepository.GetBySerial
  unfoldable pub issued_get_by_serial : Store → Text → Text → Result (Option (Val issued_value))
  unfolding read
  issued_get_by_serial s ca_id serial =
      read json node issued_value s op_issued_get_by_serial (some (cert_request, (ca_id, serial)))

  -- IssuedCertRepository.List
  unfoldable pub issued_list : Store → Result (Option (Val issued_list_value))
  unfolding read
  issued_list s = read json node issued_list_value s op_issued_list none

  -- IssuedCertRepository.ListExpiring
  unfoldable pub issued_list_expiring : Store → ℕ → ℕ → Result (Option (Val issued_list_value))
  unfolding read
  issued_list_expiring s before limit =
      read json node issued_list_value s op_issued_list_expiring
        (some (before_request, (before, limit)))

  -- RotationPolicyRepository.Save
  unfoldable pub rotation_policy_save : Store → RotationPolicy → Outcome Store (Unit {0})
  unfolding write
  rotation_policy_save s x = write json node s op_rotation_policy_save (some (rotation_value, x))

  -- RotationPolicyRepository.Get
  unfoldable pub rotation_policy_get : Store → Text → Result (Option (Val rotation_value))
  unfolding read
  rotation_policy_get s path =
      read json node rotation_value s op_rotation_policy_get (some (path_request, path))

  -- RotationPolicyRepository.List
  unfoldable pub rotation_policy_list : Store → Result (Option (Val rotations_value))
  unfolding read
  rotation_policy_list s = read json node rotations_value s op_rotation_policy_list none

  -- RotationPolicyRepository.Delete
  unfoldable pub rotation_policy_delete : Store → Text → Outcome Store (Unit {0})
  unfolding write
  rotation_policy_delete s path =
      write json node s op_rotation_policy_delete (some (path_request, path))
