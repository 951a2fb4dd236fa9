-- ===== src/Raft/SecretHandlers.antt =====
-- The handlers of internal/raft/handlers.go for secrets, leases, database and SSH roles and rotation policies.
use knxvault.Prelude.{Text}
use knxvault.Errors.{ok}
use knxvault.Repos.DatabaseRoles as DatabaseRoles
use knxvault.Secrets.Leases as Leases
use knxvault.Repos.RotationPolicies as RotationPolicies
use knxvault.Secrets.Store as Secrets
use knxvault.Repos.SshRoles as SshRoles
use knxvault.Secrets.Engine.Listing.{list_by_path}
use knxvault.Raft.Values.{
  id_request, name_request, path_request, prefix_request, version_request, dek_request, put_request,
  before_request, revoke_request, secret_value, secrets_value, lease_value, leases_value,
  db_role_value, db_roles_value, ssh_role_value, ssh_roles_value, rotation_value, rotations_value,
  number_value,
}
use knxvault.Raft.Store.{Store}
use knxvault.Raft.Reply.{Library, Local, Reply, with_payload, answer, change, wrote, answered}
pub mod Valid

module _ (lib : Library) (local : Local) where
  -- handleSecretSaveVersion
  unfoldable pub handle_secret_save_version : Store → Text → Reply
  unfolding Secrets.save_version
  handle_secret_save_version s payload =
      change lib secret_value payload s
        (λ x. wrote (λ t. record s { secrets = t }) (Secrets.save_version s.secrets x))

  -- handleSecretPut
  unfoldable pub handle_secret_put : Store → Text → Reply
  unfolding Secrets.put_atomic
  handle_secret_put s payload = change lib put_request payload s (λ x.
      answered (λ t. record s { secrets = t }) number_value
        (Secrets.put_atomic s.secrets x.secret_version x.cas_version x.max_versions))

  -- handleSecretGetLatest
  unfoldable pub handle_secret_get_latest : Store → Text → Reply
  unfolding Secrets.get_latest
  handle_secret_get_latest s payload = (
    s,
    with_payload lib path_request payload
        (λ x. answer secret_value (Secrets.get_latest s.secrets x)),
  )

  -- handleSecretGetVersion
  unfoldable pub handle_secret_get_version : Store → Text → Reply
  unfolding Secrets.get_version
  handle_secret_get_version s payload = (
    s,
    with_payload lib version_request payload
        (λ x. answer secret_value (Secrets.get_version s.secrets x.0 x.1)),
  )

  -- handleSecretListByPath
  unfoldable pub handle_secret_list_by_path : Store → Text → Reply
  unfolding list_by_path
  handle_secret_list_by_path s payload = (
    s,
    with_payload lib prefix_request payload
        (λ x. answer secrets_value (ok (list_by_path s.secrets x))),
  )

  -- handleSecretNextVersion
  unfoldable pub handle_secret_next_version : Store → Text → Reply
  unfolding Secrets.next_version
  handle_secret_next_version s payload = (
    s,
    with_payload lib path_request payload
        (λ x. answer number_value (ok (Secrets.next_version s.secrets x))),
  )

  -- handleSecretDestroyVer
  unfoldable pub handle_secret_destroy_ver : Store → Text → Reply
  unfolding Secrets.destroy_version
  handle_secret_destroy_ver s payload =
      change lib version_request payload s
        (λ x. wrote (λ t. record s { secrets = t }) (Secrets.destroy_version s.secrets x.0 x.1))

  -- handleSecretUpdateDEKEnc
  unfoldable pub handle_secret_update_dek_enc : Store → Text → Reply
  unfolding Secrets.update_dek_enc
  handle_secret_update_dek_enc s payload =
      change lib dek_request payload s
        (λ x. wrote (λ t. record s { secrets = t }) (Secrets.update_dek_enc s.secrets x.0 x.1 x.2))

  -- handleLeaseSave
  unfoldable pub handle_lease_save : Store → Text → Reply
  unfolding Leases.save
  handle_lease_save s payload =
      change lib lease_value payload s
        (λ x. wrote (λ t. record s { leases = t }) (Leases.save s.leases x))

  -- handleLeaseGet
  unfoldable pub handle_lease_get : Store → Text → Reply
  unfolding Leases.get
  handle_lease_get s payload =
      (s, with_payload lib id_request payload (λ x. answer lease_value (Leases.get s.leases x)))

  -- handleLeaseList
  unfoldable pub handle_lease_list : Store → Text → Reply
  unfolding Leases.list_leases
  handle_lease_list s payload = (s, answer leases_value (ok (Leases.list_leases s.leases)))

  -- handleLeaseListExpired
  unfoldable pub handle_lease_list_expired : Store → Text → Reply
  unfolding Leases.list_expired
  handle_lease_list_expired s payload = (
    s,
    with_payload lib before_request payload
        (λ x. answer leases_value (ok (Leases.list_expired s.leases x.0 x.1))),
  )

  -- handleLeaseRevoke
  unfoldable pub handle_lease_revoke : Store → Text → Reply
  unfolding Leases.revoke
  handle_lease_revoke s payload =
      change lib revoke_request payload s
        (λ x. wrote (λ t. record s { leases = t }) (Leases.revoke s.leases x.0 x.1))

  -- handleLeaseCountActive
  unfoldable pub handle_lease_count_active : Store → Text → Reply
  unfolding Leases.count_active
  handle_lease_count_active s payload =
      (s, answer number_value (ok (Leases.count_active s.leases local.now)))

  -- handleDBRoleSave
  unfoldable pub handle_db_role_save : Store → Text → Reply
  unfolding DatabaseRoles.save
  handle_db_role_save s payload = change lib db_role_value payload s (λ x.
      wrote (λ t. record s { db_roles = t }) (DatabaseRoles.save lib.url_password s.db_roles x))

  -- handleDBRoleGet
  unfoldable pub handle_db_role_get : Store → Text → Reply
  unfolding DatabaseRoles.get
  handle_db_role_get s payload = (
    s,
    with_payload lib name_request payload
        (λ x. answer db_role_value (DatabaseRoles.get s.db_roles x)),
  )

  -- handleDBRoleList
  unfoldable pub handle_db_role_list : Store → Text → Reply
  unfolding DatabaseRoles.list
  handle_db_role_list s payload = (s, answer db_roles_value (ok (DatabaseRoles.list s.db_roles)))

  -- handleDBRoleDelete
  unfoldable pub handle_db_role_delete : Store → Text → Reply
  unfolding DatabaseRoles.delete
  handle_db_role_delete s payload =
      change lib name_request payload s
        (λ x. wrote (λ t. record s { db_roles = t }) (DatabaseRoles.delete s.db_roles x))

  -- handleSSHRoleSave
  unfoldable pub handle_ssh_role_save : Store → Text → Reply
  unfolding SshRoles.save
  handle_ssh_role_save s payload =
      change lib ssh_role_value payload s
        (λ x. wrote (λ t. record s { ssh_roles = t }) (SshRoles.save s.ssh_roles x))

  -- handleSSHRoleGet
  unfoldable pub handle_ssh_role_get : Store → Text → Reply
  unfolding SshRoles.get
  handle_ssh_role_get s payload = (
    s,
    with_payload lib name_request payload (λ x. answer ssh_role_value (SshRoles.get s.ssh_roles x)),
  )

  -- handleSSHRoleList
  unfoldable pub handle_ssh_role_list : Store → Text → Reply
  unfolding SshRoles.list
  handle_ssh_role_list s payload = (s, answer ssh_roles_value (ok (SshRoles.list s.ssh_roles)))

  -- handleSSHRoleDelete
  unfoldable pub handle_ssh_role_delete : Store → Text → Reply
  unfolding SshRoles.delete
  handle_ssh_role_delete s payload =
      change lib name_request payload s
        (λ x. wrote (λ t. record s { ssh_roles = t }) (SshRoles.delete s.ssh_roles x))

  -- handleRotationPolicySave
  unfoldable pub handle_rotation_policy_save : Store → Text → Reply
  unfolding RotationPolicies.save
  handle_rotation_policy_save s payload =
      change lib rotation_value payload s
        (λ x. wrote (λ t. record s { rotations = t }) (RotationPolicies.save s.rotations x))

  -- handleRotationPolicyGet
  unfoldable pub handle_rotation_policy_get : Store → Text → Reply
  unfolding RotationPolicies.get
  handle_rotation_policy_get s payload = (
    s,
    with_payload lib path_request payload
        (λ x. answer rotation_value (RotationPolicies.get s.rotations x)),
  )

  -- handleRotationPolicyList
  unfoldable pub handle_rotation_policy_list : Store → Text → Reply
  unfolding RotationPolicies.list
  handle_rotation_policy_list s payload =
      (s, answer rotations_value (ok (RotationPolicies.list s.rotations)))

  -- handleRotationPolicyDelete
  unfoldable pub handle_rotation_policy_delete : Store → Text → Reply
  unfolding RotationPolicies.delete
  handle_rotation_policy_delete s payload =
      change lib path_request payload s
        (λ x. wrote (λ t. record s { rotations = t }) (RotationPolicies.delete s.rotations x))
