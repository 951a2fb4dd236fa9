-- ===== src/Raft/SecretHandlers/Valid.antt =====
-- The handlers of the secrets, the leases and the roles of dynamic secrets keep the store well-formed.
use knxvault.Prelude.{Text}
use knxvault.Secrets.Store as Secrets
use knxvault.Secrets.Store.Valid.{operations-IsValid}
use knxvault.Secrets.Leases.{Leases}
use knxvault.Secrets.Leases as Leases
use knxvault.Repos.Kept.{
  revoke-LeasesValid, delete-DatabaseRolesValid, delete-SshRolesValid, save-RotationsValid,
  delete-RotationsValid, save-LeasesValid, save-DatabaseRolesValid, save-SshRolesValid,
}
use knxvault.Repos.RotationPolicies as RotationPolicies
use knxvault.Repos.DatabaseRoles as DatabaseRoles
use knxvault.Repos.SshRoles as SshRoles
use knxvault.Raft.Values.{
  db_role_value, dek_request, lease_value, name_request, path_request, put_request, revoke_request,
  rotation_value, secret_value, ssh_role_value, version_request,
}
use knxvault.Raft.Store.{Store, repos}
use knxvault.Raft.Store.Valid.{
  StoreValid, with_secrets, with_leases, with_db_roles, with_ssh_roles, with_rotations,
}
use knxvault.Raft.Reply.{Library, Local}
use knxvault.Raft.Reply.Split.{change-keeps, wrote-keeps}
use knxvault.Raft.SecretHandlers.{
  handle_secret_save_version, handle_secret_put, handle_secret_destroy_ver,
  handle_secret_update_dek_enc, handle_lease_save, handle_lease_revoke, handle_db_role_save,
  handle_db_role_delete, handle_ssh_role_save, handle_ssh_role_delete, handle_rotation_policy_save,
  handle_rotation_policy_delete,
}

module _ (lib : Library) (local : Local) (s : Store) (payload : Text) where
  abbrev Valid : Store → Type 0
  Valid = StoreValid lib.url_password

  pub secret_save_version-Valid : Valid s → Valid (handle_secret_save_version lib local s payload).0
  unfolding handle_secret_save_version repos
  secret_save_version-Valid v = change-keeps lib secret_value payload s Valid _ v (λ x e.
      wrote-keeps Valid (λ t. record s { secrets = t }) (Secrets.save_version s.secrets x)
        (with_secrets v (Secrets.save_version s.secrets x).0
          ((operations-IsValid s.secrets v.repos.secrets).0 x)))

  pub secret_put-Valid : Valid s → Valid (handle_secret_put lib local s payload).0
  unfolding handle_secret_put repos
  secret_put-Valid v = change-keeps lib put_request payload s Valid _ v (λ x e.
      with_secrets v (Secrets.put_atomic s.secrets x.secret_version x.cas_version x.max_versions).0
        ((operations-IsValid s.secrets v.repos.secrets).1 x.secret_version x.cas_version
          x.max_versions))

  pub secret_update_dek_enc-Valid :
      Valid s → Valid (handle_secret_update_dek_enc lib local s payload).0
  unfolding handle_secret_update_dek_enc repos
  secret_update_dek_enc-Valid v = change-keeps lib dek_request payload s Valid _ v (λ x e.
      wrote-keeps Valid (λ t. record s { secrets = t })
        (Secrets.update_dek_enc s.secrets x.0 x.1 x.2)
        (with_secrets v (Secrets.update_dek_enc s.secrets x.0 x.1 x.2).0
          ((operations-IsValid s.secrets v.repos.secrets).2 x.0 x.1 x.2)))

  pub secret_destroy_ver-Valid : Valid s → Valid (handle_secret_destroy_ver lib local s payload).0
  unfolding handle_secret_destroy_ver repos
  secret_destroy_ver-Valid v = change-keeps lib version_request payload s Valid _ v (λ x e.
      wrote-keeps Valid (λ t. record s { secrets = t }) (Secrets.destroy_version s.secrets x.0 x.1)
        (with_secrets v (Secrets.destroy_version s.secrets x.0 x.1).0
          ((operations-IsValid s.secrets v.repos.secrets).3 x.0 x.1)))

  pub lease_save-Valid : Valid s → Valid (handle_lease_save lib local s payload).0
  unfolding handle_lease_save repos
  lease_save-Valid v = change-keeps lib lease_value payload s Valid _ v (λ x e.
      wrote-keeps Valid (λ t. record s { leases = t }) (Leases.save s.leases x)
        (with_leases v (Leases.save s.leases x).0 (save-LeasesValid s.leases x v.repos.leases)))

  pub lease_revoke-Valid : Valid s → Valid (handle_lease_revoke lib local s payload).0
  unfolding handle_lease_revoke repos
  lease_revoke-Valid v = change-keeps lib revoke_request payload s Valid _ v (λ x e.
      wrote-keeps Valid (λ t. record s { leases = t }) (Leases.revoke s.leases x.0 x.1)
        (with_leases v (Leases.revoke s.leases x.0 x.1).0
          (revoke-LeasesValid s.leases x.0 x.1 v.repos.leases)))

  pub db_role_save-Valid : Valid s → Valid (handle_db_role_save lib local s payload).0
  unfolding handle_db_role_save repos
  db_role_save-Valid v = change-keeps lib db_role_value payload s Valid _ v (λ x e.
      wrote-keeps Valid (λ t. record s { db_roles = t })
        (DatabaseRoles.save lib.url_password s.db_roles x)
        (with_db_roles v (DatabaseRoles.save lib.url_password s.db_roles x).0
          (save-DatabaseRolesValid lib.url_password s.db_roles x v.repos.db_roles)))

  pub db_role_delete-Valid : Valid s → Valid (handle_db_role_delete lib local s payload).0
  unfolding handle_db_role_delete repos
  db_role_delete-Valid v = change-keeps lib name_request payload s Valid _ v (λ x e.
      wrote-keeps Valid (λ t. record s { db_roles = t }) (DatabaseRoles.delete s.db_roles x)
        (with_db_roles v (DatabaseRoles.delete s.db_roles x).0
          (delete-DatabaseRolesValid lib.url_password s.db_roles x v.repos.db_roles)))

  pub ssh_role_save-Valid : Valid s → Valid (handle_ssh_role_save lib local s payload).0
  unfolding handle_ssh_role_save repos
  ssh_role_save-Valid v = change-keeps lib ssh_role_value payload s Valid _ v (λ x e.
      wrote-keeps Valid (λ t. record s { ssh_roles = t }) (SshRoles.save s.ssh_roles x)
        (with_ssh_roles v (SshRoles.save s.ssh_roles x).0
          (save-SshRolesValid s.ssh_roles x v.repos.ssh_roles)))

  pub ssh_role_delete-Valid : Valid s → Valid (handle_ssh_role_delete lib local s payload).0
  unfolding handle_ssh_role_delete repos
  ssh_role_delete-Valid v = change-keeps lib name_request payload s Valid _ v (λ x e.
      wrote-keeps Valid (λ t. record s { ssh_roles = t }) (SshRoles.delete s.ssh_roles x)
        (with_ssh_roles v (SshRoles.delete s.ssh_roles x).0
          (delete-SshRolesValid s.ssh_roles x v.repos.ssh_roles)))

  pub rotation_policy_save-Valid :
      Valid s → Valid (handle_rotation_policy_save lib local s payload).0
  unfolding handle_rotation_policy_save repos
  rotation_policy_save-Valid v = change-keeps lib rotation_value payload s Valid _ v (λ x e.
      wrote-keeps Valid (λ t. record s { rotations = t }) (RotationPolicies.save s.rotations x)
        (with_rotations v (RotationPolicies.save s.rotations x).0
          (save-RotationsValid s.rotations x v.rotations)))

  pub rotation_policy_delete-Valid :
      Valid s → Valid (handle_rotation_policy_delete lib local s payload).0
  unfolding handle_rotation_policy_delete repos
  rotation_policy_delete-Valid v = change-keeps lib path_request payload s Valid _ v (λ x e.
      wrote-keeps Valid (λ t. record s { rotations = t }) (RotationPolicies.delete s.rotations x)
        (with_rotations v (RotationPolicies.delete s.rotations x).0
          (delete-RotationsValid s.rotations x v.rotations)))
