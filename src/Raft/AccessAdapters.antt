-- ===== src/Raft/AccessAdapters.antt =====
-- The repositories of internal/repository/dragonboat/repo.go for audit entries, policies, roles, tokens and machine identities.
-- A read that leaves its variable at the zero value gives `none`.
use knxvault.Prelude.{ℕ, Option, none, some, Text}
use knxvault.Errors.{Result}
use knxvault.Audit.Chain.{AuditEntry}
use knxvault.Audit.Chain.{ListOptions}
use knxvault.Auth.Policy.{Policy}
use knxvault.Auth.Roles.{Role}
use knxvault.Repos.Tokens.{ClientToken}
use knxvault.Repos.Identities.{MachineIdentity}
use knxvault.Repos.{Outcome}
use knxvault.Raft.Ops.{
  op_audit_append, op_audit_latest_hash, op_audit_list, op_machine_identity_get,
  op_machine_identity_list, op_machine_identity_revoke, op_machine_identity_save, op_policy_delete,
  op_policy_get, op_policy_list, op_policy_save, op_role_delete, op_role_get, op_role_list,
  op_role_save, op_token_get, op_token_list, op_token_list_expired, op_token_revoke, op_token_save,
}
use knxvault.Raft.Values.{
  Val, Json, audit_options_value, before_request, entries_value, entry_value, id_request,
  identities_value, identity_value, name_request, policies_value, policy_value, revoke_request,
  role_value, roles_value, text_value, token_value, tokens_value,
}
use knxvault.Raft.Store.{Store}
use knxvault.Raft.Client.{NodeHost, write, read}

module _ (json : Json) (node : NodeHost) where
  -- AuditRepository.Append
  unfoldable pub audit_append : Store → AuditEntry → Outcome Store (Unit {0})
  unfolding write
  audit_append s entry = write json node s op_audit_append (some (entry_value, entry))

  -- AuditRepository.List
  unfoldable pub audit_list : Store → ListOptions → Result (Option (Val entries_value))
  unfolding read
  audit_list s opts =
      read json node entries_value s op_audit_list (some (audit_options_value, opts))

  -- AuditRepository.LatestHash
  unfoldable pub audit_latest_hash : Store → Result (Option (Val text_value))
  unfolding read
  audit_latest_hash s = read json node text_value s op_audit_latest_hash none

  -- PolicyRepository.Save
  unfoldable pub policy_save : Store → Policy → Outcome Store (Unit {0})
  unfolding write
  policy_save s x = write json node s op_policy_save (some (policy_value, x))

  -- PolicyRepository.GetByName
  unfoldable pub policy_get_by_name : Store → Text → Result (Option (Val policy_value))
  unfolding read
  policy_get_by_name s name =
      read json node policy_value s op_policy_get (some (name_request, name))

  -- PolicyRepository.List
  unfoldable pub policy_list : Store → Result (Option (Val policies_value))
  unfolding read
  policy_list s = read json node policies_value s op_policy_list none

  -- PolicyRepository.Delete
  unfoldable pub policy_delete : Store → Text → Outcome Store (Unit {0})
  unfolding write
  policy_delete s name = write json node s op_policy_delete (some (name_request, name))

  -- RoleRepository.Save
  unfoldable pub role_save : Store → Role → Outcome Store (Unit {0})
  unfolding write
  role_save s x = write json node s op_role_save (some (role_value, x))

  -- RoleRepository.Get
  unfoldable pub role_get : Store → Text → Result (Option (Val role_value))
  unfolding read
  role_get s name = read json node role_value s op_role_get (some (name_request, name))

  -- RoleRepository.List
  unfoldable pub role_list : Store → Result (Option (Val roles_value))
  unfolding read
  role_list s = read json node roles_value s op_role_list none

  -- RoleRepository.Delete
  unfoldable pub role_delete : Store → Text → Outcome Store (Unit {0})
  unfolding write
  role_delete s name = write json node s op_role_delete (some (name_request, name))

  -- TokenRepository.Save
  unfoldable pub token_save : Store → ClientToken → Outcome Store (Unit {0})
  unfolding write
  token_save s x = write json node s op_token_save (some (token_value, x))

  -- TokenRepository.Get
  unfoldable pub token_get : Store → Text → Result (Option (Val token_value))
  unfolding read
  token_get s id = read json node token_value s op_token_get (some (id_request, id))

  -- TokenRepository.Revoke
  unfoldable pub token_revoke : Store → Text → ℕ → Outcome Store (Unit {0})
  unfolding write
  token_revoke s id revoked_at =
      write json node s op_token_revoke (some (revoke_request, (id, revoked_at)))

  -- TokenRepository.List
  unfoldable pub token_list : Store → Result (Option (Val tokens_value))
  unfolding read
  token_list s = read json node tokens_value s op_token_list none

  -- TokenRepository.ListExpired
  unfoldable pub token_list_expired : Store → ℕ → ℕ → Result (Option (Val tokens_value))
  unfolding read
  token_list_expired s before limit =
      read json node tokens_value s op_token_list_expired (some (before_request, (before, limit)))

  -- MachineIdentityRepository.Save
  unfoldable pub machine_identity_save : Store → MachineIdentity → Outcome Store (Unit {0})
  unfolding write
  machine_identity_save s x = write json node s op_machine_identity_save (some (identity_value, x))

  -- MachineIdentityRepository.Get
  unfoldable pub machine_identity_get : Store → Text → Result (Option (Val identity_value))
  unfolding read
  machine_identity_get s id =
      read json node identity_value s op_machine_identity_get (some (id_request, id))

  -- MachineIdentityRepository.List
  unfoldable pub machine_identity_list : Store → Result (Option (Val identities_value))
  unfolding read
  machine_identity_list s = read json node identities_value s op_machine_identity_list none

  -- MachineIdentityRepository.Revoke
  unfoldable pub machine_identity_revoke : Store → Text → Outcome Store (Unit {0})
  unfolding write
  machine_identity_revoke s id =
      write json node s op_machine_identity_revoke (some (id_request, id))
