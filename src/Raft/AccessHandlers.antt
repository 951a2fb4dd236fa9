-- ===== src/Raft/AccessHandlers.antt =====
-- The handlers of internal/raft/handlers.go for policies, roles, tokens, identities, the audit log and snapshots.
use knxvault.Prelude.{false, none, some, Text, is_empty, if◌then◌else◌, ◌==◌}
use knxvault.Errors.{ok, err, fail, internal}
use knxvault.Audit.Chain as Audit
use knxvault.Repos.Identities as Identities
use knxvault.Repos.Policies as Policies
use knxvault.Repos.Roles as Roles
use knxvault.Repos.Tokens as Tokens
use knxvault.Audit.Chain.{AuditEntry, AuditRepository}
use knxvault.Repos.{Outcome}
use knxvault.Raft.Values.{
  id_request, name_request, before_request, revoke_request, audit_options_value,
  export_options_value, entry_value, entries_value, policy_value, policies_value, role_value,
  roles_value, token_value, tokens_value, identity_value, identities_value, snapshot_value,
  text_value,
}
use knxvault.Raft.Store.{Store, import_snapshot, export_store}
use knxvault.Raft.Reply.{
  Library, Local, restore_env, Reply, with_payload, answer, change, wrote, answered,
}
pub mod Valid

-- The entry as Append leaves it to its caller, with its number.
abbrev pub numbered :
    AuditRepository
    → AuditEntry
    → Outcome AuditRepository (Unit {0})
    → Outcome AuditRepository AuditEntry
numbered r entry (left, ok _) = (left, ok (record entry { id = r.next_id }))
numbered r entry (left, err e) = (left, err e)

unfoldable pub appended : AuditRepository → AuditEntry → Outcome AuditRepository AuditEntry
unfolding Audit.append
appended r entry = numbered r entry (Audit.append r entry)

module _ (lib : Library) (local : Local) where
  -- An entry with a time: its own, or the time of the call.
  unfoldable pub stamped : AuditEntry → AuditEntry
  stamped entry = if entry.timestamp == 0 then record entry { timestamp = local.now } else entry

  -- An entry with the hash that follows the last one.
  unfoldable pub with_hash : AuditRepository → AuditEntry → AuditEntry
  unfolding Audit.latest_hash Audit.compute_hash
  with_hash r entry = record entry {
    hash =
        Audit.compute_hash lib.audit (Audit.latest_hash r) entry.actor entry.action entry.resource
          entry.status entry.details entry.timestamp;
  }

  -- handleAuditAppend
  unfoldable pub handle_audit_append : Store → Text → Reply
  unfolding with_hash stamped appended
  handle_audit_append s payload = change lib entry_value payload s (λ x.
      let entry = with_hash s.audit (stamped x) in
      answered (λ t. record s { audit = t }) entry_value (appended s.audit entry))

  -- handleAuditList
  unfoldable pub handle_audit_list : Store → Text → Reply
  unfolding Audit.list_entries
  handle_audit_list s payload = (
    s,
    with_payload lib audit_options_value payload
        (λ x. answer entries_value (ok (Audit.list_entries s.audit x))),
  )

  -- handleAuditLatestHash
  unfoldable pub handle_audit_latest_hash : Store → Text → Reply
  unfolding Audit.latest_hash
  handle_audit_latest_hash s payload = (s, answer text_value (ok (Audit.latest_hash s.audit)))

  -- handlePolicySave
  unfoldable pub handle_policy_save : Store → Text → Reply
  unfolding Policies.save
  handle_policy_save s payload = change lib policy_value payload s (λ x.
      answered (λ t. record s { policies = t }) policy_value
        (Policies.save (local.new_uuid 0) s.policies x))

  -- handlePolicyGet
  unfoldable pub handle_policy_get : Store → Text → Reply
  unfolding Policies.get_by_name
  handle_policy_get s payload = (
    s,
    with_payload lib name_request payload
        (λ x. answer policy_value (Policies.get_by_name s.policies x)),
  )

  -- handlePolicyList
  unfoldable pub handle_policy_list : Store → Text → Reply
  unfolding Policies.list
  handle_policy_list s payload = (s, answer policies_value (ok (Policies.list s.policies)))

  -- handlePolicyDelete
  unfoldable pub handle_policy_delete : Store → Text → Reply
  unfolding Policies.delete
  handle_policy_delete s payload =
      change lib name_request payload s
        (λ x. wrote (λ t. record s { policies = t }) (Policies.delete s.policies x))

  -- handleRoleSave
  unfoldable pub handle_role_save : Store → Text → Reply
  unfolding Roles.save
  handle_role_save s payload =
      change lib role_value payload s
        (λ x. wrote (λ t. record s { roles = t }) (Roles.save s.roles x))

  -- handleRoleGet
  unfoldable pub handle_role_get : Store → Text → Reply
  unfolding Roles.get
  handle_role_get s payload =
      (s, with_payload lib name_request payload (λ x. answer role_value (Roles.get s.roles x)))

  -- handleRoleList
  unfoldable pub handle_role_list : Store → Text → Reply
  unfolding Roles.list
  handle_role_list s payload = (s, answer roles_value (ok (Roles.list s.roles)))

  -- handleRoleDelete
  unfoldable pub handle_role_delete : Store → Text → Reply
  unfolding Roles.delete
  handle_role_delete s payload =
      change lib name_request payload s
        (λ x. wrote (λ t. record s { roles = t }) (Roles.delete s.roles x))

  -- handleImportSnapshot
  unfoldable pub handle_import_snapshot : Store → Text → Reply
  unfolding import_snapshot
  handle_import_snapshot s payload =
      change lib snapshot_value payload s
        (λ x. wrote (λ t. t) (import_snapshot (restore_env lib local) s x))

  -- handleExportSnapshot
  unfoldable pub handle_export_snapshot : Store → Text → Reply
  unfolding export_store
  handle_export_snapshot s payload = (
    s,
    answer snapshot_value (
        if is_empty payload
        then ok (export_store s false local.now)
        else elim (lib.json.decode export_options_value payload) [
          | none ↦ fail internal (lib.json.complaint export_options_value payload)
          | some opts ↦ ok (export_store s opts.include_audit local.now)
        ]),
  )

  -- handleTokenSave
  unfoldable pub handle_token_save : Store → Text → Reply
  unfolding Tokens.save
  handle_token_save s payload =
      change lib token_value payload s
        (λ x. wrote (λ t. record s { tokens = t }) (Tokens.save s.tokens x))

  -- handleTokenGet
  unfoldable pub handle_token_get : Store → Text → Reply
  unfolding Tokens.get
  handle_token_get s payload =
      (s, with_payload lib id_request payload (λ x. answer token_value (Tokens.get s.tokens x)))

  -- handleTokenRevoke
  unfoldable pub handle_token_revoke : Store → Text → Reply
  unfolding Tokens.revoke
  handle_token_revoke s payload =
      change lib revoke_request payload s
        (λ x. wrote (λ t. record s { tokens = t }) (Tokens.revoke s.tokens x.0 x.1))

  -- handleTokenList
  unfoldable pub handle_token_list : Store → Text → Reply
  unfolding Tokens.list
  handle_token_list s payload = (s, answer tokens_value (ok (Tokens.list s.tokens)))

  -- handleTokenListExpired
  unfoldable pub handle_token_list_expired : Store → Text → Reply
  unfolding Tokens.list_expired
  handle_token_list_expired s payload = (
    s,
    with_payload lib before_request payload
        (λ x. answer tokens_value (ok (Tokens.list_expired s.tokens x.0 x.1))),
  )

  -- handleMachineIdentitySave
  unfoldable pub handle_machine_identity_save : Store → Text → Reply
  unfolding Identities.save
  handle_machine_identity_save s payload =
      change lib identity_value payload s
        (λ x. wrote (λ t. record s { identities = t }) (Identities.save s.identities x))

  -- handleMachineIdentityGet
  unfoldable pub handle_machine_identity_get : Store → Text → Reply
  unfolding Identities.get
  handle_machine_identity_get s payload = (
    s,
    with_payload lib id_request payload
        (λ x. answer identity_value (Identities.get s.identities x)),
  )

  -- handleMachineIdentityList
  unfoldable pub handle_machine_identity_list : Store → Text → Reply
  unfolding Identities.list
  handle_machine_identity_list s payload =
      (s, answer identities_value (ok (Identities.list s.identities)))

  -- handleMachineIdentityRevoke
  unfoldable pub handle_machine_identity_revoke : Store → Text → Reply
  unfolding Identities.revoke
  handle_machine_identity_revoke s payload =
      change lib id_request payload s
        (λ x. wrote (λ t. record s { identities = t }) (Identities.revoke s.identities x))
