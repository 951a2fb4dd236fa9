-- ===== src/Raft/AccessHandlers/Valid.antt =====
-- The handlers of the policies, the roles, the tokens, the identities and the audit log keep the store well-formed.
use knxvault.Prelude.{Text}
use knxvault.Errors.{ok, err}
use knxvault.Audit.Chain.{AuditEntry, AuditRepository}
use knxvault.Audit.Chain as Audit
use knxvault.Audit.Chain.Numbered.{AuditValid, append-AuditValid}
use knxvault.Repos.{Outcome}
use knxvault.Repos.Kept.{
  delete-PoliciesValid, delete-RolesValid, save-IdentitiesValid, revoke-IdentitiesValid,
  revoke-TokensValid, save-PoliciesValid, save-RolesValid, save-TokensValid,
}
use knxvault.Repos.Identities as Identities
use knxvault.Repos.Policies as Policies
use knxvault.Repos.Roles as Roles
use knxvault.Repos.Tokens as Tokens
use knxvault.Raft.Values.{
  entry_value, id_request, identity_value, name_request, policy_value, revoke_request, role_value,
  snapshot_value, token_value,
}
use knxvault.Raft.Store.{Store, repos, import_snapshot}
use knxvault.Raft.Store.Valid.{
  StoreValid, import_snapshot-StoreValid, with_audit, with_policies, with_roles, with_tokens,
  with_identities,
}
use knxvault.Raft.Reply.{Library, Local, restore_env}
use knxvault.Raft.Reply.Split.{change-keeps, wrote-keeps}
use knxvault.Raft.AccessHandlers.{
  numbered, appended, with_hash, stamped, handle_audit_append, handle_policy_save,
  handle_policy_delete, handle_role_save, handle_role_delete, handle_import_snapshot,
  handle_token_save, handle_token_revoke, handle_machine_identity_save,
  handle_machine_identity_revoke,
}

numbered-keeps :
    (r : AuditRepository) (entry : AuditEntry) (o : Outcome AuditRepository (Unit {0}))
    → AuditValid o.0
    → AuditValid (numbered r entry o).0
numbered-keeps r entry (left, ok _) v = v
numbered-keeps r entry (left, err e) v = v

module _ (lib : Library) (local : Local) (s : Store) (payload : Text) where
  abbrev Valid : Store → Type 0
  Valid = StoreValid lib.url_password

  pub policy_save-Valid : Valid s → Valid (handle_policy_save lib local s payload).0
  unfolding handle_policy_save repos
  policy_save-Valid v = change-keeps lib policy_value payload s Valid _ v (λ x e.
      with_policies v (Policies.save (local.new_uuid 0) s.policies x).0
        (save-PoliciesValid (local.new_uuid 0) s.policies x v.repos.policies))

  pub policy_delete-Valid : Valid s → Valid (handle_policy_delete lib local s payload).0
  unfolding handle_policy_delete repos
  policy_delete-Valid v = change-keeps lib name_request payload s Valid _ v (λ x e.
      wrote-keeps Valid (λ t. record s { policies = t }) (Policies.delete s.policies x)
        (with_policies v (Policies.delete s.policies x).0
          (delete-PoliciesValid s.policies x v.repos.policies)))

  pub role_save-Valid : Valid s → Valid (handle_role_save lib local s payload).0
  unfolding handle_role_save repos
  role_save-Valid v = change-keeps lib role_value payload s Valid _ v (λ x e.
      wrote-keeps Valid (λ t. record s { roles = t }) (Roles.save s.roles x)
        (with_roles v (Roles.save s.roles x).0 (save-RolesValid s.roles x v.repos.roles)))

  pub role_delete-Valid : Valid s → Valid (handle_role_delete lib local s payload).0
  unfolding handle_role_delete repos
  role_delete-Valid v = change-keeps lib name_request payload s Valid _ v (λ x e.
      wrote-keeps Valid (λ t. record s { roles = t }) (Roles.delete s.roles x)
        (with_roles v (Roles.delete s.roles x).0 (delete-RolesValid s.roles x v.repos.roles)))

  pub token_save-Valid : Valid s → Valid (handle_token_save lib local s payload).0
  unfolding handle_token_save repos
  token_save-Valid v = change-keeps lib token_value payload s Valid _ v (λ x e.
      wrote-keeps Valid (λ t. record s { tokens = t }) (Tokens.save s.tokens x)
        (with_tokens v (Tokens.save s.tokens x).0 (save-TokensValid s.tokens x v.repos.tokens)))

  pub token_revoke-Valid : Valid s → Valid (handle_token_revoke lib local s payload).0
  unfolding handle_token_revoke repos
  token_revoke-Valid v = change-keeps lib revoke_request payload s Valid _ v (λ x e.
      wrote-keeps Valid (λ t. record s { tokens = t }) (Tokens.revoke s.tokens x.0 x.1)
        (with_tokens v (Tokens.revoke s.tokens x.0 x.1).0
          (revoke-TokensValid s.tokens x.0 x.1 v.repos.tokens)))

  pub machine_identity_save-Valid :
      Valid s → Valid (handle_machine_identity_save lib local s payload).0
  unfolding handle_machine_identity_save repos
  machine_identity_save-Valid v = change-keeps lib identity_value payload s Valid _ v (λ x e.
      wrote-keeps Valid (λ t. record s { identities = t }) (Identities.save s.identities x)
        (with_identities v (Identities.save s.identities x).0
          (save-IdentitiesValid s.identities x v.identities)))

  pub machine_identity_revoke-Valid :
      Valid s → Valid (handle_machine_identity_revoke lib local s payload).0
  unfolding handle_machine_identity_revoke repos
  machine_identity_revoke-Valid v = change-keeps lib id_request payload s Valid _ v (λ x e.
      wrote-keeps Valid (λ t. record s { identities = t }) (Identities.revoke s.identities x)
        (with_identities v (Identities.revoke s.identities x).0
          (revoke-IdentitiesValid s.identities x v.identities)))

  pub import_snapshot-Valid : Valid s → Valid (handle_import_snapshot lib local s payload).0
  unfolding handle_import_snapshot repos
  import_snapshot-Valid v = change-keeps lib snapshot_value payload s Valid _ v (λ x e.
      wrote-keeps Valid (λ t. t) (import_snapshot (restore_env lib local) s x)
        (import_snapshot-StoreValid (restore_env lib local) s x v))

  pub audit_append-Valid : Valid s → Valid (handle_audit_append lib local s payload).0
  unfolding handle_audit_append appended repos
  audit_append-Valid v = change-keeps lib entry_value payload s Valid _ v (λ x e.
      let entry = with_hash lib local s.audit (stamped lib local x) in
      with_audit v (appended s.audit entry).0 (
        numbered-keeps s.audit entry (Audit.append s.audit entry)
          (append-AuditValid s.audit entry v.repos.audit)))
