-- ===== src/Raft/Machine/ReadOnly.antt =====
-- What the read path of the store can do, and what depends on the replica that applies a command.
use knxvault.Prelude.{◌≡◌, refl, inl, inr, true, false, Text, codes, Bool-cases, Option-cases}
use knxvault.Errors.{fail, validation}
use knxvault.Raft.Ops.{
  Op, op_ca_save, op_ca_get_by_id, op_ca_get_by_name, op_ca_list, op_secret_save_version,
  op_secret_put, op_secret_get_latest, op_secret_get_version, op_secret_list_by_path,
  op_secret_next_version, op_secret_destroy_ver, op_secret_update_dek_enc, op_pki_role_save,
  op_pki_role_get, op_pki_role_list, op_audit_append, op_audit_list, op_audit_latest_hash,
  op_revoke_save, op_revoke_is, op_revoke_list_by_ca, op_lease_save, op_lease_get, op_lease_list,
  op_lease_list_expired, op_lease_revoke, op_lease_count_active, op_policy_save, op_policy_get,
  op_policy_list, op_policy_delete, op_role_save, op_role_get, op_role_list, op_role_delete,
  op_db_role_save, op_db_role_get, op_db_role_list, op_db_role_delete, op_ssh_role_save,
  op_ssh_role_get, op_ssh_role_list, op_ssh_role_delete, op_issued_save, op_issued_get_by_serial,
  op_issued_list, op_issued_list_expiring, op_import_snapshot, op_export_snapshot, op_token_save,
  op_token_get, op_token_revoke, op_token_list, op_token_list_expired, op_machine_identity_save,
  op_machine_identity_get, op_machine_identity_list, op_machine_identity_revoke,
  op_rotation_policy_save, op_rotation_policy_get, op_rotation_policy_list,
  op_rotation_policy_delete, op_of, read_only, is_read_only_op,
}
use knxvault.Raft.Values.{Command}
use knxvault.Raft.Store.{Store}
use knxvault.Raft.Reply.{Library, Local}
use knxvault.Raft.PkiHandlers.{
  handle_ca_get_by_id, handle_ca_get_by_name, handle_ca_list, handle_pki_role_get,
  handle_pki_role_list, handle_revoke_is, handle_revoke_list_by_ca, handle_issued_get_by_serial,
  handle_issued_list, handle_issued_list_expiring,
}
use knxvault.Raft.SecretHandlers.{
  handle_secret_get_latest, handle_secret_get_version, handle_secret_list_by_path,
  handle_secret_next_version, handle_lease_get, handle_lease_list, handle_lease_list_expired,
  handle_lease_count_active, handle_db_role_get, handle_db_role_list, handle_ssh_role_get,
  handle_ssh_role_list, handle_rotation_policy_get, handle_rotation_policy_list,
}
use knxvault.Raft.AccessHandlers.{
  handle_audit_list, handle_audit_latest_hash, handle_policy_get, handle_policy_list,
  handle_role_get, handle_role_list, handle_export_snapshot, handle_token_get, handle_token_list,
  handle_token_list_expired, handle_machine_identity_get, handle_machine_identity_list,
}
use knxvault.Raft.Machine.{store_handler, run, response_of, handle, lookup_store}

module _ (lib : Library) (local : Local) where
  -- The handler of a read-only operation leaves the store.
  store_handler-unchanged :
      (op : Op) (s : Store) (payload : Text)
      → read_only op ≡ true
      → (store_handler lib local op s payload).0 ≡ s
  unfolding store_handler handle_ca_get_by_id handle_ca_get_by_name handle_ca_list
      handle_secret_get_latest handle_secret_get_version handle_secret_list_by_path
      handle_secret_next_version handle_pki_role_get handle_pki_role_list handle_audit_list
      handle_audit_latest_hash handle_revoke_is handle_revoke_list_by_ca handle_lease_get
      handle_lease_list handle_lease_list_expired handle_lease_count_active handle_policy_get
      handle_policy_list handle_role_get handle_role_list handle_db_role_get handle_db_role_list
      handle_ssh_role_get handle_ssh_role_list handle_issued_get_by_serial handle_issued_list
      handle_issued_list_expiring handle_export_snapshot handle_token_get handle_token_list
      handle_token_list_expired handle_machine_identity_get handle_machine_identity_list
      handle_rotation_policy_get handle_rotation_policy_list
  store_handler-unchanged op_ca_save s payload h = absurd (cc)
  store_handler-unchanged op_ca_get_by_id s payload h = refl
  store_handler-unchanged op_ca_get_by_name s payload h = refl
  store_handler-unchanged op_ca_list s payload h = refl
  store_handler-unchanged op_secret_save_version s payload h = absurd (cc)
  store_handler-unchanged op_secret_put s payload h = absurd (cc)
  store_handler-unchanged op_secret_get_latest s payload h = refl
  store_handler-unchanged op_secret_get_version s payload h = refl
  store_handler-unchanged op_secret_list_by_path s payload h = refl
  store_handler-unchanged op_secret_next_version s payload h = refl
  store_handler-unchanged op_secret_destroy_ver s payload h = absurd (cc)
  store_handler-unchanged op_secret_update_dek_enc s payload h = absurd (cc)
  store_handler-unchanged op_pki_role_save s payload h = absurd (cc)
  store_handler-unchanged op_pki_role_get s payload h = refl
  store_handler-unchanged op_pki_role_list s payload h = refl
  store_handler-unchanged op_audit_append s payload h = absurd (cc)
  store_handler-unchanged op_audit_list s payload h = refl
  store_handler-unchanged op_audit_latest_hash s payload h = refl
  store_handler-unchanged op_revoke_save s payload h = absurd (cc)
  store_handler-unchanged op_revoke_is s payload h = refl
  store_handler-unchanged op_revoke_list_by_ca s payload h = refl
  store_handler-unchanged op_lease_save s payload h = absurd (cc)
  store_handler-unchanged op_lease_get s payload h = refl
  store_handler-unchanged op_lease_list s payload h = refl
  store_handler-unchanged op_lease_list_expired s payload h = refl
  store_handler-unchanged op_lease_revoke s payload h = absurd (cc)
  store_handler-unchanged op_lease_count_active s payload h = refl
  store_handler-unchanged op_policy_save s payload h = absurd (cc)
  store_handler-unchanged op_policy_get s payload h = refl
  store_handler-unchanged op_policy_list s payload h = refl
  store_handler-unchanged op_policy_delete s payload h = absurd (cc)
  store_handler-unchanged op_role_save s payload h = absurd (cc)
  store_handler-unchanged op_role_get s payload h = refl
  store_handler-unchanged op_role_list s payload h = refl
  store_handler-unchanged op_role_delete s payload h = absurd (cc)
  store_handler-unchanged op_db_role_save s payload h = absurd (cc)
  store_handler-unchanged op_db_role_get s payload h = refl
  store_handler-unchanged op_db_role_list s payload h = refl
  store_handler-unchanged op_db_role_delete s payload h = absurd (cc)
  store_handler-unchanged op_ssh_role_save s payload h = absurd (cc)
  store_handler-unchanged op_ssh_role_get s payload h = refl
  store_handler-unchanged op_ssh_role_list s payload h = refl
  store_handler-unchanged op_ssh_role_delete s payload h = absurd (cc)
  store_handler-unchanged op_issued_save s payload h = absurd (cc)
  store_handler-unchanged op_issued_get_by_serial s payload h = refl
  store_handler-unchanged op_issued_list s payload h = refl
  store_handler-unchanged op_issued_list_expiring s payload h = refl
  store_handler-unchanged op_import_snapshot s payload h = absurd (cc)
  store_handler-unchanged op_export_snapshot s payload h = refl
  store_handler-unchanged op_token_save s payload h = absurd (cc)
  store_handler-unchanged op_token_get s payload h = refl
  store_handler-unchanged op_token_revoke s payload h = absurd (cc)
  store_handler-unchanged op_token_list s payload h = refl
  store_handler-unchanged op_token_list_expired s payload h = refl
  store_handler-unchanged op_machine_identity_save s payload h = absurd (cc)
  store_handler-unchanged op_machine_identity_get s payload h = refl
  store_handler-unchanged op_machine_identity_list s payload h = refl
  store_handler-unchanged op_machine_identity_revoke s payload h = absurd (cc)
  store_handler-unchanged op_rotation_policy_save s payload h = absurd (cc)
  store_handler-unchanged op_rotation_policy_get s payload h = refl
  store_handler-unchanged op_rotation_policy_list s payload h = refl
  store_handler-unchanged op_rotation_policy_delete s payload h = absurd (cc)

  -- What Lookup does to any query: the store stays, and a query that is no read-only operation is
  -- refused with a validation error, whatever its payload.
  pub lookup_store-unchanged :
      (s : Store) (query : Command)
      → ((lookup_store lib local s query).0 ≡ s)
        × (is_read_only_op query.op ≡ false
            → (lookup_store lib local s query).1
              ≡ response_of lib.json
                  (fail validation (codes "write command not allowed on read path")))
        × (is_read_only_op query.op ≡ true
            → (lookup_store lib local s query).1 ≡ (handle lib local s query).1)
  unfolding lookup_store is_read_only_op handle run
  lookup_store-unchanged s query = elim (Option-cases (op_of query.op)) [
    | inl e ↦ rw e (refl, λ h. refl, λ h. absurd (cc))
    | inr (op, e) ↦ rw e (elim (Bool-cases (read_only op)) [
      | inl r ↦ rw r (store_handler-unchanged op s query.payload r, λ h. absurd (cc), λ h. refl)
      | inr r ↦ rw r (refl, λ h. refl, λ h. absurd (cc))
    ])
  ]
