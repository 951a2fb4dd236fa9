-- ===== src/Raft/Machine/WellFormed.antt =====
-- Every entry of the log keeps the store well-formed.
use knxvault.Prelude.{Option-cases, inl, inr, List, [], ◌∷◌, Text}
use knxvault.Errors.{Result-cases}
use knxvault.Raft.Ops.{
  Op, op_ca_save, op_ca_get_by_id, op_ca_get_by_name, op_ca_list, op_secret_save_version,
  op_secret_put, op_secret_get_latest, op_secret_get_version, op_secret_list_by_path,
  op_secret_next_version, op_secret_destroy_ver, op_secret_update_dek_enc, op_pki_role_save,
  op_pki_role_get, op_pki_role_list, op_audit_append, op_audit_list, op_audit_latest_hash,
  op_revoke_save, op_revoke_is, op_revoke_list_by_ca, op_lease_save, op_lease_get, op_lease_list,
  op_lease_list_expired, op_lease_revoke, op_lease_count_active, op_policy_save, op_policy_get,
  op_policy_list, op_policy_delete, op_role_save, op_role_get, op_role_list, op_role_delete,
  op_db_role_save, op_db_role_get, op_db_role_list, op_db_role_delete, op_ssh_role_save,
  op_ssh_role_get, op_ssh_role_list, op_ssh_role_delete, op_issued_save, op_issued_get_by_serial,
  op_issued_list, op_issued_list_expiring, op_import_snapshot, op_export_snapshot, op_token_save,
  op_token_get, op_token_revoke, op_token_list, op_token_list_expired, op_machine_identity_save,
  op_machine_identity_get, op_machine_identity_list, op_machine_identity_revoke,
  op_rotation_policy_save, op_rotation_policy_get, op_rotation_policy_list,
  op_rotation_policy_delete, op_of,
}
use knxvault.Raft.Store.{Store, new_store}
use knxvault.Raft.Store.Valid.{StoreValid, new_store-StoreValid}
use knxvault.Raft.Reply.{Library, Local}
use knxvault.Raft.PkiHandlers.{
  handle_ca_get_by_id, handle_ca_get_by_name, handle_ca_list, handle_pki_role_get,
  handle_pki_role_list, handle_revoke_is, handle_revoke_list_by_ca, handle_issued_get_by_serial,
  handle_issued_list, handle_issued_list_expiring,
}
use knxvault.Raft.SecretHandlers.{
  handle_secret_get_latest, handle_secret_get_version, handle_secret_list_by_path,
  handle_secret_next_version, handle_lease_get, handle_lease_list, handle_lease_list_expired,
  handle_lease_count_active, handle_db_role_get, handle_db_role_list, handle_ssh_role_get,
  handle_ssh_role_list, handle_rotation_policy_get, handle_rotation_policy_list,
}
use knxvault.Raft.AccessHandlers.{
  handle_audit_list, handle_audit_latest_hash, handle_policy_get, handle_policy_list,
  handle_role_get, handle_role_list, handle_export_snapshot, handle_token_get, handle_token_list,
  handle_token_list_expired, handle_machine_identity_get, handle_machine_identity_list,
}
use knxvault.Raft.Machine.{store_handler, run, handle, update, decode_command, replay}
use knxvault.Raft.PkiHandlers.Valid.{
  ca_save-Valid, revoke_save-Valid, issued_save-Valid, pki_role_save-Valid,
}
use knxvault.Raft.SecretHandlers.Valid.{
  secret_save_version-Valid, secret_put-Valid, secret_update_dek_enc-Valid,
  secret_destroy_ver-Valid, lease_save-Valid, lease_revoke-Valid, db_role_save-Valid,
  db_role_delete-Valid, ssh_role_save-Valid, ssh_role_delete-Valid, rotation_policy_save-Valid,
  rotation_policy_delete-Valid,
}
use knxvault.Raft.AccessHandlers.Valid.{
  policy_save-Valid, policy_delete-Valid, role_save-Valid, role_delete-Valid, token_save-Valid,
  token_revoke-Valid, machine_identity_save-Valid, machine_identity_revoke-Valid,
  import_snapshot-Valid, audit_append-Valid,
}

module _ (lib : Library) (local : Local) where
  store_handler-Valid :
      (op : Op) (s : Store) (payload : Text)
      → StoreValid lib.url_password s
      → StoreValid lib.url_password (store_handler lib local op s payload).0
  unfolding store_handler handle_ca_get_by_id handle_ca_get_by_name handle_ca_list
      handle_secret_get_latest handle_secret_get_version handle_secret_list_by_path
      handle_secret_next_version handle_pki_role_get handle_pki_role_list handle_audit_list
      handle_audit_latest_hash handle_revoke_is handle_revoke_list_by_ca handle_lease_get
      handle_lease_list handle_lease_list_expired handle_lease_count_active handle_policy_get
      handle_policy_list handle_role_get handle_role_list handle_db_role_get handle_db_role_list
      handle_ssh_role_get handle_ssh_role_list handle_issued_get_by_serial handle_issued_list
      handle_issued_list_expiring handle_export_snapshot handle_token_get handle_token_list
      handle_token_list_expired handle_machine_identity_get handle_machine_identity_list
      handle_rotation_policy_get handle_rotation_policy_list
  store_handler-Valid op_ca_save s payload v = ca_save-Valid lib local s payload v
  store_handler-Valid op_ca_get_by_id s payload v = v
  store_handler-Valid op_ca_get_by_name s payload v = v
  store_handler-Valid op_ca_list s payload v = v
  store_handler-Valid op_secret_save_version s payload v =
      secret_save_version-Valid lib local s payload v
  store_handler-Valid op_secret_put s payload v = secret_put-Valid lib local s payload v
  store_handler-Valid op_secret_get_latest s payload v = v
  store_handler-Valid op_secret_get_version s payload v = v
  store_handler-Valid op_secret_list_by_path s payload v = v
  store_handler-Valid op_secret_next_version s payload v = v
  store_handler-Valid op_secret_destroy_ver s payload v =
      secret_destroy_ver-Valid lib local s payload v
  store_handler-Valid op_secret_update_dek_enc s payload v =
      secret_update_dek_enc-Valid lib local s payload v
  store_handler-Valid op_pki_role_save s payload v = pki_role_save-Valid lib local s payload v
  store_handler-Valid op_pki_role_get s payload v = v
  store_handler-Valid op_pki_role_list s payload v = v
  store_handler-Valid op_audit_append s payload v = audit_append-Valid lib local s payload v
  store_handler-Valid op_audit_list s payload v = v
  store_handler-Valid op_audit_latest_hash s payload v = v
  store_handler-Valid op_revoke_save s payload v = revoke_save-Valid lib local s payload v
  store_handler-Valid op_revoke_is s payload v = v
  store_handler-Valid op_revoke_list_by_ca s payload v = v
  store_handler-Valid op_lease_save s payload v = lease_save-Valid lib local s payload v
  store_handler-Valid op_lease_get s payload v = v
  store_handler-Valid op_lease_list s payload v = v
  store_handler-Valid op_lease_list_expired s payload v = v
  store_handler-Valid op_lease_revoke s payload v = lease_revoke-Valid lib local s payload v
  store_handler-Valid op_lease_count_active s payload v = v
  store_handler-Valid op_policy_save s payload v = policy_save-Valid lib local s payload v
  store_handler-Valid op_policy_get s payload v = v
  store_handler-Valid op_policy_list s payload v = v
  store_handler-Valid op_policy_delete s payload v = policy_delete-Valid lib local s payload v
  store_handler-Valid op_role_save s payload v = role_save-Valid lib local s payload v
  store_handler-Valid op_role_get s payload v = v
  store_handler-Valid op_role_list s payload v = v
  store_handler-Valid op_role_delete s payload v = role_delete-Valid lib local s payload v
  store_handler-Valid op_db_role_save s payload v = db_role_save-Valid lib local s payload v
  store_handler-Valid op_db_role_get s payload v = v
  store_handler-Valid op_db_role_list s payload v = v
  store_handler-Valid op_db_role_delete s payload v = db_role_delete-Valid lib local s payload v
  store_handler-Valid op_ssh_role_save s payload v = ssh_role_save-Valid lib local s payload v
  store_handler-Valid op_ssh_role_get s payload v = v
  store_handler-Valid op_ssh_role_list s payload v = v
  store_handler-Valid op_ssh_role_delete s payload v = ssh_role_delete-Valid lib local s payload v
  store_handler-Valid op_issued_save s payload v = issued_save-Valid lib local s payload v
  store_handler-Valid op_issued_get_by_serial s payload v = v
  store_handler-Valid op_issued_list s payload v = v
  store_handler-Valid op_issued_list_expiring s payload v = v
  store_handler-Valid op_import_snapshot s payload v = import_snapshot-Valid lib local s payload v
  store_handler-Valid op_export_snapshot s payload v = v
  store_handler-Valid op_token_save s payload v = token_save-Valid lib local s payload v
  store_handler-Valid op_token_get s payload v = v
  store_handler-Valid op_token_revoke s payload v = token_revoke-Valid lib local s payload v
  store_handler-Valid op_token_list s payload v = v
  store_handler-Valid op_token_list_expired s payload v = v
  store_handler-Valid op_machine_identity_save s payload v =
      machine_identity_save-Valid lib local s payload v
  store_handler-Valid op_machine_identity_get s payload v = v
  store_handler-Valid op_machine_identity_list s payload v = v
  store_handler-Valid op_machine_identity_revoke s payload v =
      machine_identity_revoke-Valid lib local s payload v
  store_handler-Valid op_rotation_policy_save s payload v =
      rotation_policy_save-Valid lib local s payload v
  store_handler-Valid op_rotation_policy_get s payload v = v
  store_handler-Valid op_rotation_policy_list s payload v = v
  store_handler-Valid op_rotation_policy_delete s payload v =
      rotation_policy_delete-Valid lib local s payload v

  update-Valid :
      (s : Store) (entry : Text)
      → StoreValid lib.url_password s
      → StoreValid lib.url_password (update lib local s entry).0
  unfolding update handle run
  update-Valid s entry v = elim (Result-cases (decode_command lib entry)) [
    | inr (e, p) ↦ rw (p, update) v
    | inl (cmd, p) ↦ elim (Option-cases (op_of cmd.op)) [
      | inl q ↦ rw (p, update, q, handle, run) v
      | inr (op, q) ↦ rw (p, update, q, handle, run) (store_handler-Valid op s cmd.payload v)
    ]
  ]

replay-Valid :
    (lib : Library) (log : List (Local × Text)) (s : Store)
    → StoreValid lib.url_password s
    → StoreValid lib.url_password (replay lib log s)
unfolding replay
replay-Valid lib [] s v = v
replay-Valid lib ((local, entry) ∷ log) s v =
    replay-Valid lib log (update lib local s entry).0 (update-Valid lib local s entry v)

-- Whatever entries are applied to an empty store, in whatever order and with whatever clocks and
-- identifiers, every repository of the store is well-formed afterwards: checked records under their
-- keys, authorities told apart by their names, secret versions under their paths and numbers,
-- revocations listed where they belong, audit entries with consecutive numbers.
pub replay-StoreValid :
    (lib : Library) (log : List (Local × Text))
    → StoreValid lib.url_password (replay lib log new_store)
replay-StoreValid lib log = replay-Valid lib log new_store (new_store-StoreValid lib.url_password)
