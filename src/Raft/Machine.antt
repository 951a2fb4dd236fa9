-- ===== src/Raft/Machine.antt =====
-- Store.Handle, Store.Lookup and the table of handlers of internal/raft/store.go and handlers.go, and the
-- state machine of internal/raft/statemachine.go.
use knxvault.Prelude.{is_empty, true, not, none, some, List, [], ◌∷◌, Text, codes, if◌then◌else◌}
use knxvault.Errors.{Result, ok, err, fail, validation, internal}
use knxvault.Raft.Ops.{
  Op, op_ca_save, op_ca_get_by_id, op_ca_get_by_name, op_ca_list, op_secret_save_version,
  op_secret_put, op_secret_get_latest, op_secret_get_version, op_secret_list_by_path,
  op_secret_next_version, op_secret_destroy_ver, op_secret_update_dek_enc, op_pki_role_save,
  op_pki_role_get, op_pki_role_list, op_audit_append, op_audit_list, op_audit_latest_hash,
  op_revoke_save, op_revoke_is, op_revoke_list_by_ca, op_lease_save, op_lease_get, op_lease_list,
  op_lease_list_expired, op_lease_revoke, op_lease_count_active, op_policy_save, op_policy_get,
  op_policy_list, op_policy_delete, op_role_save, op_role_get, op_role_list, op_role_delete,
  op_db_role_save, op_db_role_get, op_db_role_list, op_db_role_delete, op_ssh_role_save,
  op_ssh_role_get, op_ssh_role_list, op_ssh_role_delete, op_issued_save, op_issued_get_by_serial,
  op_issued_list, op_issued_list_expiring, op_import_snapshot, op_export_snapshot, op_token_save,
  op_token_get, op_token_revoke, op_token_list, op_token_list_expired, op_machine_identity_save,
  op_machine_identity_get, op_machine_identity_list, op_machine_identity_revoke,
  op_rotation_policy_save, op_rotation_policy_get, op_rotation_policy_list,
  op_rotation_policy_delete, op_of, is_read_only_op,
}
use knxvault.Raft.Values.{
  Json, Any, Command, Response, command_value, response_value, snapshot_value,
}
use knxvault.Repos.{Outcome}
use knxvault.Raft.Store.{Store, export_store, import_snapshot}
use knxvault.Raft.Reply.{Library, Local, Reply, restore_env}
use knxvault.Raft.PkiHandlers.{
  handle_ca_save, handle_ca_get_by_id, handle_ca_get_by_name, handle_ca_list, handle_pki_role_save,
  handle_pki_role_get, handle_pki_role_list, handle_revoke_save, handle_revoke_is,
  handle_revoke_list_by_ca, handle_issued_save, handle_issued_get_by_serial, handle_issued_list,
  handle_issued_list_expiring,
}
use knxvault.Raft.SecretHandlers.{
  handle_secret_save_version, handle_secret_put, handle_secret_get_latest,
  handle_secret_get_version, handle_secret_list_by_path, handle_secret_next_version,
  handle_secret_destroy_ver, handle_secret_update_dek_enc, handle_lease_save, handle_lease_get,
  handle_lease_list, handle_lease_list_expired, handle_lease_revoke, handle_lease_count_active,
  handle_db_role_save, handle_db_role_get, handle_db_role_list, handle_db_role_delete,
  handle_ssh_role_save, handle_ssh_role_get, handle_ssh_role_list, handle_ssh_role_delete,
  handle_rotation_policy_save, handle_rotation_policy_get, handle_rotation_policy_list,
  handle_rotation_policy_delete,
}
use knxvault.Raft.AccessHandlers.{
  handle_audit_append, handle_audit_list, handle_audit_latest_hash, handle_policy_save,
  handle_policy_get, handle_policy_list, handle_policy_delete, handle_role_save, handle_role_get,
  handle_role_list, handle_role_delete, handle_import_snapshot, handle_export_snapshot,
  handle_token_save, handle_token_get, handle_token_revoke, handle_token_list,
  handle_token_list_expired, handle_machine_identity_save, handle_machine_identity_get,
  handle_machine_identity_list, handle_machine_identity_revoke,
}
pub mod ReadOnly
pub mod WellFormed
pub mod Replicas
pub mod Diverge

-- encodeResponse, before json.Marshal.
unfoldable pub response_of : Json → Result Any → Response
response_of json (err e) = record { error_code = some e.code; message = e.message; content = none }
response_of json (ok none) = record { error_code = none; message = []; content = none }
response_of json (ok (some (k, v))) = record {
  error_code = none;
  message = [];
  content = some (json.encode k v);
}

-- decodeCommand
unfoldable pub decode_command : Library → Text → Result Command
decode_command lib entry = elim (lib.json.decode command_value entry) [
  | none ↦ fail internal (lib.json.complaint command_value entry)
  | some cmd ↦ if is_empty cmd.op then fail internal (codes "command op is required") else ok cmd
]

module _ (lib : Library) (local : Local) where
  -- storeHandlers
  unfoldable pub store_handler : Op → Store → Text → Reply
  unfolding handle_ca_save handle_ca_get_by_id handle_ca_get_by_name handle_ca_list
      handle_secret_save_version handle_secret_put handle_secret_get_latest
      handle_secret_get_version handle_secret_list_by_path handle_secret_next_version
      handle_secret_destroy_ver handle_secret_update_dek_enc handle_pki_role_save
      handle_pki_role_get handle_pki_role_list handle_audit_append handle_audit_list
      handle_audit_latest_hash handle_revoke_save handle_revoke_is handle_revoke_list_by_ca
      handle_lease_save handle_lease_get handle_lease_list handle_lease_list_expired
      handle_lease_revoke handle_lease_count_active handle_policy_save handle_policy_get
      handle_policy_list handle_policy_delete handle_role_save handle_role_get handle_role_list
      handle_role_delete handle_db_role_save handle_db_role_get handle_db_role_list
      handle_db_role_delete handle_ssh_role_save handle_ssh_role_get handle_ssh_role_list
      handle_ssh_role_delete handle_issued_save handle_issued_get_by_serial handle_issued_list
      handle_issued_list_expiring handle_import_snapshot handle_export_snapshot handle_token_save
      handle_token_get handle_token_revoke handle_token_list handle_token_list_expired
      handle_machine_identity_save handle_machine_identity_get handle_machine_identity_list
      handle_machine_identity_revoke handle_rotation_policy_save handle_rotation_policy_get
      handle_rotation_policy_list handle_rotation_policy_delete
  store_handler op_ca_save = handle_ca_save lib local
  store_handler op_ca_get_by_id = handle_ca_get_by_id lib local
  store_handler op_ca_get_by_name = handle_ca_get_by_name lib local
  store_handler op_ca_list = handle_ca_list lib local
  store_handler op_secret_save_version = handle_secret_save_version lib local
  store_handler op_secret_put = handle_secret_put lib local
  store_handler op_secret_get_latest = handle_secret_get_latest lib local
  store_handler op_secret_get_version = handle_secret_get_version lib local
  store_handler op_secret_list_by_path = handle_secret_list_by_path lib local
  store_handler op_secret_next_version = handle_secret_next_version lib local
  store_handler op_secret_destroy_ver = handle_secret_destroy_ver lib local
  store_handler op_secret_update_dek_enc = handle_secret_update_dek_enc lib local
  store_handler op_pki_role_save = handle_pki_role_save lib local
  store_handler op_pki_role_get = handle_pki_role_get lib local
  store_handler op_pki_role_list = handle_pki_role_list lib local
  store_handler op_audit_append = handle_audit_append lib local
  store_handler op_audit_list = handle_audit_list lib local
  store_handler op_audit_latest_hash = handle_audit_latest_hash lib local
  store_handler op_revoke_save = handle_revoke_save lib local
  store_handler op_revoke_is = handle_revoke_is lib local
  store_handler op_revoke_list_by_ca = handle_revoke_list_by_ca lib local
  store_handler op_lease_save = handle_lease_save lib local
  store_handler op_lease_get = handle_lease_get lib local
  store_handler op_lease_list = handle_lease_list lib local
  store_handler op_lease_list_expired = handle_lease_list_expired lib local
  store_handler op_lease_revoke = handle_lease_revoke lib local
  store_handler op_lease_count_active = handle_lease_count_active lib local
  store_handler op_policy_save = handle_policy_save lib local
  store_handler op_policy_get = handle_policy_get lib local
  store_handler op_policy_list = handle_policy_list lib local
  store_handler op_policy_delete = handle_policy_delete lib local
  store_handler op_role_save = handle_role_save lib local
  store_handler op_role_get = handle_role_get lib local
  store_handler op_role_list = handle_role_list lib local
  store_handler op_role_delete = handle_role_delete lib local
  store_handler op_db_role_save = handle_db_role_save lib local
  store_handler op_db_role_get = handle_db_role_get lib local
  store_handler op_db_role_list = handle_db_role_list lib local
  store_handler op_db_role_delete = handle_db_role_delete lib local
  store_handler op_ssh_role_save = handle_ssh_role_save lib local
  store_handler op_ssh_role_get = handle_ssh_role_get lib local
  store_handler op_ssh_role_list = handle_ssh_role_list lib local
  store_handler op_ssh_role_delete = handle_ssh_role_delete lib local
  store_handler op_issued_save = handle_issued_save lib local
  store_handler op_issued_get_by_serial = handle_issued_get_by_serial lib local
  store_handler op_issued_list = handle_issued_list lib local
  store_handler op_issued_list_expiring = handle_issued_list_expiring lib local
  store_handler op_import_snapshot = handle_import_snapshot lib local
  store_handler op_export_snapshot = handle_export_snapshot lib local
  store_handler op_token_save = handle_token_save lib local
  store_handler op_token_get = handle_token_get lib local
  store_handler op_token_revoke = handle_token_revoke lib local
  store_handler op_token_list = handle_token_list lib local
  store_handler op_token_list_expired = handle_token_list_expired lib local
  store_handler op_machine_identity_save = handle_machine_identity_save lib local
  store_handler op_machine_identity_get = handle_machine_identity_get lib local
  store_handler op_machine_identity_list = handle_machine_identity_list lib local
  store_handler op_machine_identity_revoke = handle_machine_identity_revoke lib local
  store_handler op_rotation_policy_save = handle_rotation_policy_save lib local
  store_handler op_rotation_policy_get = handle_rotation_policy_get lib local
  store_handler op_rotation_policy_list = handle_rotation_policy_list lib local
  store_handler op_rotation_policy_delete = handle_rotation_policy_delete lib local

  -- What the handler of a command does; a command without one is refused.
  unfoldable pub run : Store → Command → Reply
  unfolding store_handler op_of
  run s cmd = elim (op_of cmd.op) [
    | none ↦ (s, fail validation (codes "unknown raft command"))
    | some op ↦ store_handler op s cmd.payload
  ]

  -- Handle
  unfoldable pub handle : Store → Command → Store × Response
  unfolding run response_of
  handle s cmd = ((run s cmd).0, response_of lib.json (run s cmd).1)

  -- Lookup of the store
  unfoldable pub lookup_store : Store → Command → Store × Response
  unfolding handle is_read_only_op response_of
  lookup_store s query =
      if not (is_read_only_op query.op)
      then (
        s,
        response_of lib.json (fail validation (codes "write command not allowed on read path")),
      )
      else handle s query

  -- Update
  unfoldable pub update : Store → Text → Store × Result Text
  unfolding decode_command handle
  update s entry = elim (decode_command lib entry) [
    | err e ↦ (s, err e)
    | ok cmd ↦ ((handle s cmd).0, ok (lib.json.encode response_value (handle s cmd).1))
  ]

-- SaveSnapshot, as the text that is written.
unfoldable pub save_snapshot : Library → Local → Store → Text
unfolding export_store
save_snapshot lib local s = lib.json.encode snapshot_value (export_store s true local.now)

-- RecoverFromSnapshot
unfoldable pub recover : Library → Local → Store → Text → Outcome Store (Unit {0})
unfolding import_snapshot
recover lib local s text = elim (lib.json.decode snapshot_value text) [
  | none ↦ (s, fail internal (lib.json.complaint snapshot_value text))
  | some snapshot ↦ import_snapshot (restore_env lib local) s snapshot
]

-- The committed entries of the log, applied in turn, each with the clock and the identifiers of the
-- replica that applies it.
unfoldable pub replay : Library → List (Local × Text) → Store → Store
unfolding update
replay lib [] s = s
replay lib ((local, entry) ∷ log) s = replay lib log (update lib local s entry).0
