-- ===== src/Raft/Ops.antt =====
-- internal/raft/commands.go: the operations of the replicated state machine.
use knxvault.Prelude.{
  is_empty, ◌≡◌, refl, Bool, true, false, Option, none, some, List, [], ◌∷◌, map, Text, codes,
  Text-discrete, lookup,
}

-- The constants of the operations.
pub data Op : Type 0 where
  op_ca_save op_ca_get_by_id op_ca_get_by_name op_ca_list op_secret_save_version op_secret_put
        op_secret_get_latest op_secret_get_version op_secret_list_by_path op_secret_next_version
        op_secret_destroy_ver op_secret_update_dek_enc op_pki_role_save op_pki_role_get
        op_pki_role_list op_audit_append op_audit_list op_audit_latest_hash op_revoke_save
        op_revoke_is op_revoke_list_by_ca op_lease_save op_lease_get op_lease_list
        op_lease_list_expired op_lease_revoke op_lease_count_active op_policy_save op_policy_get
        op_policy_list op_policy_delete op_role_save op_role_get op_role_list op_role_delete
        op_db_role_save op_db_role_get op_db_role_list op_db_role_delete op_ssh_role_save
        op_ssh_role_get op_ssh_role_list op_ssh_role_delete op_issued_save op_issued_get_by_serial
        op_issued_list op_issued_list_expiring op_import_snapshot op_export_snapshot op_token_save
        op_token_get op_token_revoke op_token_list op_token_list_expired op_machine_identity_save
        op_machine_identity_get op_machine_identity_list op_machine_identity_revoke
        op_rotation_policy_save op_rotation_policy_get op_rotation_policy_list
        op_rotation_policy_delete :
      Op

-- The text of an operation.
abbrev pub op_text : Op → Text
op_text op_ca_save = codes "ca.save"
op_text op_ca_get_by_id = codes "ca.get_by_id"
op_text op_ca_get_by_name = codes "ca.get_by_name"
op_text op_ca_list = codes "ca.list"
op_text op_secret_save_version = codes "secret.save_version"
op_text op_secret_put = codes "secret.put"
op_text op_secret_get_latest = codes "secret.get_latest"
op_text op_secret_get_version = codes "secret.get_version"
op_text op_secret_list_by_path = codes "secret.list_by_path"
op_text op_secret_next_version = codes "secret.next_version"
op_text op_secret_destroy_ver = codes "secret.destroy_version"
op_text op_secret_update_dek_enc = codes "secret.update_dek_enc"
op_text op_pki_role_save = codes "pki_role.save"
op_text op_pki_role_get = codes "pki_role.get"
op_text op_pki_role_list = codes "pki_role.list"
op_text op_audit_append = codes "audit.append"
op_text op_audit_list = codes "audit.list"
op_text op_audit_latest_hash = codes "audit.latest_hash"
op_text op_revoke_save = codes "revoke.save"
op_text op_revoke_is = codes "revoke.is"
op_text op_revoke_list_by_ca = codes "revoke.list_by_ca"
op_text op_lease_save = codes "lease.save"
op_text op_lease_get = codes "lease.get"
op_text op_lease_list = codes "lease.list"
op_text op_lease_list_expired = codes "lease.list_expired"
op_text op_lease_revoke = codes "lease.revoke"
op_text op_lease_count_active = codes "lease.count_active"
op_text op_policy_save = codes "policy.save"
op_text op_policy_get = codes "policy.get_by_name"
op_text op_policy_list = codes "policy.list"
op_text op_policy_delete = codes "policy.delete"
op_text op_role_save = codes "role.save"
op_text op_role_get = codes "role.get"
op_text op_role_list = codes "role.list"
op_text op_role_delete = codes "role.delete"
op_text op_db_role_save = codes "db_role.save"
op_text op_db_role_get = codes "db_role.get"
op_text op_db_role_list = codes "db_role.list"
op_text op_db_role_delete = codes "db_role.delete"
op_text op_ssh_role_save = codes "ssh_role.save"
op_text op_ssh_role_get = codes "ssh_role.get"
op_text op_ssh_role_list = codes "ssh_role.list"
op_text op_ssh_role_delete = codes "ssh_role.delete"
op_text op_issued_save = codes "issued.save"
op_text op_issued_get_by_serial = codes "issued.get_by_serial"
op_text op_issued_list = codes "issued.list"
op_text op_issued_list_expiring = codes "issued.list_expiring"
op_text op_import_snapshot = codes "snapshot.import"
op_text op_export_snapshot = codes "snapshot.export"
op_text op_token_save = codes "token.save"
op_text op_token_get = codes "token.get"
op_text op_token_revoke = codes "token.revoke"
op_text op_token_list = codes "token.list"
op_text op_token_list_expired = codes "token.list_expired"
op_text op_machine_identity_save = codes "machine_identity.save"
op_text op_machine_identity_get = codes "machine_identity.get"
op_text op_machine_identity_list = codes "machine_identity.list"
op_text op_machine_identity_revoke = codes "machine_identity.revoke"
op_text op_rotation_policy_save = codes "rotation_policy.save"
op_text op_rotation_policy_get = codes "rotation_policy.get"
op_text op_rotation_policy_list = codes "rotation_policy.list"
op_text op_rotation_policy_delete = codes "rotation_policy.delete"

abbrev pub all_ops : List Op
all_ops =
    op_ca_save ∷ op_ca_get_by_id ∷ op_ca_get_by_name ∷ op_ca_list ∷ op_secret_save_version
    ∷ op_secret_put ∷ op_secret_get_latest ∷ op_secret_get_version ∷ op_secret_list_by_path
    ∷ op_secret_next_version ∷ op_secret_destroy_ver ∷ op_secret_update_dek_enc ∷ op_pki_role_save
    ∷ op_pki_role_get ∷ op_pki_role_list ∷ op_audit_append ∷ op_audit_list ∷ op_audit_latest_hash
    ∷ op_revoke_save ∷ op_revoke_is ∷ op_revoke_list_by_ca ∷ op_lease_save ∷ op_lease_get
    ∷ op_lease_list ∷ op_lease_list_expired ∷ op_lease_revoke ∷ op_lease_count_active
    ∷ op_policy_save ∷ op_policy_get ∷ op_policy_list ∷ op_policy_delete ∷ op_role_save
    ∷ op_role_get ∷ op_role_list ∷ op_role_delete ∷ op_db_role_save ∷ op_db_role_get
    ∷ op_db_role_list ∷ op_db_role_delete ∷ op_ssh_role_save ∷ op_ssh_role_get ∷ op_ssh_role_list
    ∷ op_ssh_role_delete ∷ op_issued_save ∷ op_issued_get_by_serial ∷ op_issued_list
    ∷ op_issued_list_expiring ∷ op_import_snapshot ∷ op_export_snapshot ∷ op_token_save
    ∷ op_token_get ∷ op_token_revoke ∷ op_token_list ∷ op_token_list_expired
    ∷ op_machine_identity_save ∷ op_machine_identity_get ∷ op_machine_identity_list
    ∷ op_machine_identity_revoke ∷ op_rotation_policy_save ∷ op_rotation_policy_get
    ∷ op_rotation_policy_list ∷ op_rotation_policy_delete ∷ []

abbrev named : Op → Text × Op
named op = (op_text op, op)

-- The operation of a text, as the map of handlers finds it.
unfoldable pub op_of : Text → Option Op
unfolding lookup Text-discrete
op_of name = lookup Text-discrete name (map named all_ops)

-- readOnlyOps
abbrev pub read_only : Op → Bool
read_only op_ca_save = false
read_only op_ca_get_by_id = true
read_only op_ca_get_by_name = true
read_only op_ca_list = true
read_only op_secret_save_version = false
read_only op_secret_put = false
read_only op_secret_get_latest = true
read_only op_secret_get_version = true
read_only op_secret_list_by_path = true
read_only op_secret_next_version = true
read_only op_secret_destroy_ver = false
read_only op_secret_update_dek_enc = false
read_only op_pki_role_save = false
read_only op_pki_role_get = true
read_only op_pki_role_list = true
read_only op_audit_append = false
read_only op_audit_list = true
read_only op_audit_latest_hash = true
read_only op_revoke_save = false
read_only op_revoke_is = true
read_only op_revoke_list_by_ca = true
read_only op_lease_save = false
read_only op_lease_get = true
read_only op_lease_list = true
read_only op_lease_list_expired = true
read_only op_lease_revoke = false
read_only op_lease_count_active = true
read_only op_policy_save = false
read_only op_policy_get = true
read_only op_policy_list = true
read_only op_policy_delete = false
read_only op_role_save = false
read_only op_role_get = true
read_only op_role_list = true
read_only op_role_delete = false
read_only op_db_role_save = false
read_only op_db_role_get = true
read_only op_db_role_list = true
read_only op_db_role_delete = false
read_only op_ssh_role_save = false
read_only op_ssh_role_get = true
read_only op_ssh_role_list = true
read_only op_ssh_role_delete = false
read_only op_issued_save = false
read_only op_issued_get_by_serial = true
read_only op_issued_list = true
read_only op_issued_list_expiring = true
read_only op_import_snapshot = false
read_only op_export_snapshot = true
read_only op_token_save = false
read_only op_token_get = true
read_only op_token_revoke = false
read_only op_token_list = true
read_only op_token_list_expired = true
read_only op_machine_identity_save = false
read_only op_machine_identity_get = true
read_only op_machine_identity_list = true
read_only op_machine_identity_revoke = false
read_only op_rotation_policy_save = false
read_only op_rotation_policy_get = true
read_only op_rotation_policy_list = true
read_only op_rotation_policy_delete = false

-- IsReadOnlyOp
unfoldable pub is_read_only_op : Text → Bool
unfolding op_of
is_read_only_op name = elim (op_of name) [ none ↦ false | some op ↦ read_only op ]

pub op_of-op_text : (op : Op) → op_of (op_text op) ≡ some op
unfolding op_of lookup Text-discrete
op_of-op_text op_ca_save = refl
op_of-op_text op_ca_get_by_id = refl
op_of-op_text op_ca_get_by_name = refl
op_of-op_text op_ca_list = refl
op_of-op_text op_secret_save_version = refl
op_of-op_text op_secret_put = refl
op_of-op_text op_secret_get_latest = refl
op_of-op_text op_secret_get_version = refl
op_of-op_text op_secret_list_by_path = refl
op_of-op_text op_secret_next_version = refl
op_of-op_text op_secret_destroy_ver = refl
op_of-op_text op_secret_update_dek_enc = refl
op_of-op_text op_pki_role_save = refl
op_of-op_text op_pki_role_get = refl
op_of-op_text op_pki_role_list = refl
op_of-op_text op_audit_append = refl
op_of-op_text op_audit_list = refl
op_of-op_text op_audit_latest_hash = refl
op_of-op_text op_revoke_save = refl
op_of-op_text op_revoke_is = refl
op_of-op_text op_revoke_list_by_ca = refl
op_of-op_text op_lease_save = refl
op_of-op_text op_lease_get = refl
op_of-op_text op_lease_list = refl
op_of-op_text op_lease_list_expired = refl
op_of-op_text op_lease_revoke = refl
op_of-op_text op_lease_count_active = refl
op_of-op_text op_policy_save = refl
op_of-op_text op_policy_get = refl
op_of-op_text op_policy_list = refl
op_of-op_text op_policy_delete = refl
op_of-op_text op_role_save = refl
op_of-op_text op_role_get = refl
op_of-op_text op_role_list = refl
op_of-op_text op_role_delete = refl
op_of-op_text op_db_role_save = refl
op_of-op_text op_db_role_get = refl
op_of-op_text op_db_role_list = refl
op_of-op_text op_db_role_delete = refl
op_of-op_text op_ssh_role_save = refl
op_of-op_text op_ssh_role_get = refl
op_of-op_text op_ssh_role_list = refl
op_of-op_text op_ssh_role_delete = refl
op_of-op_text op_issued_save = refl
op_of-op_text op_issued_get_by_serial = refl
op_of-op_text op_issued_list = refl
op_of-op_text op_issued_list_expiring = refl
op_of-op_text op_import_snapshot = refl
op_of-op_text op_export_snapshot = refl
op_of-op_text op_token_save = refl
op_of-op_text op_token_get = refl
op_of-op_text op_token_revoke = refl
op_of-op_text op_token_list = refl
op_of-op_text op_token_list_expired = refl
op_of-op_text op_machine_identity_save = refl
op_of-op_text op_machine_identity_get = refl
op_of-op_text op_machine_identity_list = refl
op_of-op_text op_machine_identity_revoke = refl
op_of-op_text op_rotation_policy_save = refl
op_of-op_text op_rotation_policy_get = refl
op_of-op_text op_rotation_policy_list = refl
op_of-op_text op_rotation_policy_delete = refl

pub op_text-filled : (op : Op) → is_empty (op_text op) ≡ false
op_text-filled op_ca_save = refl
op_text-filled op_ca_get_by_id = refl
op_text-filled op_ca_get_by_name = refl
op_text-filled op_ca_list = refl
op_text-filled op_secret_save_version = refl
op_text-filled op_secret_put = refl
op_text-filled op_secret_get_latest = refl
op_text-filled op_secret_get_version = refl
op_text-filled op_secret_list_by_path = refl
op_text-filled op_secret_next_version = refl
op_text-filled op_secret_destroy_ver = refl
op_text-filled op_secret_update_dek_enc = refl
op_text-filled op_pki_role_save = refl
op_text-filled op_pki_role_get = refl
op_text-filled op_pki_role_list = refl
op_text-filled op_audit_append = refl
op_text-filled op_audit_list = refl
op_text-filled op_audit_latest_hash = refl
op_text-filled op_revoke_save = refl
op_text-filled op_revoke_is = refl
op_text-filled op_revoke_list_by_ca = refl
op_text-filled op_lease_save = refl
op_text-filled op_lease_get = refl
op_text-filled op_lease_list = refl
op_text-filled op_lease_list_expired = refl
op_text-filled op_lease_revoke = refl
op_text-filled op_lease_count_active = refl
op_text-filled op_policy_save = refl
op_text-filled op_policy_get = refl
op_text-filled op_policy_list = refl
op_text-filled op_policy_delete = refl
op_text-filled op_role_save = refl
op_text-filled op_role_get = refl
op_text-filled op_role_list = refl
op_text-filled op_role_delete = refl
op_text-filled op_db_role_save = refl
op_text-filled op_db_role_get = refl
op_text-filled op_db_role_list = refl
op_text-filled op_db_role_delete = refl
op_text-filled op_ssh_role_save = refl
op_text-filled op_ssh_role_get = refl
op_text-filled op_ssh_role_list = refl
op_text-filled op_ssh_role_delete = refl
op_text-filled op_issued_save = refl
op_text-filled op_issued_get_by_serial = refl
op_text-filled op_issued_list = refl
op_text-filled op_issued_list_expiring = refl
op_text-filled op_import_snapshot = refl
op_text-filled op_export_snapshot = refl
op_text-filled op_token_save = refl
op_text-filled op_token_get = refl
op_text-filled op_token_revoke = refl
op_text-filled op_token_list = refl
op_text-filled op_token_list_expired = refl
op_text-filled op_machine_identity_save = refl
op_text-filled op_machine_identity_get = refl
op_text-filled op_machine_identity_list = refl
op_text-filled op_machine_identity_revoke = refl
op_text-filled op_rotation_policy_save = refl
op_text-filled op_rotation_policy_get = refl
op_text-filled op_rotation_policy_list = refl
op_text-filled op_rotation_policy_delete = refl
