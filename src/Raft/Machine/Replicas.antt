-- ===== src/Raft/Machine/Replicas.antt =====
-- The commands that every replica applies alike, whatever its clock and its new identifiers.
use knxvault.Prelude.{
  ◌≡◌, ◌∙◌, sym, ap, refl, inl, inr, Bool, true, false, not, none, some, List, [], ◌∷◌, Text,
  str_eq, Text-discrete, arith, Bool-cases, Option-cases, ◌==◌, insert, if◌then◌else◌,
}
use knxvault.Errors.{ok, err, Result-cases}
use knxvault.Repos.{Table, nil_uuid}
use knxvault.Repos.Policies as Policies
use knxvault.Auth.Policy.{Policy}
use knxvault.Raft.Ops.{
  Op, op_ca_save, op_ca_get_by_id, op_ca_get_by_name, op_ca_list, op_secret_save_version,
  op_secret_put, op_secret_get_latest, op_secret_get_version, op_secret_list_by_path,
  op_secret_next_version, op_secret_destroy_ver, op_secret_update_dek_enc, op_pki_role_save,
  op_pki_role_get, op_pki_role_list, op_audit_append, op_audit_list, op_audit_latest_hash,
  op_revoke_save, op_revoke_is, op_revoke_list_by_ca, op_lease_save, op_lease_get, op_lease_list,
  op_lease_list_expired, op_lease_revoke, op_lease_count_active, op_policy_save, op_policy_get,
  op_policy_list, op_policy_delete, op_role_save, op_role_get, op_role_list, op_role_delete,
  op_db_role_save, op_db_role_get, op_db_role_list, op_db_role_delete, op_ssh_role_save,
  op_ssh_role_get, op_ssh_role_list, op_ssh_role_delete, op_issued_save, op_issued_get_by_serial,
  op_issued_list, op_issued_list_expiring, op_import_snapshot, op_export_snapshot, op_token_save,
  op_token_get, op_token_revoke, op_token_list, op_token_list_expired, op_machine_identity_save,
  op_machine_identity_get, op_machine_identity_list, op_machine_identity_revoke,
  op_rotation_policy_save, op_rotation_policy_get, op_rotation_policy_list,
  op_rotation_policy_delete, op_of,
}
use knxvault.Raft.Values.{policy_value, entry_value}
use knxvault.Raft.Store.{Store}
use knxvault.Raft.Reply.{Library, Local}
use knxvault.Raft.Reply.Split.{change-agrees}
use knxvault.Raft.PkiHandlers.{
  handle_ca_save, handle_ca_get_by_id, handle_ca_get_by_name, handle_ca_list, handle_pki_role_save,
  handle_pki_role_get, handle_pki_role_list, handle_revoke_save, handle_revoke_is,
  handle_revoke_list_by_ca, handle_issued_save, handle_issued_get_by_serial, handle_issued_list,
  handle_issued_list_expiring,
}
use knxvault.Raft.SecretHandlers.{
  handle_secret_save_version, handle_secret_put, handle_secret_get_latest,
  handle_secret_get_version, handle_secret_list_by_path, handle_secret_next_version,
  handle_secret_destroy_ver, handle_secret_update_dek_enc, handle_lease_save, handle_lease_get,
  handle_lease_list, handle_lease_list_expired, handle_lease_revoke, handle_lease_count_active,
  handle_db_role_save, handle_db_role_get, handle_db_role_list, handle_db_role_delete,
  handle_ssh_role_save, handle_ssh_role_get, handle_ssh_role_list, handle_ssh_role_delete,
  handle_rotation_policy_save, handle_rotation_policy_get, handle_rotation_policy_list,
  handle_rotation_policy_delete,
}
use knxvault.Raft.AccessHandlers.{
  stamped, handle_audit_append, handle_audit_list, handle_audit_latest_hash, handle_policy_save,
  handle_policy_get, handle_policy_list, handle_policy_delete, handle_role_save, handle_role_get,
  handle_role_list, handle_role_delete, handle_export_snapshot, handle_token_save, handle_token_get,
  handle_token_revoke, handle_token_list, handle_token_list_expired, handle_machine_identity_save,
  handle_machine_identity_get, handle_machine_identity_list, handle_machine_identity_revoke,
}
use knxvault.Raft.Machine.{store_handler, run, handle, update, decode_command, replay}

-- What a Save leaves of a policy that has an identifier.
abbrev put_policy : Table Policy → Policy → Table Policy
put_policy t p = if not (Policies.accepts p) then t else insert Text-discrete p.name p t

-- A command that carries the identifiers and the times that it needs. The policies of a snapshot have
-- no identifiers, so an import is none.
abbrev fixed_op : Library → Op → Text → Bool
fixed_op lib op_policy_save payload = elim (lib.json.decode policy_value payload) [
  | none ↦ true
  | some policy ↦ not (str_eq policy.id nil_uuid)
]
fixed_op lib op_audit_append payload = elim (lib.json.decode entry_value payload) [
  | none ↦ true
  | some entry ↦ not (entry.timestamp == 0)
]
fixed_op lib op_import_snapshot payload = false
fixed_op lib _ payload = true

-- An entry of the log that is no command, or whose command is such a one or has no handler.
abbrev pub is_fixed : Library → Text → Bool
is_fixed lib entry = elim (decode_command lib entry) [
  | err _ ↦ true
  | ok cmd ↦ elim (op_of cmd.op) [ none ↦ true | some op ↦ fixed_op lib op cmd.payload ]
]

-- Two logs with the same entries, each of this kind, applied on two replicas.
abbrev pub SameEntries : Library → List (Local × Text) → List (Local × Text) → Type 0
SameEntries lib [] [] = Unit
SameEntries lib [] (_ ∷ _) = ⊥
SameEntries lib (_ ∷ _) [] = ⊥
SameEntries lib ((_, a) ∷ log) ((_, b) ∷ other) =
    (a ≡ b) × (is_fixed lib a ≡ true) × SameEntries lib log other

with_id-kept :
    (new_id : Text) (p : Policy) → str_eq p.id nil_uuid ≡ false → Policies.with_id new_id p ≡ p
unfolding Policies.with_id Text-discrete
with_id-kept new_id p h = rw h refl

policy_save-kept :
    (new_id : Text) (t : Table Policy) (p : Policy)
    → str_eq p.id nil_uuid ≡ false
    → (Policies.save new_id t p).0 ≡ put_policy t p
unfolding Policies.save
policy_save-kept new_id t p h =
    rw (with_id-kept new_id p h)
      (elim (Bool-cases (Policies.accepts p)) [ inl e ↦ rw e refl | inr e ↦ rw e refl ])

module _ (lib : Library) (here there : Local) where
  policy_save-agrees :
      (s : Store) (payload : Text)
      → fixed_op lib op_policy_save payload ≡ true
      → (handle_policy_save lib here s payload).0 ≡ (handle_policy_save lib there s payload).0
  unfolding handle_policy_save Policies.save Policies.with_id
  policy_save-agrees s payload h = change-agrees lib policy_value payload s _ _ (λ policy e.
      let kept : str_eq policy.id nil_uuid ≡ false = ground arith in
      ap (λ t. record s { policies = t })
        (policy_save-kept (here.new_uuid 0) s.policies policy kept
          ∙ sym (policy_save-kept (there.new_uuid 0) s.policies policy kept)))

  audit_append-agrees :
      (s : Store) (payload : Text)
      → fixed_op lib op_audit_append payload ≡ true
      → (handle_audit_append lib here s payload).0 ≡ (handle_audit_append lib there s payload).0
  unfolding handle_audit_append stamped
  audit_append-agrees s payload h =
      change-agrees lib entry_value payload s _ _
        (λ entry e. let kept : (entry.timestamp == 0) ≡ false = ground arith in rw kept refl)

  store_handler-agrees :
      (op : Op) (s : Store) (payload : Text)
      → fixed_op lib op payload ≡ true
      → (store_handler lib here op s payload).0 ≡ (store_handler lib there op s payload).0
  unfolding store_handler handle_ca_save handle_ca_get_by_id handle_ca_get_by_name handle_ca_list
      handle_secret_save_version handle_secret_put handle_secret_get_latest
      handle_secret_get_version handle_secret_list_by_path handle_secret_next_version
      handle_secret_destroy_ver handle_secret_update_dek_enc handle_pki_role_save
      handle_pki_role_get handle_pki_role_list handle_audit_list handle_audit_latest_hash
      handle_revoke_save handle_revoke_is handle_revoke_list_by_ca handle_lease_save
      handle_lease_get handle_lease_list handle_lease_list_expired handle_lease_revoke
      handle_lease_count_active handle_policy_get handle_policy_list handle_policy_delete
      handle_role_save handle_role_get handle_role_list handle_role_delete handle_db_role_save
      handle_db_role_get handle_db_role_list handle_db_role_delete handle_ssh_role_save
      handle_ssh_role_get handle_ssh_role_list handle_ssh_role_delete handle_issued_save
      handle_issued_get_by_serial handle_issued_list handle_issued_list_expiring
      handle_export_snapshot handle_token_save handle_token_get handle_token_revoke
      handle_token_list handle_token_list_expired handle_machine_identity_save
      handle_machine_identity_get handle_machine_identity_list handle_machine_identity_revoke
      handle_rotation_policy_save handle_rotation_policy_get handle_rotation_policy_list
      handle_rotation_policy_delete
  store_handler-agrees op_ca_save s payload h = refl
  store_handler-agrees op_ca_get_by_id s payload h = refl
  store_handler-agrees op_ca_get_by_name s payload h = refl
  store_handler-agrees op_ca_list s payload h = refl
  store_handler-agrees op_secret_save_version s payload h = refl
  store_handler-agrees op_secret_put s payload h = refl
  store_handler-agrees op_secret_get_latest s payload h = refl
  store_handler-agrees op_secret_get_version s payload h = refl
  store_handler-agrees op_secret_list_by_path s payload h = refl
  store_handler-agrees op_secret_next_version s payload h = refl
  store_handler-agrees op_secret_destroy_ver s payload h = refl
  store_handler-agrees op_secret_update_dek_enc s payload h = refl
  store_handler-agrees op_pki_role_save s payload h = refl
  store_handler-agrees op_pki_role_get s payload h = refl
  store_handler-agrees op_pki_role_list s payload h = refl
  store_handler-agrees op_audit_append s payload h = audit_append-agrees s payload h
  store_handler-agrees op_audit_list s payload h = refl
  store_handler-agrees op_audit_latest_hash s payload h = refl
  store_handler-agrees op_revoke_save s payload h = refl
  store_handler-agrees op_revoke_is s payload h = refl
  store_handler-agrees op_revoke_list_by_ca s payload h = refl
  store_handler-agrees op_lease_save s payload h = refl
  store_handler-agrees op_lease_get s payload h = refl
  store_handler-agrees op_lease_list s payload h = refl
  store_handler-agrees op_lease_list_expired s payload h = refl
  store_handler-agrees op_lease_revoke s payload h = refl
  store_handler-agrees op_lease_count_active s payload h = refl
  store_handler-agrees op_policy_save s payload h = policy_save-agrees s payload h
  store_handler-agrees op_policy_get s payload h = refl
  store_handler-agrees op_policy_list s payload h = refl
  store_handler-agrees op_policy_delete s payload h = refl
  store_handler-agrees op_role_save s payload h = refl
  store_handler-agrees op_role_get s payload h = refl
  store_handler-agrees op_role_list s payload h = refl
  store_handler-agrees op_role_delete s payload h = refl
  store_handler-agrees op_db_role_save s payload h = refl
  store_handler-agrees op_db_role_get s payload h = refl
  store_handler-agrees op_db_role_list s payload h = refl
  store_handler-agrees op_db_role_delete s payload h = refl
  store_handler-agrees op_ssh_role_save s payload h = refl
  store_handler-agrees op_ssh_role_get s payload h = refl
  store_handler-agrees op_ssh_role_list s payload h = refl
  store_handler-agrees op_ssh_role_delete s payload h = refl
  store_handler-agrees op_issued_save s payload h = refl
  store_handler-agrees op_issued_get_by_serial s payload h = refl
  store_handler-agrees op_issued_list s payload h = refl
  store_handler-agrees op_issued_list_expiring s payload h = refl
  store_handler-agrees op_import_snapshot s payload h = absurd (cc)
  store_handler-agrees op_export_snapshot s payload h = refl
  store_handler-agrees op_token_save s payload h = refl
  store_handler-agrees op_token_get s payload h = refl
  store_handler-agrees op_token_revoke s payload h = refl
  store_handler-agrees op_token_list s payload h = refl
  store_handler-agrees op_token_list_expired s payload h = refl
  store_handler-agrees op_machine_identity_save s payload h = refl
  store_handler-agrees op_machine_identity_get s payload h = refl
  store_handler-agrees op_machine_identity_list s payload h = refl
  store_handler-agrees op_machine_identity_revoke s payload h = refl
  store_handler-agrees op_rotation_policy_save s payload h = refl
  store_handler-agrees op_rotation_policy_get s payload h = refl
  store_handler-agrees op_rotation_policy_list s payload h = refl
  store_handler-agrees op_rotation_policy_delete s payload h = refl

  update-agrees :
      (s : Store) (entry : Text)
      → is_fixed lib entry ≡ true
      → (update lib here s entry).0 ≡ (update lib there s entry).0
  unfolding update handle run
  update-agrees s entry h = elim (Result-cases (decode_command lib entry)) [
    | inr (e, p) ↦ rw (p, update) refl
    | inl (cmd, p) ↦ elim (Option-cases (op_of cmd.op)) [
      | inl q ↦ rw (p, update, q, handle, run) refl
      | inr (op, q) ↦
          rw (p, update, q, handle, run) (store_handler-agrees op s cmd.payload (ground arith))
    ]
  ]

-- Replicas that apply the same entries to the same store are in the same store afterwards, whatever
-- their clocks and the identifiers that uuid.New gives them, where no entry is a policy without an
-- identifier, an audit entry without a time, or the import of a snapshot.
pub replay-agrees :
    (lib : Library) (log other : List (Local × Text)) (s : Store)
    → SameEntries lib log other
    → replay lib log s ≡ replay lib other s
unfolding replay
replay-agrees lib [] [] s h = refl
replay-agrees lib [] (_ ∷ _) s h = absurd h
replay-agrees lib (_ ∷ _) [] s h = absurd h
replay-agrees lib ((here, a) ∷ log) ((there, b) ∷ other) s h =
    rw (sym h.0, update-agrees lib here there s a h.1) (replay-agrees lib log other _ h.2)
