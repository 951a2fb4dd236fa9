-- ===== src/Raft/PkiHandlers.antt =====
-- The handlers of internal/raft/handlers.go for authorities, PKI roles, revocations and issued certificates.
use knxvault.Prelude.{Text}
use knxvault.Errors.{ok, err}
use knxvault.Repos.Cas as Cas
use knxvault.Repos.IssuedCerts as IssuedCerts
use knxvault.Repos.PkiRoles as PkiRoles
use knxvault.Repos.Revocations as Revocations
use knxvault.Repos.{Table, Outcome}
use knxvault.Repos.PkiRoles.{PkiRole, with_usage}
use knxvault.Raft.Values.{
  id_request, name_request, serial_request, ca_id_request, before_request, cert_request, ca_value,
  cas_value, pki_role_value, pki_roles_value, revoked_value, revoked_list_value, issued_value,
  issued_list_value, bool_value,
}
use knxvault.Raft.Store.{Store}
use knxvault.Raft.Reply.{Library, Local, Reply, with_payload, answer, change, wrote, answered}
pub mod Valid

-- The role that handlePKIRoleSave returns, which Validate has changed.
abbrev pub saved_role :
    Outcome (Table PkiRole) (Unit {0}) → PkiRole → Outcome (Table PkiRole) PkiRole
saved_role (t, ok _) role = (t, ok (with_usage role))
saved_role (t, err e) role = (t, err e)

module _ (lib : Library) (local : Local) where
  -- handleCASave
  unfoldable pub handle_ca_save : Store → Text → Reply
  unfolding Cas.save
  handle_ca_save s payload =
      change lib ca_value payload s (λ x. wrote (λ t. record s { cas = t }) (Cas.save s.cas x))

  -- handleCAGetByID
  unfoldable pub handle_ca_get_by_id : Store → Text → Reply
  unfolding Cas.get_by_id
  handle_ca_get_by_id s payload =
      (s, with_payload lib id_request payload (λ x. answer ca_value (Cas.get_by_id s.cas x)))

  -- handleCAGetByName
  unfoldable pub handle_ca_get_by_name : Store → Text → Reply
  unfolding Cas.get_by_name
  handle_ca_get_by_name s payload =
      (s, with_payload lib name_request payload (λ x. answer ca_value (Cas.get_by_name s.cas x)))

  -- handleCAList
  unfoldable pub handle_ca_list : Store → Text → Reply
  unfolding Cas.list
  handle_ca_list s payload = (s, answer cas_value (ok (Cas.list s.cas)))

  -- handlePKIRoleSave
  unfoldable pub handle_pki_role_save : Store → Text → Reply
  unfolding Cas.get_by_name PkiRoles.save
  handle_pki_role_save s payload = change lib pki_role_value payload s (λ x.
      elim (Cas.get_by_name s.cas x.ca_name) [
        | err e ↦ (s, err e)
        | ok _ ↦
            answered (λ t. record s { pki_roles = t }) pki_role_value
              (saved_role (PkiRoles.save s.pki_roles x) x)
      ])

  -- handlePKIRoleGet
  unfoldable pub handle_pki_role_get : Store → Text → Reply
  unfolding PkiRoles.get
  handle_pki_role_get s payload = (
    s,
    with_payload lib name_request payload (λ x. answer pki_role_value (PkiRoles.get s.pki_roles x)),
  )

  -- handlePKIRoleList
  unfoldable pub handle_pki_role_list : Store → Text → Reply
  unfolding PkiRoles.list
  handle_pki_role_list s payload = (s, answer pki_roles_value (ok (PkiRoles.list s.pki_roles)))

  -- handleRevoke
  unfoldable pub handle_revoke_save : Store → Text → Reply
  unfolding Revocations.revoke
  handle_revoke_save s payload =
      change lib revoked_value payload s
        (λ x. wrote (λ t. record s { revoked = t }) (Revocations.revoke s.revoked x))

  -- handleRevokeIs
  unfoldable pub handle_revoke_is : Store → Text → Reply
  unfolding Revocations.is_revoked
  handle_revoke_is s payload = (
    s,
    with_payload lib serial_request payload
        (λ x. answer bool_value (ok (Revocations.is_revoked s.revoked x))),
  )

  -- handleRevokeListByCA
  unfoldable pub handle_revoke_list_by_ca : Store → Text → Reply
  unfolding Revocations.list_by_ca
  handle_revoke_list_by_ca s payload = (
    s,
    with_payload lib ca_id_request payload
        (λ x. answer revoked_list_value (ok (Revocations.list_by_ca s.revoked x))),
  )

  -- handleIssuedSave
  unfoldable pub handle_issued_save : Store → Text → Reply
  unfolding IssuedCerts.save
  handle_issued_save s payload =
      change lib issued_value payload s
        (λ x. wrote (λ t. record s { issued = t }) (IssuedCerts.save s.issued x))

  -- handleIssuedGetBySerial
  unfoldable pub handle_issued_get_by_serial : Store → Text → Reply
  unfolding IssuedCerts.get_by_serial
  handle_issued_get_by_serial s payload = (
    s,
    with_payload lib cert_request payload
        (λ x. answer issued_value (IssuedCerts.get_by_serial s.issued x.0 x.1)),
  )

  -- handleIssuedList
  unfoldable pub handle_issued_list : Store → Text → Reply
  unfolding IssuedCerts.list
  handle_issued_list s payload = (s, answer issued_list_value (ok (IssuedCerts.list s.issued)))

  -- handleIssuedListExpiring
  unfoldable pub handle_issued_list_expiring : Store → Text → Reply
  unfolding IssuedCerts.list_expiring
  handle_issued_list_expiring s payload = (
    s,
    with_payload lib before_request payload
        (λ x. answer issued_list_value (ok (IssuedCerts.list_expiring s.issued x.0 x.1))),
  )
