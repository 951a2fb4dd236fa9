-- ===== src/Raft/PkiHandlers/Valid.antt =====
-- The handlers of the authorities, roles and certificates keep the store well-formed.
use knxvault.Prelude.{inl, inr, Text}
use knxvault.Errors.{ok, err, Result-cases}
use knxvault.Repos.{Table, Outcome}
use knxvault.Repos.Kept.{PkiRolesValid, save-PkiRolesValid, save-IssuedValid}
use knxvault.Repos.Cas.Names.{save-CasValid}
use knxvault.Repos.PkiRoles.{PkiRole}
use knxvault.Repos.Revocations.{Revocations}
use knxvault.Repos.Revocations as Revocations
use knxvault.Repos.Revocations.Listed.{revoke-IsListed}
use knxvault.Repos.Cas as Cas
use knxvault.Repos.PkiRoles as PkiRoles
use knxvault.Repos.IssuedCerts as IssuedCerts
use knxvault.Raft.Values.{ca_value, issued_value, pki_role_value, revoked_value}
use knxvault.Raft.Store.{Store, repos}
use knxvault.Raft.Store.Valid.{StoreValid, with_cas, with_revoked, with_pki_roles, with_issued}
use knxvault.Raft.Reply.{Library, Local}
use knxvault.Raft.Reply.Split.{change-keeps, wrote-keeps}
use knxvault.Raft.PkiHandlers.{
  saved_role, handle_ca_save, handle_pki_role_save, handle_revoke_save, handle_issued_save,
}

saved_role-keeps :
    (role : PkiRole) (o : Outcome (Table PkiRole) (Unit {0}))
    → PkiRolesValid o.0
    → PkiRolesValid (saved_role o role).0
saved_role-keeps role (t, ok _) v = v
saved_role-keeps role (t, err e) v = v

module _ (lib : Library) (local : Local) (s : Store) (payload : Text) where
  abbrev Valid : Store → Type 0
  Valid = StoreValid lib.url_password

  pub ca_save-Valid : Valid s → Valid (handle_ca_save lib local s payload).0
  unfolding handle_ca_save repos
  ca_save-Valid v = change-keeps lib ca_value payload s Valid _ v (λ x e.
      wrote-keeps Valid (λ t. record s { cas = t }) (Cas.save s.cas x)
        (with_cas v (Cas.save s.cas x).0 (save-CasValid s.cas x v.repos.cas)))

  pub revoke_save-Valid : Valid s → Valid (handle_revoke_save lib local s payload).0
  unfolding handle_revoke_save repos
  revoke_save-Valid v = change-keeps lib revoked_value payload s Valid _ v (λ x e.
      wrote-keeps Valid (λ t. record s { revoked = t }) (Revocations.revoke s.revoked x)
        (with_revoked v (Revocations.revoke s.revoked x).0
          (revoke-IsListed s.revoked x v.repos.revoked)))

  pub issued_save-Valid : Valid s → Valid (handle_issued_save lib local s payload).0
  unfolding handle_issued_save repos
  issued_save-Valid v = change-keeps lib issued_value payload s Valid _ v (λ x e.
      wrote-keeps Valid (λ t. record s { issued = t }) (IssuedCerts.save s.issued x)
        (with_issued v (IssuedCerts.save s.issued x).0
          (save-IssuedValid s.issued x v.repos.issued)))

  pub pki_role_save-Valid : Valid s → Valid (handle_pki_role_save lib local s payload).0
  unfolding handle_pki_role_save repos
  pki_role_save-Valid v = change-keeps lib pki_role_value payload s Valid _ v (λ x e.
      elim (Result-cases (Cas.get_by_name s.cas x.ca_name)) [
        | inr (f, p) ↦ rw p v
        | inl (ca, p) ↦ rw p (
            with_pki_roles v (saved_role (PkiRoles.save s.pki_roles x) x).0 (
              saved_role-keeps x (PkiRoles.save s.pki_roles x)
                (save-PkiRolesValid s.pki_roles x v.repos.pki_roles)))
      ])
