-- ===== src/Backup/Restore.antt =====
-- Restore of internal/backup/import.go and ClearRepos of internal/backup/clear.go. An error that
-- fmt.Errorf wraps stands as the error inside.
use knxvault.Prelude.{
  ℕ, suc, Bool, true, false, Option, none, some, List, [], ◌∷◌, Text, if◌then◌else◌,
}
use knxvault.Errors.{ok, err}
use knxvault.Auth.Policy.{Policy}
use knxvault.Secrets.Engine.Listing.{text_lt}
use knxvault.Secrets.Store as Secrets
use knxvault.Secrets.Leases as Leases
use knxvault.Audit.Chain as Audit
use knxvault.Audit.Chain.{AuditEnv}
use knxvault.Repos.{Table, Outcome, sort_by}
use knxvault.Repos.Cas as Cas
use knxvault.Repos.PkiRoles as PkiRoles
use knxvault.Repos.IssuedCerts as IssuedCerts
use knxvault.Repos.Policies as Policies
use knxvault.Repos.Roles as Roles
use knxvault.Repos.DatabaseRoles as DatabaseRoles
use knxvault.Repos.SshRoles as SshRoles
use knxvault.Repos.Tokens as Tokens
use knxvault.Repos.Revocations as Revocations
use knxvault.Backup.Snapshot.{CaRecord, PolicyRecord, Snapshot, Repos}
use knxvault.Backup.Convert.{
  ca_to_domain, secret_to_domain, revoked_to_domain, lease_to_domain, issued_to_domain,
  audit_to_domain,
}
use knxvault.Backup.ConvertAccess.{
  policy_to_domain, role_to_domain, token_to_domain, pki_role_to_domain, ssh_role_to_domain,
  database_role_to_domain,
}
use knxvault.Backup.Validate.{validate_snapshot}
pub mod ReposValid
pub mod Kept
pub mod Trip
pub mod Exported
pub mod Whole

-- ClearRepos: every in-memory repository can be cleared.
unfoldable pub clear_repos : Repos → Repos
unfolding Cas.clear Secrets.clear Audit.clear Revocations.clear Leases.clear Policies.clear
    Roles.clear PkiRoles.clear DatabaseRoles.clear SshRoles.clear IssuedCerts.clear Tokens.clear
clear_repos r = record {
  cas = Cas.clear r.cas;
  secrets = Secrets.clear r.secrets;
  audit = Audit.clear r.audit;
  revoked = Revocations.clear r.revoked;
  leases = Leases.clear r.leases;
  policies = Policies.clear r.policies;
  roles = Roles.clear r.roles;
  pki_roles = PkiRoles.clear r.pki_roles;
  db_roles = DatabaseRoles.clear r.db_roles;
  ssh_roles = SshRoles.clear r.ssh_roles;
  issued = IssuedCerts.clear r.issued;
  tokens = Tokens.clear r.tokens;
}

abbrev is_root : Option Text → Bool
is_root none = true
is_root (some _) = false

-- The comparison of sortCAs: authorities without a parent first, then by name.
unfoldable pub restored_before : CaRecord → CaRecord → Bool
unfolding text_lt
restored_before a b = elim (is_root a.parent_id) [
  | true ↦ if is_root b.parent_id then text_lt a.name b.name else true
  | false ↦ if is_root b.parent_id then false else text_lt a.name b.name
]

-- sortCAs
unfoldable pub sort_cas : List CaRecord → List CaRecord
unfolding sort_by restored_before
sort_cas records = sort_by restored_before records

-- A step behind a step, where an error ends the two.
abbrev pub next :
    {S : Type 0} → Outcome S (Unit {0}) → (S → Outcome S (Unit {0})) → Outcome S (Unit {0})
next (s, ok _) f = f s
next (s, err e) f = (s, err e)

-- A loop that saves the records one by one, up to an error.
unfoldable pub restore_all :
    {S R : Type 0} → (S → R → Outcome S (Unit {0})) → List R → S → Outcome S (Unit {0})
restore_all save [] s = (s, ok tt)
restore_all save (r ∷ rs) s = next (save s r) (λ left. restore_all save rs left)

-- A result without its value.
abbrev pub forget : {S A : Type 0} → Outcome S A → Outcome S (Unit {0})
forget (s, ok _) = (s, ok tt)
forget (s, err e) = (s, err e)

-- What a part of the repositories becomes, put back in its place.
abbrev pub put_back : {S : Type 0} → (S → Repos) → Outcome S (Unit {0}) → Outcome Repos (Unit {0})
put_back place_back (s, result) = (place_back s, result)

-- The loop over the policies. A record has no identifier, so each policy takes one of uuid.New; the
-- function gives the identifier of each call.
unfoldable pub restore_policies :
    (ℕ → Text) → ℕ → List PolicyRecord → Table Policy → Outcome (Table Policy) (Unit {0})
unfolding Policies.save policy_to_domain
restore_policies new_uuid i [] t = (t, ok tt)
restore_policies new_uuid i (rec ∷ records) t =
    next (forget (Policies.save (new_uuid i) t (policy_to_domain rec)))
      (λ left. restore_policies new_uuid (suc i) records left)

-- What Restore calls: url.Parse behind DatabaseRole.Validate, the hashes of the audit log, and
-- uuid.New.
pub record RestoreEnv : Type 0 where
  pub url_password : Text → Bool
  pub audit : AuditEnv
  pub new_uuid : ℕ → Text

-- The loops of Restore, one after the other, up to an error.
unfoldable pub in_turn : List (Repos → Outcome Repos (Unit {0})) → Repos → Outcome Repos (Unit {0})
in_turn [] r = (r, ok tt)
in_turn (loop ∷ loops) r = next (loop r) (in_turn loops)

module _ (env : RestoreEnv) (s : Snapshot) where
  unfoldable pub restore_cas_loop : Repos → Outcome Repos (Unit {0})
  unfolding restore_all Cas.save ca_to_domain sort_cas
  restore_cas_loop r =
      put_back (λ t. record r { cas = t })
        (restore_all (λ t x. Cas.save t (ca_to_domain x)) (sort_cas s.cas) r.cas)

  unfoldable pub restore_secrets_loop : Repos → Outcome Repos (Unit {0})
  unfolding restore_all Secrets.save_version secret_to_domain
  restore_secrets_loop r =
      put_back (λ t. record r { secrets = t })
        (restore_all (λ t x. Secrets.save_version t (secret_to_domain x)) (s.secrets) r.secrets)

  unfoldable pub restore_revoked_loop : Repos → Outcome Repos (Unit {0})
  unfolding restore_all Revocations.revoke revoked_to_domain
  restore_revoked_loop r =
      put_back (λ t. record r { revoked = t })
        (restore_all (λ t x. Revocations.revoke t (revoked_to_domain x)) (s.revoked) r.revoked)

  unfoldable pub restore_policies_loop : Repos → Outcome Repos (Unit {0})
  unfolding restore_policies
  restore_policies_loop r =
      put_back (λ t. record r { policies = t })
        (restore_policies env.new_uuid 0 s.policies r.policies)

  unfoldable pub restore_roles_loop : Repos → Outcome Repos (Unit {0})
  unfolding restore_all Roles.save role_to_domain
  restore_roles_loop r =
      put_back (λ t. record r { roles = t })
        (restore_all (λ t x. Roles.save t (role_to_domain x)) (s.roles) r.roles)

  unfoldable pub restore_pki_roles_loop : Repos → Outcome Repos (Unit {0})
  unfolding restore_all PkiRoles.save pki_role_to_domain
  restore_pki_roles_loop r =
      put_back (λ t. record r { pki_roles = t })
        (restore_all (λ t x. PkiRoles.save t (pki_role_to_domain x)) (s.pki_roles) r.pki_roles)

  unfoldable pub restore_db_roles_loop : Repos → Outcome Repos (Unit {0})
  unfolding restore_all DatabaseRoles.save database_role_to_domain
  restore_db_roles_loop r =
      put_back (λ t. record r { db_roles = t })
        (restore_all (λ t x. DatabaseRoles.save env.url_password t (database_role_to_domain x))
          (s.db_roles) r.db_roles)

  unfoldable pub restore_ssh_roles_loop : Repos → Outcome Repos (Unit {0})
  unfolding restore_all SshRoles.save ssh_role_to_domain
  restore_ssh_roles_loop r =
      put_back (λ t. record r { ssh_roles = t })
        (restore_all (λ t x. SshRoles.save t (ssh_role_to_domain x)) (s.ssh_roles) r.ssh_roles)

  unfoldable pub restore_leases_loop : Repos → Outcome Repos (Unit {0})
  unfolding restore_all Leases.save lease_to_domain
  restore_leases_loop r =
      put_back (λ t. record r { leases = t })
        (restore_all (λ t x. Leases.save t (lease_to_domain x)) (s.leases) r.leases)

  unfoldable pub restore_issued_loop : Repos → Outcome Repos (Unit {0})
  unfolding restore_all IssuedCerts.save issued_to_domain
  restore_issued_loop r =
      put_back (λ t. record r { issued = t })
        (restore_all (λ t x. IssuedCerts.save t (issued_to_domain x)) (s.issued) r.issued)

  unfoldable pub restore_tokens_loop : Repos → Outcome Repos (Unit {0})
  unfolding restore_all Tokens.save token_to_domain
  restore_tokens_loop r =
      put_back (λ t. record r { tokens = t })
        (restore_all (λ t x. Tokens.save t (token_to_domain x)) (s.tokens) r.tokens)

  unfoldable pub restore_audit_loop : Repos → Outcome Repos (Unit {0})
  unfolding restore_all Audit.append audit_to_domain
  restore_audit_loop r =
      put_back (λ t. record r { audit = t })
        (restore_all (λ t x. Audit.append t (audit_to_domain x)) (s.audit) r.audit)

  -- The loops of Restore, in their order.
  unfoldable pub restore_loops : List (Repos → Outcome Repos (Unit {0}))
  unfolding restore_cas_loop restore_secrets_loop restore_revoked_loop restore_policies_loop
      restore_roles_loop restore_pki_roles_loop restore_db_roles_loop restore_ssh_roles_loop
      restore_leases_loop restore_issued_loop restore_tokens_loop restore_audit_loop
  restore_loops =
      restore_cas_loop ∷ restore_secrets_loop ∷ restore_revoked_loop ∷ restore_policies_loop
      ∷ restore_roles_loop ∷ restore_pki_roles_loop ∷ restore_db_roles_loop ∷ restore_ssh_roles_loop
      ∷ restore_leases_loop ∷ restore_issued_loop ∷ restore_tokens_loop ∷ restore_audit_loop ∷ []

  -- Restore, where every repository is configured.
  unfoldable pub restore : Repos → Outcome Repos (Unit {0})
  unfolding validate_snapshot clear_repos in_turn restore_loops
  restore r = elim (validate_snapshot env.audit s) [
    | err e ↦ (r, err e)
    | ok _ ↦ in_turn restore_loops (clear_repos r)
  ]
