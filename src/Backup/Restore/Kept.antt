-- ===== src/Backup/Restore/Kept.antt =====
-- Restore leaves well-formed repositories behind, also where an error ends it.
use knxvault.Prelude.{lookup, none, some, ◌≡◌, ℕ, suc, refl, inl, inr, List, [], ◌∷◌, Text}
use knxvault.Errors.{ok, err, Result-cases}
use knxvault.Auth.Policy.{Policy}
use knxvault.Secrets.Store.{Store, save_version}
use knxvault.Secrets.Store as Secrets
use knxvault.Secrets.Store.Valid.{IsValid, operations-IsValid}
use knxvault.Secrets.Leases.{Leases}
use knxvault.Secrets.Leases as Leases
use knxvault.Audit.Chain as Audit
use knxvault.Audit.Chain.Numbered.{AuditValid, append-AuditValid}
use knxvault.Repos.{Table, Outcome, values}
use knxvault.Repos.Kept.{
  PkiRolesValid, IssuedValid, LeasesValid, PoliciesValid, RolesValid, DatabaseRolesValid,
  SshRolesValid, TokensValid, save-PkiRolesValid, save-IssuedValid, save-LeasesValid,
  save-PoliciesValid, save-RolesValid, save-DatabaseRolesValid, save-SshRolesValid,
  save-TokensValid,
}
use knxvault.Repos.Cas.Names.{CasValid, save-CasValid}
use knxvault.Repos.Revocations.{Revocations}
use knxvault.Repos.Revocations as Revocations
use knxvault.Repos.Revocations.Listed.{IsListed, revoke-IsListed}
use knxvault.Repos.Cas as Cas
use knxvault.Repos.PkiRoles as PkiRoles
use knxvault.Repos.IssuedCerts as IssuedCerts
use knxvault.Repos.Policies as Policies
use knxvault.Repos.Roles as Roles
use knxvault.Repos.DatabaseRoles as DatabaseRoles
use knxvault.Repos.SshRoles as SshRoles
use knxvault.Repos.Tokens as Tokens
use knxvault.Backup.Snapshot.{PolicyRecord, Snapshot, Repos}
use knxvault.Backup.Convert.{
  ca_to_domain, secret_to_domain, revoked_to_domain, lease_to_domain, issued_to_domain,
  audit_to_domain,
}
use knxvault.Backup.ConvertAccess.{
  policy_to_domain, role_to_domain, token_to_domain, pki_role_to_domain, ssh_role_to_domain,
  database_role_to_domain,
}
use knxvault.Backup.Restore.ReposValid.{
  ReposValid, with_cas, with_secrets, with_audit, with_revoked, with_leases, with_policies,
  with_roles, with_pki_roles, with_db_roles, with_ssh_roles, with_issued, with_tokens,
}
use knxvault.Backup.Restore.{
  RestoreEnv, clear_repos, sort_cas, next, restore_all, forget, put_back, restore_policies, in_turn,
  restore_loops, restore, restore_cas_loop, restore_secrets_loop, restore_revoked_loop,
  restore_policies_loop, restore_roles_loop, restore_pki_roles_loop, restore_db_roles_loop,
  restore_ssh_roles_loop, restore_leases_loop, restore_issued_loop, restore_tokens_loop,
  restore_audit_loop,
}
use knxvault.Backup.Validate.{validate_snapshot}

next-keeps :
    {S : Type 0} (P : S → Type 0) (o : Outcome S (Unit {0})) (f : S → Outcome S (Unit {0}))
    → P o.0
    → ((s : S) → P s → P (f s).0)
    → P (next o f).0
next-keeps P (s, ok _) f p h = h s p
next-keeps P (s, err e) f p h = p

restore_all-keeps :
    {S R : Type 0} (P : S → Type 0) (save : S → R → Outcome S (Unit {0})) (rs : List R) (s : S)
    → ((s : S) (r : R) → P s → P (save s r).0)
    → P s
    → P (restore_all save rs s).0
unfolding restore_all
restore_all-keeps P save [] s h p = p
restore_all-keeps P save (r ∷ rs) s h p =
    next-keeps P (save s r) _ (h s r p) (λ left q. restore_all-keeps P save rs left h q)

put_back-keeps :
    {S : Type 0} (P : Repos → Type 0) (g : S → Repos) (o : Outcome S (Unit {0}))
    → P (g o.0)
    → P (put_back g o).0
put_back-keeps P g (s, result) p = p

-- A loop of saves that each keep a predicate, behind which the repositories are put back.
loop-keeps :
    {S R : Type 0} (P : Repos → Type 0) (Q : S → Type 0) {put_in : S → Repos}
    (save : S → R → Outcome S (Unit {0})) (rs : List R) (t : S)
    → ((left : S) → Q left → P (put_in left))
    → ((left : S) (r : R) → Q left → Q (save left r).0)
    → Q t
    → P (put_back put_in (restore_all save rs t)).0
loop-keeps P Q {put_in} save rs t with_left h q =
    put_back-keeps P put_in (restore_all save rs t)
      (with_left (restore_all save rs t).0 (restore_all-keeps Q save rs t h q))

forget-keeps : {S A : Type 0} (P : S → Type 0) (o : Outcome S A) → P o.0 → P (forget o).0
forget-keeps P (s, ok _) p = p
forget-keeps P (s, err e) p = p

restore_policies-keeps :
    (new_uuid : ℕ → Text) (i : ℕ) (records : List PolicyRecord) (t : Table Policy)
    → PoliciesValid t
    → PoliciesValid (restore_policies new_uuid i records t).0
unfolding restore_policies
restore_policies-keeps new_uuid i [] t v = v
restore_policies-keeps new_uuid i (rec ∷ records) t v =
    let saved = Policies.save (new_uuid i) t (policy_to_domain rec) in
    next-keeps PoliciesValid (forget saved) (restore_policies new_uuid (suc i) records)
      (forget-keeps PoliciesValid saved
        (save-PoliciesValid (new_uuid i) t (policy_to_domain rec) v))
      (λ left w. restore_policies-keeps new_uuid (suc i) records left w)

-- Loops that each keep a predicate.
abbrev EachKeeps : (Repos → Type 0) → List (Repos → Outcome Repos (Unit {0})) → Type 0
EachKeeps P [] = Unit
EachKeeps P (loop ∷ loops) = ((r : Repos) → P r → P (loop r).0) × EachKeeps P loops

in_turn-keeps :
    (P : Repos → Type 0) (loops : List (Repos → Outcome Repos (Unit {0}))) (r : Repos)
    → EachKeeps P loops
    → P r
    → P (in_turn loops r).0
unfolding in_turn
in_turn-keeps P [] r h p = p
in_turn-keeps P (loop ∷ loops) r h p =
    next-keeps P (loop r) (in_turn loops) (h.0 r p) (λ left q. in_turn-keeps P loops left h.1 q)

some_ne_none : {A : Type 0} {a : A} → none ≡ some a → ⊥
some_ne_none h = cc

module _ (env : RestoreEnv) (s : Snapshot) where
  abbrev Valid : Repos → Type 0
  Valid = ReposValid env.url_password

  restore_cas_loop-Valid : (r : Repos) → Valid r → Valid (restore_cas_loop env s r).0
  unfolding restore_cas_loop
  restore_cas_loop-Valid r v =
      loop-keeps Valid CasValid (λ t x. Cas.save t (ca_to_domain x)) (sort_cas s.cas) r.cas
        (with_cas v) (λ t x. save-CasValid t (ca_to_domain x)) v.cas

  restore_secrets_loop-Valid : (r : Repos) → Valid r → Valid (restore_secrets_loop env s r).0
  unfolding restore_secrets_loop
  restore_secrets_loop-Valid r v =
      loop-keeps Valid IsValid (λ t x. Secrets.save_version t (secret_to_domain x)) (s.secrets)
        r.secrets (with_secrets v) (λ t x. λ w. (operations-IsValid t w).0 (secret_to_domain x))
        v.secrets

  restore_revoked_loop-Valid : (r : Repos) → Valid r → Valid (restore_revoked_loop env s r).0
  unfolding restore_revoked_loop
  restore_revoked_loop-Valid r v =
      loop-keeps Valid IsListed (λ t x. Revocations.revoke t (revoked_to_domain x)) (s.revoked)
        r.revoked (with_revoked v) (λ t x. revoke-IsListed t (revoked_to_domain x)) v.revoked

  restore_policies_loop-Valid : (r : Repos) → Valid r → Valid (restore_policies_loop env s r).0
  unfolding restore_policies_loop
  restore_policies_loop-Valid r v =
      let left = restore_policies env.new_uuid 0 s.policies r.policies in
      put_back-keeps Valid (λ t. record r { policies = t }) left
        (with_policies v left.0
          (restore_policies-keeps env.new_uuid 0 s.policies r.policies v.policies))

  restore_roles_loop-Valid : (r : Repos) → Valid r → Valid (restore_roles_loop env s r).0
  unfolding restore_roles_loop
  restore_roles_loop-Valid r v =
      loop-keeps Valid RolesValid (λ t x. Roles.save t (role_to_domain x)) (s.roles) r.roles
        (with_roles v) (λ t x. save-RolesValid t (role_to_domain x)) v.roles

  restore_pki_roles_loop-Valid : (r : Repos) → Valid r → Valid (restore_pki_roles_loop env s r).0
  unfolding restore_pki_roles_loop
  restore_pki_roles_loop-Valid r v =
      loop-keeps Valid PkiRolesValid (λ t x. PkiRoles.save t (pki_role_to_domain x)) (s.pki_roles)
        r.pki_roles (with_pki_roles v) (λ t x. save-PkiRolesValid t (pki_role_to_domain x))
        v.pki_roles

  restore_db_roles_loop-Valid : (r : Repos) → Valid r → Valid (restore_db_roles_loop env s r).0
  unfolding restore_db_roles_loop
  restore_db_roles_loop-Valid r v =
      loop-keeps Valid (DatabaseRolesValid env.url_password)
        (λ t x. DatabaseRoles.save env.url_password t (database_role_to_domain x)) s.db_roles
        r.db_roles (with_db_roles v)
        (λ t x. save-DatabaseRolesValid env.url_password t (database_role_to_domain x)) v.db_roles

  restore_ssh_roles_loop-Valid : (r : Repos) → Valid r → Valid (restore_ssh_roles_loop env s r).0
  unfolding restore_ssh_roles_loop
  restore_ssh_roles_loop-Valid r v =
      loop-keeps Valid SshRolesValid (λ t x. SshRoles.save t (ssh_role_to_domain x)) (s.ssh_roles)
        r.ssh_roles (with_ssh_roles v) (λ t x. save-SshRolesValid t (ssh_role_to_domain x))
        v.ssh_roles

  restore_leases_loop-Valid : (r : Repos) → Valid r → Valid (restore_leases_loop env s r).0
  unfolding restore_leases_loop
  restore_leases_loop-Valid r v =
      loop-keeps Valid LeasesValid (λ t x. Leases.save t (lease_to_domain x)) (s.leases) r.leases
        (with_leases v) (λ t x. save-LeasesValid t (lease_to_domain x)) v.leases

  restore_issued_loop-Valid : (r : Repos) → Valid r → Valid (restore_issued_loop env s r).0
  unfolding restore_issued_loop
  restore_issued_loop-Valid r v =
      loop-keeps Valid IssuedValid (λ t x. IssuedCerts.save t (issued_to_domain x)) (s.issued)
        r.issued (with_issued v) (λ t x. save-IssuedValid t (issued_to_domain x)) v.issued

  restore_tokens_loop-Valid : (r : Repos) → Valid r → Valid (restore_tokens_loop env s r).0
  unfolding restore_tokens_loop
  restore_tokens_loop-Valid r v =
      loop-keeps Valid TokensValid (λ t x. Tokens.save t (token_to_domain x)) (s.tokens) r.tokens
        (with_tokens v) (λ t x. save-TokensValid t (token_to_domain x)) v.tokens

  restore_audit_loop-Valid : (r : Repos) → Valid r → Valid (restore_audit_loop env s r).0
  unfolding restore_audit_loop
  restore_audit_loop-Valid r v =
      loop-keeps Valid AuditValid (λ t x. Audit.append t (audit_to_domain x)) (s.audit) r.audit
        (with_audit v) (λ t x. append-AuditValid t (audit_to_domain x)) v.audit

  pub clear_repos-Valid : (r : Repos) → Valid (clear_repos r)
  unfolding clear_repos Secrets.clear Leases.clear Audit.clear Revocations.clear Cas.clear
      PkiRoles.clear IssuedCerts.clear Policies.clear Roles.clear DatabaseRoles.clear SshRoles.clear
      Tokens.clear Revocations.list_by_ca values lookup
  clear_repos-Valid r = record {
    cas = (tt, λ a b i. absurd i);
    secrets = tt;
    audit = refl;
    revoked = (λ cert h. absurd (some_ne_none h), λ ca_id cert i. absurd i);
    leases = tt;
    policies = tt;
    roles = tt;
    pki_roles = tt;
    db_roles = tt;
    ssh_roles = tt;
    issued = tt;
    tokens = tt;
  }

  -- Restore leaves well-formed repositories behind where they were well-formed before, whatever the
  -- snapshot holds and wherever an error ends it.
  pub restore-ReposValid :
      (r : Repos) → ReposValid env.url_password r → ReposValid env.url_password (restore env s r).0
  unfolding restore restore_loops
  restore-ReposValid r v = elim (Result-cases (validate_snapshot env.audit s)) [
    | inr (e, p) ↦ rw (p, restore) v
    | inl (u, p) ↦
        rw (p, restore)
          (in_turn-keeps Valid (restore_loops env s) (clear_repos r)
            (
              restore_cas_loop-Valid,
              (
                restore_secrets_loop-Valid,
                (
                  restore_revoked_loop-Valid,
                  (
                    restore_policies_loop-Valid,
                    (
                      restore_roles_loop-Valid,
                      (
                        restore_pki_roles_loop-Valid,
                        (
                          restore_db_roles_loop-Valid,
                          (
                            restore_ssh_roles_loop-Valid,
                            (
                              restore_leases_loop-Valid,
                              (
                                restore_issued_loop-Valid,
                                (restore_tokens_loop-Valid, (restore_audit_loop-Valid, tt)),
                              ),
                            ),
                          ),
                        ),
                      ),
                    ),
                  ),
                ),
              ),
            )
            (clear_repos-Valid r))
  ]
