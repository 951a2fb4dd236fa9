-- ===== src/Backup/Restore/Whole.antt =====
-- What a Restore that succeeds leaves of the tokens and the issued certificates of an export.
use knxvault.Prelude.{
  ◌≡◌, refl, sym, ◌∙◌, ap, inl, inr, ℕ, List, [], ◌∷◌, ◌++◌, Text, Text-discrete, lookup, arith,
}
use knxvault.Errors.{ok, err, KnxVaultError, Result-cases}
use knxvault.Repos.{Outcome}
use knxvault.Repos.Kept.{IssuedValid, TokensValid}
use knxvault.Repos.IssuedCerts as IssuedCerts
use knxvault.Backup.Snapshot.{Repos, Snapshot}
use knxvault.Backup.Export.{ExportOptions, export}
use knxvault.Backup.Validate.{validate_snapshot}
use knxvault.Backup.Restore.{
  RestoreEnv, clear_repos, next, put_back, in_turn, restore_loops, restore, restore_cas_loop,
  restore_secrets_loop, restore_revoked_loop, restore_policies_loop, restore_roles_loop,
  restore_pki_roles_loop, restore_db_roles_loop, restore_ssh_roles_loop, restore_leases_loop,
  restore_issued_loop, restore_tokens_loop, restore_audit_loop,
}
use knxvault.Backup.Restore.Trip.{changed}
use knxvault.Backup.Restore.Exported.{
  without_limits, restore_tokens_loop-kept, restore_issued_loop-same,
}

abbrev Loop : Type 0
Loop = Repos → Outcome Repos (Unit {0})

put_back_left : {S : Type 0} (g : S → Repos) (o : Outcome S (Unit {0})) → (put_back g o).0 ≡ g o.0
put_back_left g (t, r) = refl

put_back_result : {S : Type 0} (g : S → Repos) (o : Outcome S (Unit {0})) → (put_back g o).1 ≡ o.1
put_back_result g (t, r) = refl

not_ok : {e : KnxVaultError} → err e ≡ ok tt → ⊥
not_ok h = ground arith

next-ok : (o : Outcome Repos (Unit {0})) (f : Loop) → (next o f).1 ≡ ok tt → next o f ≡ f o.0
next-ok (r, ok _) f h = refl
next-ok (r, err e) f h = absurd (not_ok h)

module _ {X : Type 0} (part : Repos → X) where
  -- Loops that leave a part of the repositories as it is.
  abbrev Leave : List Loop → Type 0
  Leave [] = Unit
  Leave (loop ∷ loops) = ((r : Repos) → part (loop r).0 ≡ part r) × Leave loops

  next-part :
      (o : Outcome Repos (Unit {0})) (f : Loop)
      → ((r : Repos) → part (f r).0 ≡ part r)
      → part (next o f).0 ≡ part o.0
  next-part (r, ok _) f h = h r
  next-part (r, err e) f h = refl

  in_turn-part : (loops : List Loop) → Leave loops → (r : Repos) → part (in_turn loops r).0 ≡ part r
  unfolding in_turn
  in_turn-part [] l r = refl
  in_turn-part (loop ∷ loops) l r =
      next-part (loop r) (in_turn loops) (in_turn-part loops l.1) ∙ l.0 r

  -- Loops that succeed, one of which may change the part: it stays what that one makes of it.
  in_turn-one :
      (before after : List Loop) (loop : Loop) (r : Repos)
      → Leave before
      → Leave after
      → ((a b : Repos) → part a ≡ part b → part (loop a).0 ≡ part (loop b).0)
      → (in_turn (before ++ loop ∷ after) r).1 ≡ ok tt
      → part (in_turn (before ++ loop ∷ after) r).0 ≡ part (loop r).0
  unfolding in_turn
  in_turn-one [] after loop r b l same h = next-part (loop r) (in_turn after) (in_turn-part after l)
  in_turn-one (first ∷ before) after loop r b l same h =
      let e = next-ok (first r) (in_turn (before ++ loop ∷ after)) h in
      ap (λ o. part o.0) e
      ∙ in_turn-one before after loop (first r).0 b.1 l same (sym (ap (λ o. o.1) e) ∙ h)
      ∙ same (first r).0 r (b.0 r)

restore-ok :
    (env : RestoreEnv) (s : Snapshot) (q : Repos)
    → (restore env s q).1 ≡ ok tt
    → restore env s q ≡ in_turn (restore_loops env s) (clear_repos q)
unfolding restore
restore-ok env s q h = elim (Result-cases (validate_snapshot env.audit s)) [
  | inl (u, p) ↦ rw (p, restore) refl
  | inr (e, p) ↦ absurd (not_ok (rw (p, restore) at h))
]

module _ (env : RestoreEnv) (s : Snapshot) where
  tokens_same :
      (a b : Repos)
      → a.tokens ≡ b.tokens
      → (restore_tokens_loop env s a).0.tokens ≡ (restore_tokens_loop env s b).0.tokens
  unfolding restore_tokens_loop
  tokens_same a b h = rw h refl

  issued_same :
      (a b : Repos)
      → a.issued ≡ b.issued
      → (restore_issued_loop env s a).0.issued ≡ (restore_issued_loop env s b).0.issued
  unfolding restore_issued_loop
  issued_same a b h = rw h refl

  -- The loops in front of that of the issued certificates.
  abbrev first_loops : List Loop
  first_loops =
      restore_cas_loop env s
      ∷ restore_secrets_loop env s
      ∷ restore_revoked_loop env s
      ∷ restore_policies_loop env s
      ∷ restore_roles_loop env s
      ∷ restore_pki_roles_loop env s
      ∷ restore_db_roles_loop env s
      ∷ restore_ssh_roles_loop env s
      ∷ restore_leases_loop env s
      ∷ []

  before_tokens : Leave (λ r. r.tokens) (first_loops ++ restore_issued_loop env s ∷ [])
  unfolding restore_cas_loop restore_secrets_loop restore_revoked_loop restore_policies_loop
      restore_roles_loop restore_pki_roles_loop restore_db_roles_loop restore_ssh_roles_loop
      restore_leases_loop restore_issued_loop restore_tokens_loop restore_audit_loop
  before_tokens = (
    λ r. refl,
    (
      λ r. refl,
      (
        λ r. refl,
        (
          λ r. refl,
          (λ r. refl, (λ r. refl, (λ r. refl, (λ r. refl, (λ r. refl, (λ r. refl, tt)))))),
        ),
      ),
    ),
  )

  after_tokens : Leave (λ r. r.tokens) (restore_audit_loop env s ∷ [])
  unfolding restore_audit_loop
  after_tokens = (λ r. refl, tt)

  before_issued : Leave (λ r. r.issued) first_loops
  unfolding restore_cas_loop restore_secrets_loop restore_revoked_loop restore_policies_loop
      restore_roles_loop restore_pki_roles_loop restore_db_roles_loop restore_ssh_roles_loop
      restore_leases_loop restore_issued_loop restore_tokens_loop restore_audit_loop
  before_issued = (
    λ r. refl,
    (
      λ r. refl,
      (λ r. refl, (λ r. refl, (λ r. refl, (λ r. refl, (λ r. refl, (λ r. refl, (λ r. refl, tt))))))),
    ),
  )

  after_issued : Leave (λ r. r.issued) (restore_tokens_loop env s ∷ restore_audit_loop env s ∷ [])
  unfolding restore_audit_loop restore_tokens_loop
  after_issued = (λ r. refl, (λ r. refl, tt))

  restore-tokens :
      (q : Repos)
      → (restore env s q).1 ≡ ok tt
      → (restore env s q).0.tokens ≡ (restore_tokens_loop env s (clear_repos q)).0.tokens
  unfolding restore_loops
  restore-tokens q h =
      let e = restore-ok env s q h in
      ap (λ o. o.0.tokens) e
      ∙ in_turn-one (λ r. r.tokens) (first_loops ++ restore_issued_loop env s ∷ [])
          (restore_audit_loop env s ∷ []) (restore_tokens_loop env s) (clear_repos q) before_tokens
          after_tokens tokens_same (sym (ap (λ o. o.1) e) ∙ h)

  restore-issued :
      (q : Repos)
      → (restore env s q).1 ≡ ok tt
      → (restore env s q).0.issued ≡ (restore_issued_loop env s (clear_repos q)).0.issued
  unfolding restore_loops
  restore-issued q h =
      let e = restore-ok env s q h in
      ap (λ o. o.0.issued) e
      ∙ in_turn-one (λ r. r.issued) first_loops
          (restore_tokens_loop env s ∷ restore_audit_loop env s ∷ []) (restore_issued_loop env s)
          (clear_repos q) before_issued after_issued issued_same (sym (ap (λ o. o.1) e) ∙ h)

-- Where a Restore of an export succeeds, over whatever was stored, each identifier of a token leads to
-- the token that it led to when the export was made, without the identity and the agent it belongs
-- to, the actions and the path that it was limited to, and its last expiry.
pub export-restore_tokens :
    (env : RestoreEnv) (r q : Repos) (opts : ExportOptions) (now : ℕ) (k : Text)
    → TokensValid r.tokens
    → (restore env (export r opts now) q).1 ≡ ok tt
    → lookup Text-discrete k (restore env (export r opts now) q).0.tokens
      ≡ changed without_limits (lookup Text-discrete k r.tokens)
export-restore_tokens env r q opts now k v h =
    ap (lookup Text-discrete k) (restore-tokens env (export r opts now) q h)
    ∙ (restore_tokens_loop-kept env r q opts now k v).1

-- Where a Restore of an export succeeds, over whatever was stored, each authority and serial number
-- lead to the issued certificate that they led to when the export was made.
pub export-restore_issued :
    (env : RestoreEnv) (r q : Repos) (opts : ExportOptions) (now : ℕ) (ca_id serial : Text)
    → IssuedValid r.issued
    → (restore env (export r opts now) q).1 ≡ ok tt
    → IssuedCerts.get_by_serial (restore env (export r opts now) q).0.issued ca_id serial
      ≡ IssuedCerts.get_by_serial r.issued ca_id serial
export-restore_issued env r q opts now ca_id serial v h =
    ap (λ t. IssuedCerts.get_by_serial t ca_id serial) (restore-issued env (export r opts now) q h)
    ∙ (restore_issued_loop-same env r q opts now ca_id serial v).1
