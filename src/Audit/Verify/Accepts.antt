-- ===== src/Audit/Verify/Accepts.antt =====
-- What Verify accepts: a log whose hashes and signatures chain, as Record writes it.
use knxvault.Prelude.{
  is_empty, ℕ, ◌≡◌, ◌≢◌, ◌↔◌, inl, inr, refl, sym, ◌∙◌, true, false, Option, none, some, List, [],
  ◌∷◌, ◌++◌, Text, Text-discrete, arith, Bool-cases,
}
use knxvault.Audit.Chain.{
  AuditEnv, AuditEntry, AuditRepository, Service, list_entries, last_hash, latest_hash,
  expected_hash, sign_entry, sign_head,
}
use knxvault.Audit.Verify.{
  valid, VerifyResult, verify_options, verify_entries, verify_head, conclude, verify,
}

module _ (env : AuditEnv) (key : Text) where
  -- A signature that is there and is that of the hash, where a key is set.
  abbrev pub IsSigned : AuditEntry → Type 0
  IsSigned e =
      is_empty key ≡ false
      → (is_empty e.signature ≡ false) × (e.signature ≡ sign_entry env key e.hash)

  -- Each entry has the hash of its fields behind the hash before it, and is signed.
  abbrev pub IsChained : Text → List AuditEntry → Type 0
  IsChained prev [] = Unit
  IsChained prev (e ∷ es) = (e.hash ≡ expected_hash env prev e) × IsSigned e × IsChained e.hash es

  verify_entries_iff :
      (prev : Text) (es : List AuditEntry)
      → (((verify_entries env key prev es).1 ≡ none) ↔ IsChained prev es)
        × ((verify_entries env key prev es).1 ≡ none
            → (verify_entries env key prev es).0 ≡ last_hash prev es)
  unfolding verify_entries
  verify_entries_iff prev [] = ((λ h. tt, λ h. refl), λ h. refl)
  verify_entries_iff prev (e ∷ es) =
      let ((from, to), last) = verify_entries_iff e.hash es in
      ((λ h. ground arith, λ h. ground arith), λ h. ground arith)

  verify_entries-invalid :
      (prev : Text) (es : List AuditEntry) (x : VerifyResult)
      → (verify_entries env key prev es).1 ≡ some x
      → x.verdict ≢ valid
  unfolding verify_entries
  verify_entries-invalid prev [] x h = absurd (cc)
  verify_entries-invalid prev (e ∷ es) x h = ground (arith, verify_entries-invalid e.hash es x)

  pub IsChained-append :
      (prev : Text) (es : List AuditEntry) (e : AuditEntry)
      → IsChained prev es
      → e.hash ≡ expected_hash env (last_hash prev es) e
      → IsSigned e
      → IsChained prev (es ++ e ∷ [])
  IsChained-append prev [] e h p q = (p, q, tt)
  IsChained-append prev (x ∷ xs) e h p q = (h.0, h.1, IsChained-append x.hash xs e h.2 p q)

-- The head of the log is signed as Verify wants it: no key is set, or the signature is the one of
-- the head at its time.
abbrev pub IsHeadSigned : AuditEnv → Text → Text → Text → ℕ → Type 0
IsHeadSigned env key head signature signed_at =
    is_empty key ≡ false
    → (is_empty signature ≡ false) × (signature ≡ sign_head env key head signed_at)

abbrev pub IsAccepted : Option VerifyResult → Type 0
IsAccepted none = ⊥
IsAccepted (some r) = r.verdict ≡ valid

verify_head_iff :
    (env : AuditEnv) (key head signature : Text) (signed_at : ℕ)
    → ((verify_head env key head signature signed_at).verdict ≡ valid)
      ↔ IsHeadSigned env key head signature signed_at
unfolding verify_head
verify_head_iff env key head signature signed_at = (λ h. ground arith, λ h. ground arith)

conclude_iff :
    (env : AuditEnv) (s : Service) (r : AuditRepository) (signature : Text) (signed_at : ℕ)
    (p : Text × Option VerifyResult)
    → ((x : VerifyResult) → p.1 ≡ some x → x.verdict ≢ valid)
    → ((conclude env s r signature signed_at p).verdict ≡ valid) ↔ (
        (p.1 ≡ none)
        × (latest_hash r ≡ p.0)
        × IsHeadSigned env s.signing_key (latest_hash r) signature signed_at)
unfolding conclude
conclude_iff env s r signature signed_at (prev, some x) h =
    (λ e. absurd (h x refl e), λ e. absurd (ground arith))
conclude_iff env s r signature signed_at (prev, none) h =
    let (from, to) = verify_head_iff env s.signing_key (latest_hash r) signature signed_at in
    elim (Text-discrete (latest_hash r) prev) [
      | yes q ↦ (λ e. (refl, q, from (ground arith)), λ e. ground (arith, to e.2))
      | no q ↦ (λ e. ground arith, λ e. absurd (q e.1))
    ]

-- Verify reports a valid log exactly when a repository is configured, the first million entries in
-- the order of time chain by their hashes and signatures, the hash of the entry that was stored
-- last is the last hash of these, and the head is signed.
pub verify_iff :
    (env : AuditEnv) (s : Service) (r : AuditRepository) (signature : Text) (signed_at : ℕ)
    → IsAccepted (verify env s r signature signed_at) ↔ (
        (s.has_repo ≡ true)
        × IsChained env s.signing_key [] (list_entries r verify_options)
        × (latest_hash r ≡ last_hash [] (list_entries r verify_options))
        × IsHeadSigned env s.signing_key (latest_hash r) signature signed_at)
unfolding verify
verify_iff env s r signature signed_at =
    let es = list_entries r verify_options in
    let ((from, to), last) = verify_entries_iff env s.signing_key [] es in
    let (from', to') =
      conclude_iff env s r signature signed_at (verify_entries env s.signing_key [] es)
        (verify_entries-invalid env s.signing_key [] es) in
    elim (Bool-cases s.has_repo) [
      | inr e ↦ rw (e, verify) (λ h. absurd h, λ h. ground arith)
      | inl e ↦
          rw (e, verify)
            (
              λ h. let (a, b, c) = from' h in (refl, from a, b ∙ last a, c),
              λ (_, a, b, c). to' (to a, b ∙ sym (last (to a)), c),
            )
    ]
