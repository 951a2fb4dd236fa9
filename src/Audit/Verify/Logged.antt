-- ===== src/Audit/Verify/Logged.antt =====
-- The logs that Record writes, and what Verify says of them.
use knxvault.Prelude.{
  is_empty, ℕ, ◌+◌, ◌≤◌, ◌<◌, ◌≡◌, ◌⊎◌, inl, inr, refl, true, false, ◌||◌, Option, some, [], ◌∷◌,
  ◌++◌, Text, In, In-append_cases, length, arith, Bool-cases,
}
use knxvault.Errors.{Result, ok, err}
use knxvault.Audit.Redact.{Fields}
use knxvault.Audit.Chain.{
  AuditEnv, AuditEntry, AuditRepository, ListOptions, Service, recorded_of, new_entry, bar, append,
  new_repository, list_entries, latest_hash, expected_hash, compute_hash, sign_entry, sign_head,
  record_entry,
}
use knxvault.Audit.Chain.Sorted.{IsInOrder, list_entries-IsInOrder, IsInOrder-append}
use knxvault.Audit.Verify.{ExportResult, verify_options, verify, export}
use knxvault.Audit.Verify.Accepts.{
  IsSigned, IsChained, IsChained-append, IsHeadSigned, IsAccepted, verify_iff,
}

-- What an append does: nothing, or one entry more with the next number.
append-cases :
    (r : AuditRepository) (e : AuditEntry)
    → ((append r e).0 ≡ r)
      ⊎ ((append r e).0 ≡ record r {
        entries = r.entries ++ record e { id = r.next_id } ∷ [];
        next_id = r.next_id + 1;
      })
unfolding append
append-cases r e = elim (Bool-cases (is_empty e.action || is_empty e.status)) [
  | inl h ↦ inl (ground arith)
  | inr h ↦ inr (ground arith)
]

recorded_of-log : (p : AuditRepository × Result (Unit {0})) → (recorded_of p).0 ≡ p.0
recorded_of-log (r, ok _) = refl
recorded_of-log (r, err e) = refl

module _ (env : AuditEnv) (s : Service) where
  -- The logs after calls of Record at times that do not go back, up to a time.
  pub data Logged : ℕ → AuditRepository → Type 0 where
    started : Logged 0 new_repository
    called :
        (before now : ℕ) (r : AuditRepository) (actor action resource status : Text)
        (details : Option Fields)
        → Logged before r
        → before ≤ now
        → Logged now (record_entry env s r now actor action resource status details).0

  -- What holds of such a log: chained, in order, and no entry later or with a number to come.
  abbrev IsIntact : ℕ → AuditRepository → Type 0
  IsIntact now r =
      IsChained env s.signing_key [] r.entries
      × IsInOrder r.entries
      × ((e : AuditEntry) → In e r.entries → (e.timestamp ≤ now) × (e.id < r.next_id))

  append-IsIntact :
      (before : ℕ) (r : AuditRepository) (e : AuditEntry)
      → IsIntact before r
      → before ≤ e.timestamp
      → e.hash ≡ expected_hash env (latest_hash r) e
      → IsSigned env s.signing_key e
      → IsIntact e.timestamp (append r e).0
  unfolding latest_hash
  append-IsIntact before r e h le p q = elim (append-cases r e) [
    | inl i ↦ rw i (h.0, h.1, λ x j. ground (arith, h.2 x j))
    | inr i ↦
        let stored : AuditEntry = record e { id = r.next_id } in
        rw i (
          IsChained-append env s.signing_key [] r.entries stored h.0 p q,
          IsInOrder-append r.entries stored h.1 (λ x j. ground (arith, h.2 x j)),
          λ x j. elim (In-append_cases x r.entries (stored ∷ []) j) [
            | inl l ↦ ground (arith, h.2 x l)
            | inr l ↦ ground arith
          ],
        )
  ]

  record_entry-IsIntact :
      (before now : ℕ) (r : AuditRepository) (actor action resource status : Text)
      (details : Option Fields)
      → ((k t : Text) → is_empty (env.hmac_hex k t) ≡ false)
      → IsIntact before r
      → before ≤ now
      → IsIntact now (record_entry env s r now actor action resource status details).0
  unfolding record_entry new_entry compute_hash sign_entry
  record_entry-IsIntact before now r actor action resource status details signs h le =
      elim (Bool-cases s.has_repo) [
        | inr e ↦ rw (e, record_entry) (h.0, h.1, λ x j. ground (arith, h.2 x j))
        | inl e ↦
            let made = new_entry env s r now actor action resource status details in
            rw (e, record_entry, recorded_of-log (append r made))
              (append-IsIntact before r made h le refl
                (λ k. ground (arith, signs s.signing_key made.hash)))
      ]

  Logged-IsIntact :
      (now : ℕ) (r : AuditRepository)
      → ((k t : Text) → is_empty (env.hmac_hex k t) ≡ false)
      → Logged now r
      → IsIntact now r
  unfolding new_repository
  Logged-IsIntact now r signs started = (tt, tt, λ e i. absurd i)
  Logged-IsIntact now r signs (called before _ r' actor action resource status details l le) =
      record_entry-IsIntact before now r' actor action resource status details signs
        (Logged-IsIntact before r' signs l) le

export-IsHeadSigned :
    (env : AuditEnv) (s : Service) (later : ℕ) (r : AuditRepository) (opts : ListOptions)
    (x : ExportResult)
    → ((k t : Text) → is_empty (env.hmac_hex k t) ≡ false)
    → (is_empty s.signing_key ≡ true) ⊎ (is_empty (latest_hash r) ≡ false)
    → export env s r opts later ≡ some x
    → (s.has_repo ≡ true) × IsHeadSigned env s.signing_key (latest_hash r) x.signature x.signed_at
unfolding export sign_head
export-IsHeadSigned env s later r opts x signs head h =
    let signed = signs s.signing_key (latest_hash r ++ bar env (env.format_time later)) in
    (ground arith, λ k. ground (arith, signed))

-- Where signatures are not empty texts, a log of at most a million entries that calls of Record
-- made at times that do not go back is valid for Verify with the signature that Export gave, when
-- the service has a repository and either signs nothing or has a last hash that is not empty.
pub export-verify :
    (env : AuditEnv) (s : Service) (now later : ℕ) (r : AuditRepository) (opts : ListOptions)
    (x : ExportResult)
    → ((k t : Text) → is_empty (env.hmac_hex k t) ≡ false)
    → Logged env s now r
    → length r.entries ≤ 1000000
    → (is_empty s.signing_key ≡ true) ⊎ (is_empty (latest_hash r) ≡ false)
    → export env s r opts later ≡ some x
    → IsAccepted (verify env s r x.signature x.signed_at)
unfolding latest_hash
export-verify env s now later r opts x signs l bound head h =
    let (chained, ordered, _) = Logged-IsIntact env s now r signs l in
    let listed : list_entries r verify_options ≡ r.entries =
      list_entries-IsInOrder r 1000000 ordered (omega arith) bound in
    let (has, signed) = export-IsHeadSigned env s later r opts x signs head h in
    (verify_iff env s r x.signature x.signed_at).1 (has, rw listed chained, rw listed refl, signed)
