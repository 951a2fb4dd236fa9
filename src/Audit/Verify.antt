-- ===== src/Audit/Verify.antt =====
-- Verify and Export of internal/audit/service.go, and ValidateChain of
-- internal/audit/chain.go.
use knxvault.Prelude.{
  is_empty, ℕ, suc, true, ◌&&◌, not, Option, none, some, List, [], ◌∷◌, Text, str_eq, if◌then◌else◌,
}
use knxvault.Audit.Chain.{
  AuditEnv, AuditEntry, AuditRepository, ListOptions, Service, list_entries, latest_hash,
  expected_hash, sign_entry, sign_head,
}
pub mod Accepts
pub mod Logged
pub mod Tests

pub data Verdict : Type 0 where
  valid head_mismatch signature_required bad_signature : Verdict
  hash_mismatch missing_signature signature_mismatch : ℕ → Verdict

-- VerifyResult
pub record VerifyResult : Type 0 where
  pub head_hash : Text
  pub signature : Text
  pub verdict : Verdict

-- ExportResult
pub record ExportResult : Type 0 where
  pub entries : List AuditEntry
  pub head_hash : Text
  pub signature : Text
  pub signed_at : ℕ

abbrev pub with_verdict : Text → Verdict → VerifyResult
with_verdict head verdict = record { head_hash = head; signature = []; verdict = verdict }

-- The options with which Verify lists.
abbrev pub verify_options : ListOptions
verify_options = record { since = none; order_asc = true; offset = 0; limit = 1000000 }

module _ (env : AuditEnv) where
  -- The loop of Verify: the hash at its end, or the result that it returns.
  unfoldable pub verify_entries : Text → Text → List AuditEntry → Text × Option VerifyResult
  verify_entries key prev [] = (prev, none)
  verify_entries key prev (e ∷ es) =
      let rest = verify_entries key e.hash es in
      if not (str_eq e.hash (expected_hash env prev e))
      then (prev, some (with_verdict e.hash (hash_mismatch e.id)))
      else if is_empty key
      then rest
      else if is_empty e.signature
      then (prev, some (with_verdict e.hash (missing_signature e.id)))
      else if not (str_eq e.signature (sign_entry env key e.hash))
      then (prev, some (with_verdict e.hash (signature_mismatch e.id)))
      else rest

  -- The end of Verify: the signature of the head.
  unfoldable pub verify_head : Text → Text → Text → ℕ → VerifyResult
  verify_head key head signature signed_at =
      if is_empty key
      then with_verdict head valid
      else if is_empty signature
      then with_verdict head signature_required
      else record {
        head_hash = head;
        signature = signature;
        verdict =
            if str_eq signature (sign_head env key head signed_at) then valid else bad_signature;
      }

  -- What Verify returns after its loop.
  unfoldable pub conclude :
      Service → AuditRepository → Text → ℕ → Text × Option VerifyResult → VerifyResult
  unfolding verify_head latest_hash
  conclude s r signature signed_at (prev, some failed) = failed
  conclude s r signature signed_at (prev, none) =
      if not (str_eq (latest_hash r) prev)
      then with_verdict (latest_hash r) head_mismatch
      else verify_head s.signing_key (latest_hash r) signature signed_at

  -- Verify; `none` where no repository is configured.
  unfoldable pub verify : Service → AuditRepository → Text → ℕ → Option VerifyResult
  unfolding verify_entries conclude list_entries
  verify s r signature signed_at =
      if not s.has_repo
      then none
      else some (
          conclude s r signature signed_at
            (verify_entries s.signing_key [] (list_entries r verify_options)))

  -- Export; `none` where no repository is configured.
  unfoldable pub export : Service → AuditRepository → ListOptions → ℕ → Option ExportResult
  unfolding list_entries latest_hash
  export s r opts now =
      if not s.has_repo
      then none
      else let head = latest_hash r in
        some (record {
          entries = list_entries r (record opts { order_asc = true });
          head_hash = head;
          signature =
              if not (is_empty s.signing_key) && not (is_empty head)
              then sign_head env s.signing_key head now
              else [];
          signed_at = now;
        })

  -- ValidateChain, from a hash and an index on: `none` is success. A nil entry is `none`.
  pub data ChainError : Type 0 where
    is_nil mismatch : ℕ → ChainError

  unfoldable pub validate_from : ℕ → Text → List (Option AuditEntry) → Option ChainError
  validate_from i prev [] = none
  validate_from i prev (none ∷ es) = some (is_nil i)
  validate_from i prev (some e ∷ es) =
      if not (str_eq e.hash (expected_hash env prev e))
      then some (mismatch i)
      else validate_from (suc i) e.hash es

  -- ValidateChain
  unfoldable pub validate_chain : List (Option AuditEntry) → Option ChainError
  unfolding validate_from
  validate_chain es = validate_from 0 [] es
