-- ===== src/Audit/Verify/Tests.antt =====
-- Tests of a log of two entries, under a hash that leaves texts as they are.
use knxvault.Prelude.{
  ◌≤◌, ◌≡◌, ◌↔◌, inr, refl, true, false, none, some, [], ◌∷◌, ◌++◌, codes, length, arith,
}
use knxvault.Audit.Chain.{
  AuditEnv, AuditRepository, ListOptions, Service, bar, new_repository, list_entries, last_hash,
  latest_hash, compute_hash, record_entry,
}
use knxvault.Audit.Chain.Payload.{compute_hash-shift}
use knxvault.Audit.Verify.{ExportResult, verify_options, verify, export, validate_chain}
use knxvault.Audit.Verify.Accepts.{IsChained, IsHeadSigned, IsAccepted, verify_iff}
use knxvault.Audit.Verify.Logged.{Logged, started, called, export-verify}

abbrev env : AuditEnv
env = record {
  marshal = λ d. codes "{}";
  format_time = λ t. t ∷ [];
  sha256_hex = λ t. t;
  hmac_hex = λ k t. 1 ∷ k ++ t;
}

abbrev service : Service
service = record { has_repo = true; signing_key = codes "k" }

abbrev first : AuditRepository
first =
    (record_entry env service new_repository 5 (codes "a") (codes "w") (codes "p") (codes "s")
      none).0

abbrev second : AuditRepository
second = (record_entry env service first 6 (codes "b") (codes "r") (codes "p") (codes "s") none).0

second-Logged : Logged env service 6 second
second-Logged =
    called 5 6 first (codes "b") (codes "r") (codes "p") (codes "s") none
      (called 0 5 new_repository (codes "a") (codes "w") (codes "p") (codes "s") none started
        (omega arith))
      (omega arith)

abbrev options : ListOptions
options = record { since = none; order_asc = false; offset = 0; limit = 0 }

abbrev exported : ExportResult
exported = record {
  entries = list_entries second verify_options;
  head_hash = latest_hash second;
  signature = 1 ∷ codes "k" ++ (latest_hash second ++ bar env (9 ∷ []));
  signed_at = 9;
}

export_test : export env service second options 9 ≡ some exported
unfolding export record_entry new_repository knxvault.Audit.Chain.sign_head
export_test = refl

bound : length second.entries ≤ 1000000
unfolding record_entry new_repository
bound = omega arith

export-verify_example : IsAccepted (verify env service second exported.signature 9)
unfolding latest_hash record_entry new_repository
export-verify_example =
    export-verify env service 6 9 second options exported (λ k t. refl) second-Logged bound
      (inr refl) export_test

verify_iff_example : IsAccepted (verify env service second exported.signature 9) ↔ (
    (true ≡ true)
    × IsChained env (codes "k") [] (list_entries second verify_options)
    × (latest_hash second ≡ last_hash [] (list_entries second verify_options))
    × IsHeadSigned env (codes "k") (latest_hash second) exported.signature 9)
verify_iff_example = verify_iff env service second exported.signature 9

validate_chain_test : validate_chain env (none ∷ []) ≡ some (knxvault.Audit.Verify.is_nil 0)
unfolding validate_chain
validate_chain_test = refl

compute_hash-shift_example :
    compute_hash env [] (codes "a|b") (codes "c") (codes "p") (codes "s") none 5
    ≡ compute_hash env [] (codes "a") (codes "b|c") (codes "p") (codes "s") none 5
compute_hash-shift_example =
    compute_hash-shift env [] (codes "a") (codes "b") (codes "c") (codes "p") (codes "s") none 5
