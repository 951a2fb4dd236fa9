-- ===== src/Audit/Chain.antt =====
-- internal/audit/service.go and chain.go over the repository of
-- internal/repository/memory/audit_repository.go. Times are numbers of nanoseconds; each call gets
-- the time at which it runs.
use knxvault.Prelude.{
  is_empty, take, drop, ℕ, ◌+◌, Bool, true, false, ◌||◌, not, Option, none, some, List, [], ◌∷◌,
  ◌++◌, Text, codes, length, ltb, ◌==◌, if◌then◌else◌,
}
use knxvault.Errors.{KnxVaultError, Result, ok, err, fail, validation}
use knxvault.Audit.AuthFields.{AuthFields, apply_auth_fields}
use knxvault.Audit.Redact.{Fields, end_fields, sanitize_details}
pub mod Sorted
pub mod Payload
pub mod Numbered

-- What the service calls: encoding/json, time.Format, and the hexadecimal text of SHA-256 and of
-- HMAC-SHA-256 under a key.
pub record AuditEnv : Type 0 where
  pub marshal : Fields → Text
  pub format_time : ℕ → Text
  pub sha256_hex : Text → Text
  pub hmac_hex : Text → Text → Text

-- Entry. No hash covers the fields that are copied out of the details.
pub record AuditEntry : Type 0 where
  pub id : ℕ
  pub timestamp : ℕ
  pub actor : Text
  pub action : Text
  pub resource : Text
  pub status : Text
  pub details : Option Fields
  pub hash : Text
  pub signature : Text
  pub auth : AuthFields

-- AuditRepository
pub record AuditRepository : Type 0 where
  pub entries : List AuditEntry
  pub next_id : ℕ

-- NewAuditRepository
unfoldable pub new_repository : AuditRepository
new_repository = record { entries = []; next_id = 1 }

-- Append, with Entry.Validate.
unfoldable pub append : AuditRepository → AuditEntry → AuditRepository × Result (Unit {0})
append r entry =
    if is_empty entry.action || is_empty entry.status
    then (r, fail validation (codes "invalid audit entry"))
    else (
      record r {
        entries = r.entries ++ record entry { id = r.next_id } ∷ [];
        next_id = r.next_id + 1;
      },
      ok tt,
    )

-- Clear
unfoldable pub clear : AuditRepository → AuditRepository
clear r = record { entries = []; next_id = 1 }

-- AuditListOptions
pub record ListOptions : Type 0 where
  pub since : Option ℕ
  pub order_asc : Bool
  pub offset : ℕ
  pub limit : ℕ

abbrev too_old : Option ℕ → AuditEntry → Bool
too_old none entry = false
too_old (some since) entry = ltb entry.timestamp since

unfoldable pub filtered : Option ℕ → List AuditEntry → List AuditEntry
filtered since [] = []
filtered since (e ∷ es) = let rest = filtered since es in if too_old since e then rest else e ∷ rest

-- The comparison given to sort.Slice.
unfoldable pub goes_before : Bool → AuditEntry → AuditEntry → Bool
goes_before true a b =
    if a.timestamp == b.timestamp then ltb a.id b.id else ltb a.timestamp b.timestamp
goes_before false a b =
    if a.timestamp == b.timestamp then ltb b.id a.id else ltb b.timestamp a.timestamp

unfoldable pub place : Bool → AuditEntry → List AuditEntry → List AuditEntry
unfolding goes_before
place asc x [] = x ∷ []
place asc x (y ∷ ys) = if goes_before asc y x then y ∷ place asc x ys else x ∷ y ∷ ys

unfoldable pub sort_entries : Bool → List AuditEntry → List AuditEntry
unfolding place
sort_entries asc [] = []
sort_entries asc (x ∷ xs) = place asc x (sort_entries asc xs)

-- List; a limit of 0 is 100.
unfoldable pub list_entries : AuditRepository → ListOptions → List AuditEntry
unfolding filtered sort_entries drop take
list_entries r opts =
    let sorted = sort_entries opts.order_asc (filtered opts.since r.entries) in
    let limit = if opts.limit == 0 then 100 else opts.limit in
    if ltb (length sorted) opts.offset then [] else take limit (drop opts.offset sorted)

-- The hash of the last entry, and the empty text where there is none.
abbrev pub last_hash : Text → List AuditEntry → Text
last_hash prev [] = prev
last_hash prev (e ∷ es) = last_hash e.hash es

-- LatestHash
unfoldable pub latest_hash : AuditRepository → Text
latest_hash r = last_hash [] r.entries

-- The audit service: its repository may be missing, and an empty key signs nothing.
pub record Service : Type 0 where
  pub has_repo : Bool
  pub signing_key : Text

pub data Recorded : Type 0 where
  recorded not_configured : Recorded
  append_failed : KnxVaultError → Recorded

-- What Record returns, of what Append returned.
abbrev pub recorded_of : AuditRepository × Result (Unit {0}) → AuditRepository × Recorded
recorded_of (r, ok _) = (r, recorded)
recorded_of (r, err e) = (r, append_failed e)

module _ (env : AuditEnv) where
  open env use {marshal, format_time, sha256_hex, hmac_hex}

  abbrev pub bar : Text → Text
  bar s = b'|' ∷ s

  -- The text that computeHash hashes; a nil map is the empty map.
  unfoldable pub payload : Text → Text → Text → Text → Text → Option Fields → ℕ → Text
  payload prev actor action resource status details ts =
      prev
      ++ bar (
          format_time ts
          ++ bar (
              actor
              ++ bar (
                  action
                  ++ bar (
                      resource
                      ++ bar (
                          status
                          ++ bar (marshal (elim details [ none ↦ end_fields | some fs ↦ fs ])))))))

  -- computeHash and EntryHash
  unfoldable pub compute_hash : Text → Text → Text → Text → Text → Option Fields → ℕ → Text
  unfolding payload
  compute_hash prev actor action resource status details ts =
      sha256_hex (payload prev actor action resource status details ts)

  -- The hash that an entry must have behind a hash.
  abbrev pub expected_hash : Text → AuditEntry → Text
  expected_hash prev e =
      compute_hash prev e.actor e.action e.resource e.status e.details e.timestamp

  -- signEntry
  unfoldable pub sign_entry : Text → Text → Text
  sign_entry key hash = hmac_hex key hash

  -- signHead
  unfoldable pub sign_head : Text → Text → ℕ → Text
  sign_head key head signed_at = hmac_hex key (head ++ bar (format_time signed_at))

  -- The entry that Record appends.
  unfoldable pub new_entry :
      Service → AuditRepository → ℕ → Text → Text → Text → Text → Option Fields → AuditEntry
  unfolding compute_hash sign_entry latest_hash
  new_entry s r now actor action resource status details =
      let safe = sanitize_details details in
      let hash = compute_hash (latest_hash r) actor action resource status safe now in
      record {
        id = 0;
        timestamp = now;
        actor = actor;
        action = action;
        resource = resource;
        status = status;
        details = safe;
        hash = hash;
        signature = if is_empty s.signing_key then [] else sign_entry s.signing_key hash;
        auth = apply_auth_fields safe;
      }

  -- Record
  unfoldable pub record_entry :
      Service
      → AuditRepository
      → ℕ
      → Text
      → Text
      → Text
      → Text
      → Option Fields
      → AuditRepository × Recorded
  unfolding append new_entry
  record_entry s r now actor action resource status details =
      if not s.has_repo
      then (r, not_configured)
      else recorded_of (append r (new_entry s r now actor action resource status details))
