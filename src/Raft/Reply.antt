-- ===== src/Raft/Reply.antt =====
-- What the handlers of internal/raft/handlers.go have in common: a payload is read first, and what the
-- repository gives becomes the data of the response.
use knxvault.Prelude.{ℕ, Bool, none, some, Text}
use knxvault.Errors.{Result, ok, err, fail, internal}
use knxvault.Audit.Chain.{AuditEnv}
use knxvault.Repos.{Outcome}
use knxvault.Backup.Restore.{RestoreEnv}
use knxvault.Raft.Values.{Kind, Val, Json, Any}
use knxvault.Raft.Store.{Store}
pub mod Split

-- What the handlers call that gives the same on every replica: encoding/json, url.Parse behind
-- DatabaseRole.Validate, and the hashes of the audit log.
pub record Library : Type 0 where
  pub json : Json
  pub url_password : Text → Bool
  pub audit : AuditEnv

-- What differs from replica to replica: time.Now, and what the calls of uuid.New give.
pub record Local : Type 0 where
  pub now : ℕ
  pub new_uuid : ℕ → Text

abbrev pub restore_env : Library → Local → RestoreEnv
restore_env lib local = record {
  url_password = lib.url_password;
  audit = lib.audit;
  new_uuid = local.new_uuid;
}

-- What a handler leaves behind, and what it returns.
abbrev pub Reply : Type 0
Reply = Outcome Store Any

-- A result as data of a kind.
abbrev pub answer : (k : Kind) → Result (Val k) → Result Any
answer k (ok v) = ok (some (k, v))
answer k (err e) = err e

-- What a repository leaves behind, put back, with no data.
abbrev pub wrote : {T : Type 0} → (T → Store) → Outcome T (Unit {0}) → Reply
wrote place_back (t, ok _) = (place_back t, ok none)
wrote place_back (t, err e) = (place_back t, err e)

-- What a repository leaves behind, put back, with its result as data.
abbrev pub answered : {T : Type 0} → (T → Store) → (k : Kind) → Outcome T (Val k) → Reply
answered place_back k (t, result) = (place_back t, answer k result)

module _ (lib : Library) where
  -- A handler that reads its payload and leaves the store.
  abbrev pub with_payload : (k : Kind) → Text → (Val k → Result Any) → Result Any
  with_payload k payload f = elim (lib.json.decode k payload) [
    | none ↦ fail internal (lib.json.complaint k payload)
    | some v ↦ f v
  ]

  -- A handler that reads its payload and may change the store.
  abbrev pub change : (k : Kind) → Text → Store → (Val k → Reply) → Reply
  change k payload s f = elim (lib.json.decode k payload) [
    | none ↦ (s, fail internal (lib.json.complaint k payload))
    | some v ↦ f v
  ]
