-- ===== src/Auth/Lockout.antt =====
-- LockoutTracker of internal/auth/lockout.go. Times and durations are nanoseconds; each call gets
-- the time at which it runs. The lists stand for Go maps, in whatever order a range visits them.
use knxvault.Prelude.{
  ℕ, ◌+◌, ◌*◌, ◌/◌, Bool, true, false, ◌&&◌, not, Option, none, some, List, [], ◌∷◌, ◌++◌, Text,
  codes, Text-discrete, lookup, insert, delete, length, ltb, leb, ◌==◌, if◌then◌else◌,
}
pub mod Threshold
pub mod Others
pub mod Tests

pub record Tracker : Type 0 where
  pub attempts : List (Text × ℕ)
  pub locked : List (Text × ℕ)
  pub threshold : ℕ
  pub ttl : ℕ
  pub max_entries : ℕ

-- NewLockoutTracker; 0 stands for every number that is not positive.
unfoldable pub new_tracker : ℕ → ℕ → Tracker
new_tracker threshold ttl = record {
  attempts = [];
  locked = [];
  threshold = if threshold == 0 then 5 else threshold;
  ttl = if ttl == 0 then 15 * 60 * 1000000000 else ttl;
  max_entries = 50000;
}

-- LockoutKey
unfoldable pub lockout_key : Text → Text → Text
lockout_key method subject = method ++ codes ":" ++ subject

-- delete(t.attempts, key); delete(t.locked, key), the body of RecordSuccess and of Clear.
unfoldable pub forget : Tracker → Text → Tracker
forget t key = record t {
  attempts = delete Text-discrete key t.attempts;
  locked = delete Text-discrete key t.locked;
}

-- IsLocked
unfoldable pub is_locked : Tracker → ℕ → Text → Tracker × Bool
unfolding forget
is_locked t now key = elim (lookup Text-discrete key t.locked) [
  | none ↦ (t, false)
  | some until ↦ if ltb until now then (forget t key, false) else (t, true)
]

-- IsLockedAny
unfoldable pub is_locked_any : Tracker → ℕ → List Text → Tracker × Bool
unfolding is_locked
is_locked_any t now [] = (t, false)
is_locked_any t now (k ∷ keys) =
    let (t', hit) = is_locked t now k in
    let rest = is_locked_any t' now keys in if hit then (t', true) else rest

-- The loop of purgeExpiredLocked over the entries of t.locked.
unfoldable pub purge_entries : ℕ → List (Text × ℕ) → Tracker → Tracker
purge_entries now [] t = t
purge_entries now ((key, until) ∷ entries) t =
    purge_entries now entries (if ltb until now then forget t key else t)

-- purgeExpiredLocked
unfoldable pub purge_expired : ℕ → Tracker → Tracker
unfolding purge_entries
purge_expired now t = purge_entries now t.locked t

abbrev pub is_some : Option ℕ → Bool
is_some none = false
is_some (some n) = true

-- The loop of evictAttemptsLocked over the keys of t.attempts.
unfoldable pub evict_keys : List (Text × ℕ) → Tracker → Tracker
evict_keys [] t = t
evict_keys ((k, _) ∷ entries) t =
    let skipped = evict_keys entries t in
    let dropped = record t { attempts = delete Text-discrete k t.attempts } in
    let rest = evict_keys entries dropped in
    if is_some (lookup Text-discrete k t.locked)
    then skipped
    else if ltb (length dropped.attempts) (t.max_entries / 2)
    then dropped
    else rest

-- evictAttemptsLocked
unfoldable pub evict_attempts : Tracker → Tracker
unfolding evict_keys
evict_attempts t = evict_keys t.attempts t

-- The bound on the memory, before a new key is counted.
unfoldable pub make_room : Tracker → Text → Tracker
unfolding evict_attempts
make_room t key =
    if not (is_some (lookup Text-discrete key t.attempts))
      && (ltb 0 t.max_entries && leb t.max_entries (length t.attempts))
    then evict_attempts t
    else t

-- t.attempts[key], which is 0 where the key is missing.
abbrev pub count_of : Tracker → Text → ℕ
count_of t key = elim (lookup Text-discrete key t.attempts) [ none ↦ 0 | some n ↦ n ]

-- t.attempts[key]++ and the lock.
unfoldable pub count_failure : Tracker → ℕ → Text → Tracker × Bool
count_failure t now key =
    let counted : Tracker = record t {
      attempts = insert Text-discrete key (count_of t key + 1) t.attempts;
    } in
    if leb t.threshold (count_of t key + 1)
    then (record counted { locked = insert Text-discrete key (now + t.ttl) counted.locked }, true)
    else (counted, false)

-- RecordFailure
unfoldable pub record_failure : Tracker → ℕ → Text → Tracker × Bool
unfolding purge_expired make_room count_failure
record_failure t now key = count_failure (make_room (purge_expired now t) key) now key

-- RecordSuccess and Clear
unfoldable pub record_success : Tracker → Text → Tracker
unfolding forget
record_success t key = forget t key
