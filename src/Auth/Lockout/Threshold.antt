-- ===== src/Auth/Lockout/Threshold.antt =====
-- The failure that reaches the threshold locks the key.
use knxvault.Prelude.{
  ℕ, suc, ◌+◌, ◌<◌, ◌≡◌, ◌≢◌, inl, inr, refl, ◌∙◌, Bool, ◌&&◌, none, some, List, [], ◌∷◌, Text,
  Text-discrete, lookup, delete, lookup-insert_self, lookup-delete, In, lookup-none-ne, length,
  arith, Bool-cases, ltb, leb, if◌then◌else◌,
}
use knxvault.Auth.Lockout.{
  Tracker, forget, is_locked, purge_entries, purge_expired, evict_keys, evict_attempts, make_room,
  count_of, count_failure, record_failure,
}

-- The state of a key: its count, and until when it is locked.
abbrev pub Keeps : Text → Tracker → Tracker → Type 0
Keeps key t u =
    (lookup Text-discrete key u.attempts ≡ lookup Text-discrete key t.attempts)
    × (lookup Text-discrete key u.locked ≡ lookup Text-discrete key t.locked)
    × (u.threshold ≡ t.threshold)
    × (u.ttl ≡ t.ttl)

pub forget-Keeps : (key k : Text) (t : Tracker) → k ≢ key → Keeps key t (forget t k)
unfolding forget
forget-Keeps key k t h = (
  ground (arith, lookup-delete Text-discrete k key t.attempts),
  ground (arith, lookup-delete Text-discrete k key t.locked),
  refl,
  refl,
)

-- Entries of other keys do not matter.
purge_entries-Keeps :
    (now : ℕ) (key : Text) (entries : List (Text × ℕ)) (t : Tracker)
    → ((e : Text × ℕ) → In e entries → e.0 ≢ key)
    → Keeps key t (purge_entries now entries t)
unfolding purge_entries
purge_entries-Keeps now key [] t h = (refl, refl, refl, refl)
purge_entries-Keeps now key ((k, until) ∷ entries) t h = elim (Bool-cases (ltb until now)) [
  | inr e ↦ rw (e, purge_entries) (purge_entries-Keeps now key entries t (λ x i. h x (inr i)))
  | inl e ↦
      let (a, b, c, d) = forget-Keeps key k t (h (k, until) (inl refl)) in
      let (a', b', c', d') =
        purge_entries-Keeps now key entries (forget t k) (λ x i. h x (inr i)) in
      rw (e, purge_entries) (a' ∙ a, b' ∙ b, c' ∙ c, d' ∙ d)
]

-- A key that is not locked is not touched by the purge.
pub purge_expired-Keeps :
    (now : ℕ) (key : Text) (t : Tracker)
    → lookup Text-discrete key t.locked ≡ none
    → Keeps key t (purge_expired now t)
unfolding purge_expired
purge_expired-Keeps now key t h =
    purge_entries-Keeps now key t.locked t (λ e i. lookup-none-ne Text-discrete key e t.locked h i)

-- The eviction removes counts, and nothing else.
pub evict_keys-rest :
    (entries : List (Text × ℕ)) (t : Tracker) (key : Text)
    → ((evict_keys entries t).locked ≡ t.locked)
      × ((evict_keys entries t).threshold ≡ t.threshold)
      × ((evict_keys entries t).ttl ≡ t.ttl)
      × (lookup Text-discrete key t.attempts ≡ none
          → lookup Text-discrete key (evict_keys entries t).attempts ≡ none)
unfolding evict_keys
evict_keys-rest [] t key = (refl, refl, refl, λ h. h)
evict_keys-rest ((k, n) ∷ entries) t key = ground (
  arith,
  evict_keys-rest entries t key,
  evict_keys-rest entries (record t { attempts = delete Text-discrete k t.attempts }) key,
  lookup-delete Text-discrete k key t.attempts,
)

-- What a failure keeps before it counts: the count of the key, and the locks.
make_room-count :
    (t : Tracker) (key : Text)
    → (count_of (make_room t key) key ≡ count_of t key)
      × ((make_room t key).locked ≡ t.locked)
      × ((make_room t key).threshold ≡ t.threshold)
      × ((make_room t key).ttl ≡ t.ttl)
unfolding make_room evict_attempts
make_room-count t key = ground (arith, evict_keys-rest t.attempts t key)

-- What one failure does to a key that is not locked.
abbrev Counted : ℕ → Text → Tracker → ℕ → Tracker × Bool → Type 0
Counted now key t count (u, hit) =
    (hit ≡ leb t.threshold (suc count))
    × (count_of u key ≡ suc count)
    × (lookup Text-discrete key u.locked
        ≡ (if leb t.threshold (suc count) then some (now + t.ttl) else none))
    × (u.threshold ≡ t.threshold)
    × (u.ttl ≡ t.ttl)

count_failure-Counted :
    (t : Tracker) (now : ℕ) (key : Text)
    → lookup Text-discrete key t.locked ≡ none
    → Counted now key t (count_of t key) (count_failure t now key)
unfolding count_failure
count_failure-Counted t now key h = ground (
  arith,
  lookup-insert_self Text-discrete key (count_of t key + 1) t.attempts,
  lookup-insert_self Text-discrete key (now + t.ttl) t.locked,
)

pub record_failure-Counted :
    (t : Tracker) (now : ℕ) (key : Text)
    → lookup Text-discrete key t.locked ≡ none
    → Counted now key t (count_of t key) (record_failure t now key)
unfolding record_failure
record_failure-Counted t now key h = ground (
  arith,
  purge_expired-Keeps now key t h,
  make_room-count (purge_expired now t) key,
  count_failure-Counted (make_room (purge_expired now t) key) now key,
)

-- The tracker after failures of one key at the given times.
abbrev pub after : Tracker → Text → List ℕ → Tracker
after t key [] = t
after t key (now ∷ times) = after (record_failure t now key).0 key times

after-count :
    (times : List ℕ) (t : Tracker) (key : Text)
    → lookup Text-discrete key t.locked ≡ none
    → count_of t key + length times < t.threshold
    → (count_of (after t key times) key ≡ count_of t key + length times)
      × (lookup Text-discrete key (after t key times).locked ≡ none)
      × ((after t key times).threshold ≡ t.threshold)
      × ((after t key times).ttl ≡ t.ttl)
after-count [] t key h l = (omega arith, h, refl, refl)
after-count (now ∷ times) t key h l =
    ground (
      arith,
      record_failure-Counted t now key h,
      after-count times (record_failure t now key).0 key,
    )

-- For a key with no count and no lock, after fewer failures than the threshold, the next failure
-- reports a lock exactly when it is the one that reaches the threshold. The key is then locked up
-- to ttl after that failure, and is not locked otherwise.
pub record_failure-threshold :
    (t : Tracker) (key : Text) (times : List ℕ) (now later : ℕ)
    → lookup Text-discrete key t.attempts ≡ none
    → lookup Text-discrete key t.locked ≡ none
    → length times < t.threshold
    → let (u, hit) = record_failure (after t key times) now key in
      (hit ≡ leb t.threshold (suc (length times)))
      × ((is_locked u later key).1 ≡ (hit && leb later (now + t.ttl)))
unfolding is_locked
record_failure-threshold t key times now later a l h =
    ground (arith, after-count times t key l, record_failure-Counted (after t key times) now key)
