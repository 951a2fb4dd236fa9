-- ===== src/Auth/Lockout/Others.antt =====
-- What the failures of one key do to the lock of another.
use knxvault.Prelude.{
  ℕ, ◌+◌, ◌≤◌, ◌≡◌, ◌≢◌, inl, inr, refl, some, List, [], ◌∷◌, Text, Text-discrete, lookup,
  lookup-insert_ne, In, arith, leb,
}
use knxvault.Auth.Lockout.{
  Tracker, forget, is_locked, purge_entries, purge_expired, evict_attempts, make_room,
  count_failure, record_failure,
}
use knxvault.Auth.Lockout.Threshold.{evict_keys-rest, forget-Keeps}

purge_entries-locked :
    (now : ℕ) (key : Text) (entries : List (Text × ℕ)) (t : Tracker)
    → ((until : ℕ) → In (key, until) entries → now ≤ until)
    → lookup Text-discrete key (purge_entries now entries t).locked
      ≡ lookup Text-discrete key t.locked
unfolding purge_entries
purge_entries-locked now key [] t h = refl
purge_entries-locked now key ((k, until) ∷ entries) t h =
    let rest = purge_entries-locked now key entries t (λ u i. h u (inr i)) in
    let dropped = purge_entries-locked now key entries (forget t k) (λ u i. h u (inr i)) in
    elim (Text-discrete k key) [
      | yes p ↦ ground (arith, h until (inl (cc)), rest)
      | no p ↦ ground (arith, forget-Keeps key k t p, rest, dropped)
    ]

count_failure-locked :
    (t : Tracker) (key other : Text) (now : ℕ)
    → key ≢ other
    → lookup Text-discrete key (count_failure t now other).0.locked
      ≡ lookup Text-discrete key t.locked
unfolding count_failure
count_failure-locked t key other now h =
    ground (arith, lookup-insert_ne Text-discrete other key (now + t.ttl) t.locked)

make_room-locked : (t : Tracker) (key : Text) → (make_room t key).locked ≡ t.locked
unfolding make_room evict_attempts
make_room-locked t key = ground (arith, evict_keys-rest t.attempts t key)

-- While every lock of a key is in force, a failure of another key, with the purge and the eviction
-- it brings, leaves the lock as it is: the key is locked up to the same time.
pub record_failure-others :
    (t : Tracker) (key other : Text) (now later until : ℕ)
    → key ≢ other
    → lookup Text-discrete key t.locked ≡ some until
    → ((u : ℕ) → In (key, u) t.locked → now ≤ u)
    → (is_locked (record_failure t now other).0 later key).1 ≡ leb later until
unfolding is_locked record_failure purge_expired
record_failure-others t key other now later until ne e h = ground (
  arith,
  purge_entries-locked now key t.locked t h,
  make_room-locked (purge_entries now t.locked t) other,
  count_failure-locked (make_room (purge_entries now t.locked t) other) key other now ne,
)
