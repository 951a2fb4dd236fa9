-- ===== src/Auth/Lockout/Tests.antt =====
-- Tests of the lockout on three failures of one key and a failure of another.
use knxvault.Prelude.{
  ℕ, ◌+◌, ◌≤◌, ◌≡◌, ◌≢◌, refl, true, false, ◌&&◌, List, [], ◌∷◌, Text, codes, Text-discrete, lookup,
  In, arith, leb,
}
use knxvault.Auth.Lockout.{
  Tracker, lockout_key, is_locked, is_locked_any, record_failure, record_success,
}
use knxvault.Auth.Lockout.Threshold.{after, record_failure-threshold}

abbrev fresh : Tracker
fresh = record { attempts = []; locked = []; threshold = 3; ttl = 100; max_entries = 50000 }

abbrev alice : Text
alice = codes "u:a"

abbrev bob : Text
bob = codes "u:b"

abbrev times : List ℕ
times = 10 ∷ 20 ∷ []

record_failure-threshold_example :
    ((record_failure (after fresh alice times) 30 alice).1 ≡ leb 3 3)
    × ((is_locked (record_failure (after fresh alice times) 30 alice).0 130 alice).1
        ≡ ((record_failure (after fresh alice times) 30 alice).1 && leb 130 (30 + 100)))
unfolding lookup
record_failure-threshold_example =
    record_failure-threshold fresh alice times 30 130 refl refl (omega arith)

abbrev banned : Tracker
banned = record fresh { locked = (alice, 130) ∷ [] }

distinct : alice ≢ bob
distinct = ground arith

only_lock : (u : ℕ) → In (alice, u) banned.locked → 40 ≤ u
only_lock u i = ground arith

is_locked_any_test : (is_locked_any banned 50 (bob ∷ alice ∷ [])).1 ≡ true
unfolding is_locked_any lookup Text-discrete
is_locked_any_test = refl

record_success_test : (is_locked (record_success banned alice) 50 alice).1 ≡ false
unfolding is_locked record_success lookup knxvault.Prelude.delete Text-discrete
record_success_test = refl

lockout_key_test : lockout_key (codes "u") (codes "a") ≡ alice
unfolding lockout_key
lockout_key_test = refl
