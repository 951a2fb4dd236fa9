-- ===== src/Secrets/Store/Tests.antt =====
-- Tests of the repository on a path with two versions.
use knxvault.Prelude.{
  ℕ, ◌≤◌, ◌≡◌, ◌≢◌, ◌↔◌, refl, true, false, Option, none, some, List, [], ◌∷◌, Text, codes,
  Text-discrete, lookup, length, arith,
}
use knxvault.Errors.{ok}
use knxvault.Secrets.Store.{
  SecretVersion, SecretKey-discrete, Store, key_of, validate, get_latest, get_version, next_version,
  live_versions, cas_holds, save_version, put_atomic, update_dek_enc, destroy_version,
}
use knxvault.Secrets.Store.Valid.{IsValid, stored_by, operations-IsValid}
use knxvault.Secrets.Store.Put.{put_atomic_iff}
use knxvault.Secrets.Store.Reads.{put_atomic-read}
use knxvault.Secrets.Store.Retention.{put_atomic-retention}

abbrev secret : Text → ℕ → SecretVersion
secret path version = record {
  id = 1;
  path = path;
  version = version;
  data_enc = 7 ∷ [];
  dek_enc = 8 ∷ [];
  lease_id = none;
  ttl_seconds = none;
  created_at = 0;
  expires_at = none;
  destroyed = false;
  labels = [];
}

abbrev path : Text
path = codes "a"

abbrev other : Text
other = []

abbrev two : Store
two = (key_of (secret path 1), secret path 1) ∷ (key_of (secret path 2), secret path 2) ∷ []

two-IsValid : IsValid two
unfolding lookup SecretKey-discrete Text-discrete
two-IsValid = (refl, omega arith, refl, (refl, omega arith, refl, tt))

operations-IsValid_example :
    ((sv : SecretVersion) → IsValid (save_version two sv).0)
    × ((sv : SecretVersion) (cas : Option ℕ) (max : ℕ) → IsValid (put_atomic two sv cas max).0)
    × ((p : Text) (version : ℕ) (dek : List ℕ) → IsValid (update_dek_enc two p version dek).0)
    × ((p : Text) (version : ℕ) → IsValid (destroy_version two p version).0)
operations-IsValid_example = operations-IsValid two two-IsValid

put_atomic_iff_example : ((put_atomic two (secret path 0) (some 2) 2).1 ≡ ok 3) ↔ (
    (cas_holds two path (some 2) ≡ true)
    × (validate (stored_by two (secret path 0)) ≡ true)
    × (3 ≡ next_version two path))
put_atomic_iff_example = put_atomic_iff two (secret path 0) (some 2) 2 3

put_test : (put_atomic two (secret path 0) (some 2) 2).1 ≡ ok 3
unfolding put_atomic knxvault.Secrets.Store.latest_non_destroyed Text-discrete validate next_version
    lookup SecretKey-discrete
put_test = refl

put_atomic-read_example :
    (get_latest (put_atomic two (secret path 0) (some 2) 2).0 path ≡ ok (secret path 3))
    × (get_version (put_atomic two (secret path 0) (some 2) 2).0 path 3 ≡ ok (secret path 3))
put_atomic-read_example = put_atomic-read two (secret path 0) (some 2) 2 3 two-IsValid refl put_test

distinct : other ≢ path
distinct = ground arith

put_atomic-retention_example :
    length (live_versions path (put_atomic two (secret path 0) (some 2) 2).0) ≤ 2
put_atomic-retention_example =
    put_atomic-retention two (secret path 0) (some 2) 2 3 two-IsValid (omega arith) put_test
