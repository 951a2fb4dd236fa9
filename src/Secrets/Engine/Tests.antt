-- ===== src/Secrets/Engine/Tests.antt =====
-- Tests of the engine, of the reserved paths and of the lifetimes.
use knxvault.Prelude.{
  ℕ, ◌+◌, ◌^◌, ◌==◌, ◌≢◌, length, List, In, ◌*◌, ◌≤◌, ◌<◌, ◌≡◌, inl, inr, refl, true, false, none,
  some, [], ◌∷◌, Text, codes, Text-discrete, lookup, arith, if◌then◌else◌,
}
use knxvault.Errors.{ok, fail, not_found}
use knxvault.Secrets.Store.{
  SecretVersion, SecretKey-discrete, Store, key_of, get_latest, get_version,
}
use knxvault.Secrets.Store.Valid.{IsValid}
use knxvault.Secrets.Store.Reads.{SameAt}
use knxvault.Secrets.Paths.{is_reserved}
use knxvault.Secrets.Ttl.{Numbers, ttl, parse_ttl, max_parse_ttl, day}
use knxvault.Secrets.Ttl.Bounds.{parse_ttl-bounds}
use knxvault.Secrets.Ttl.Wrap.{parse_ttl-wraps}
use knxvault.Secrets.Engine.{KvEnv, PutOptions, GetResult, put, get, delete, fetch, is_expired}
use knxvault.Secrets.Engine.Listing.{
  VersionMetadata, PathMetadata, list_paths, list_versions, get_metadata,
}
use knxvault.Secrets.Engine.RoundTrip.{expiry_of, seconds_of, put-get}
use knxvault.Secrets.Engine.Guards.{get-live}
use knxvault.Secrets.Engine.Isolated.{
  Call, call_put, call_destroy, call_delete, calls, reserved_isolated,
}
use knxvault.Secrets.Engine.Delete.{delete_reveals}

-- ParseDuration reads nothing that stands with days; Atoi reads a text of one byte as 1, any other as
-- 2 ^ 48 + 1.
abbrev numbers : Numbers
numbers = record {
  parse_duration = λ t. none;
  atoi = λ t. if length t == 1 then some 1 else some 281474976710657;
}

abbrev hours : Numbers
hours = record { parse_duration = λ t. some 5; atoi = λ t. none }

abbrev env : KvEnv
env = record {
  Data = Text;
  no_entries = λ t. false;
  marshal = λ t. some t;
  unmarshal = λ t. some t;
  seal = λ t. some (t, 1 ∷ []);
  unseal = λ d k. some d;
  numbers = hours;
  new_id = 1;
  has_repo = true;
  has_crypto = true;
}

abbrev secret : ℕ → SecretVersion
secret version = record {
  id = 1;
  path = codes "a";
  version = version;
  data_enc = 7 ∷ [];
  dek_enc = 8 ∷ [];
  lease_id = none;
  ttl_seconds = none;
  created_at = 0;
  expires_at = none;
  destroyed = false;
  labels = [];
}

abbrev path : Text
path = codes "a"

abbrev two : Store
two = (key_of (secret 1), secret 1) ∷ (key_of (secret 2), secret 2) ∷ []

two-IsValid : IsValid two
unfolding lookup SecretKey-discrete
two-IsValid = (refl, omega arith, refl, (refl, omega arith, refl, tt))

parse_ttl_test : parse_ttl hours (codes "5ns") ≡ ttl 5
unfolding parse_ttl knxvault.Secrets.Paths.trim_space
parse_ttl_test = refl

parse_ttl-bounds_example : (0 < 5) × (5 ≤ max_parse_ttl)
parse_ttl-bounds_example = parse_ttl-bounds hours (codes "5ns") 5 parse_ttl_test

parse_ttl-wraps_example :
    (parse_ttl numbers (codes "281474976710657d") ≡ parse_ttl numbers (codes "1d"))
    × (max_parse_ttl < (1 + 1 * 2 ^ 48) * day)
unfolding knxvault.Secrets.Paths.trim_space knxvault.Secrets.Ttl.last_byte
    knxvault.Secrets.Ttl.but_last
parse_ttl-wraps_example =
    parse_ttl-wraps numbers (codes "1d") (codes "281474976710657d") 1 1
      (omega arith, refl, refl, refl) (omega arith, refl, refl, refl) (omega arith) (omega arith)
      (omega arith)

one_day_test : parse_ttl numbers (codes "1d") ≡ ttl day
unfolding parse_ttl knxvault.Secrets.Paths.trim_space knxvault.Secrets.Ttl.but_last
    knxvault.Secrets.Ttl.last_byte
one_day_test = refl

list_paths_test : list_paths env two [] ≡ ok (path ∷ [])
unfolding list_paths is_reserved knxvault.Secrets.Engine.Listing.unique_paths
    knxvault.Secrets.Engine.Listing.list_by_path knxvault.Prelude.elem
list_paths_test = refl

abbrev options : PutOptions
options = record { ttl_text = codes "5ns"; cas_version = some 2; max_versions = 2; labels = [] }

put_test : (put env 10 two path (codes "v") options).1 ≡ ok 3
unfolding put knxvault.Secrets.Engine.build is_reserved parse_ttl knxvault.Secrets.Store.put_atomic
    knxvault.Secrets.Store.latest_non_destroyed knxvault.Secrets.Store.validate
    knxvault.Secrets.Store.next_version lookup SecretKey-discrete
put_test = refl

put-get_example : get env 12 (put env 10 two path (codes "v") options).0 path 3 ≡ (
    if is_expired 12 (expiry_of env 10 (codes "5ns"))
    then fail not_found (codes "secret version expired")
    else ok (record {
      content = codes "v";
      version = 3;
      created_at = 10;
      ttl_seconds = seconds_of env (codes "5ns");
      labels = [];
    }))
put-get_example =
    put-get env 10 12 two path (codes "v") options 3 (λ b e h. cc) (λ c b h. cc) two-IsValid
      put_test 3 (inr refl)

abbrev wrapping : Text
wrapping = codes "sys/wrapping/t"

reserved_test : is_reserved wrapping ≡ true
unfolding is_reserved
reserved_test = refl

abbrev session : List (Call env)
session =
    call_put 10 wrapping (codes "v") options
    ∷ call_put 11 path (codes "w") options
    ∷ call_delete path
    ∷ call_destroy wrapping 1
    ∷ []

reserved_isolated_example :
    ((reserved : Text) → is_reserved reserved ≡ true → SameAt reserved two (calls env session two))
    × ((now : ℕ) (p : Text) (n : ℕ) (r : GetResult env)
        → get env now two p n ≡ ok r
        → is_reserved p ≡ false)
    × ((p : Text) (r : List VersionMetadata)
        → list_versions env two p ≡ ok r
        → is_reserved p ≡ false)
    × ((p : Text) (n : ℕ) (r : PathMetadata)
        → get_metadata env two p n ≡ ok r
        → is_reserved p ≡ false)
    × ((prefix : Text) (paths : List Text) (p : Text)
        → list_paths env two prefix ≡ ok paths
        → In p paths
        → is_reserved p ≡ false)
reserved_isolated_example = reserved_isolated env session two

abbrev result : GetResult env
result = record { content = 7 ∷ []; version = 2; created_at = 0; ttl_seconds = none; labels = [] }

get_test : get env 10 two path 0 ≡ ok result
unfolding get is_reserved fetch get_latest
get_test = refl

get-live_example :
    (sv : SecretVersion) × (plain : Text) × (is_reserved path ≡ false)
    × (fetch two path 0 ≡ ok sv)
    × (sv.destroyed ≡ false)
    × (is_expired 10 sv.expires_at ≡ false)
    × (some sv.data_enc ≡ some plain)
    × (some plain ≡ some (7 ∷ []))
    × (2 ≡ sv.version)
get-live_example = get-live env 10 two path 0 result get_test

latest_test : get_latest two path ≡ ok (secret 2)
unfolding get_latest Text-discrete
latest_test = refl

open_path_test : is_reserved path ≡ false
unfolding is_reserved
open_path_test = refl

delete_reveals_example :
    ((delete env two path).1 ≡ ok tt)
    × (get_version (delete env two path).0 path 2 ≡ ok (record (secret 2) { destroyed = true }))
    × ((older : SecretVersion) × (get_latest (delete env two path).0 path ≡ ok older)
        × (older.destroyed ≡ false)
        × (older.version ≢ 2)
        × (get_version two path older.version ≡ ok older))
delete_reveals_example =
    delete_reveals env two path (secret 2) (key_of (secret 1), secret 1) two-IsValid refl refl
      open_path_test latest_test (inl refl) refl refl (omega arith)
