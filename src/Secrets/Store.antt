-- ===== src/Secrets/Store.antt =====
-- SecretVersion of internal/domain/secrets/version.go, and the repository of
-- internal/repository/memory/secret_repository.go. A call returns the map after it and its result.
use knxvault.Prelude.{
  is_empty, ℕ, zero, suc, ◌+◌, ◌-◌, Bool, true, false, ◌&&◌, ◌||◌, not, Option, none, some, List,
  [], ◌∷◌, Text, codes, str_eq, Text-discrete, ℕ_discrete, lookup, insert, delete, length, ltb, leb,
  ◌==◌, if◌then◌else◌,
}
use knxvault.Errors.{Result, ok, fail, validation, not_found}
pub mod Valid
pub mod Numbers
pub mod Latest
pub mod Put
pub mod Reads
pub mod Retention
pub mod Tests

-- The identifier is the 128 bits of the UUID, so uuid.Nil is 0. Versions are at least 0: a test
-- of the code treats a negative number as it treats 0.
pub record SecretVersion : Type 0 where
  pub id : ℕ
  pub path : Text
  pub version : ℕ
  pub data_enc : List ℕ
  pub dek_enc : List ℕ
  pub lease_id : Option Text
  pub ttl_seconds : Option ℕ
  pub created_at : ℕ
  pub expires_at : Option ℕ
  pub destroyed : Bool
  pub labels : List (Text × Text)

-- Validate, as the test that passes.
unfoldable pub validate : SecretVersion → Bool
validate sv =
    not (sv.id == 0)
    && (not (is_empty sv.path)
        && (not (ltb sv.version 1) && not (is_empty sv.data_enc || is_empty sv.dek_enc)))

-- secretKey
pub record SecretKey : Type 0 where
  pub path : Text
  pub version : ℕ

unfoldable pub SecretKey-discrete : Discrete SecretKey
unfolding Text-discrete ℕ_discrete
SecretKey-discrete a b = elim (Text-discrete a.path b.path) [
  | yes p ↦ elim (ℕ_discrete a.version b.version) [
    | yes q ↦ yes (λ i. record { path = p i; version = q i })
    | no q ↦ no (λ e. q (λ i. (e i).version))
  ]
  | no p ↦ no (λ e. p (λ i. (e i).path))
]

abbrev pub Store : Type 0
Store = List (SecretKey × SecretVersion)

-- What a call leaves behind, and what it returns.
abbrev pub Outcome : Type 0 → Type 0
Outcome A = Store × Result A

abbrev pub get : SecretKey → Store → Option SecretVersion
get = lookup SecretKey-discrete

abbrev pub key_of : SecretVersion → SecretKey
key_of sv = record { path = sv.path; version = sv.version }

-- SaveVersion
unfoldable pub save_version : Store → SecretVersion → Outcome (Unit {0})
save_version s sv =
    if not (validate sv)
    then (s, fail validation (codes "invalid secret version"))
    else elim (get (key_of sv) s) [
      | some _ ↦ (s, fail validation (codes "secret version already exists"))
      | none ↦ (insert SecretKey-discrete (key_of sv) sv s, ok tt)
    ]

-- The newer of the best so far and another.
unfoldable pub newer : Option SecretVersion → SecretVersion → Option SecretVersion
newer none sv = some sv
newer (some best) sv = if ltb best.version sv.version then some sv else some best

-- The loop of GetLatest and latestNonDestroyedLocked.
unfoldable pub latest_from : Text → Store → Option SecretVersion → Option SecretVersion
unfolding newer
latest_from path [] latest = latest
latest_from path ((key, sv) ∷ s) latest =
    latest_from path s
      (if not (str_eq key.path path) || sv.destroyed then latest else newer latest sv)

unfoldable pub latest_non_destroyed : Store → Text → Option SecretVersion
unfolding latest_from
latest_non_destroyed s path = latest_from path s none

-- GetLatest
unfoldable pub get_latest : Store → Text → Result SecretVersion
unfolding latest_non_destroyed
get_latest s path = elim (latest_non_destroyed s path) [
  | none ↦ fail not_found (codes "secret version not found")
  | some sv ↦ ok sv
]

-- GetVersion
unfoldable pub get_version : Store → Text → ℕ → Result SecretVersion
get_version s path version = elim (get (record { path = path; version = version }) s) [
  | none ↦ fail not_found (codes "secret version not found")
  | some sv ↦ ok sv
]

-- The loop of nextVersionLocked.
unfoldable pub max_version : Text → Store → ℕ → ℕ
max_version path [] max = max
max_version path ((key, _) ∷ s) max =
    max_version path s (if str_eq key.path path && ltb max key.version then key.version else max)

-- nextVersionLocked and NextVersion
unfoldable pub next_version : Store → Text → ℕ
unfolding max_version
next_version s path = max_version path s 0 + 1

-- The versions that the first loop of trimVersionsLocked collects.
unfoldable pub live_versions : Text → Store → List ℕ
live_versions path [] = []
live_versions path ((key, sv) ∷ s) =
    if str_eq key.path path && not sv.destroyed
    then key.version ∷ live_versions path s
    else live_versions path s

-- sort.Ints
unfoldable pub insert_sorted : ℕ → List ℕ → List ℕ
insert_sorted x [] = x ∷ []
insert_sorted x (y ∷ ys) = if leb x y then x ∷ y ∷ ys else y ∷ insert_sorted x ys

unfoldable pub sort_ints : List ℕ → List ℕ
unfolding insert_sorted
sort_ints [] = []
sort_ints (x ∷ xs) = insert_sorted x (sort_ints xs)

-- The last loop of trimVersionsLocked, over the first `n` versions.
unfoldable pub remove_first : Text → ℕ → List ℕ → Store → Store
remove_first path zero versions s = s
remove_first path (suc n) [] s = s
remove_first path (suc n) (v ∷ versions) s =
    remove_first path n versions (delete SecretKey-discrete (record { path = path; version = v }) s)

-- trimVersionsLocked
unfoldable pub trim_versions : Store → Text → ℕ → Store
unfolding live_versions sort_ints remove_first
trim_versions s path max_versions =
    let versions = live_versions path s in
    if leb (length versions) max_versions
    then s
    else remove_first path (length versions - max_versions) (sort_ints versions) s

-- Whether the compare-and-set version is not given, or is that of the newest live version.
unfoldable pub cas_holds : Store → Text → Option ℕ → Bool
cas_holds s path none = true
cas_holds s path (some v) = elim (latest_non_destroyed s path) [
  | none ↦ false
  | some latest ↦ latest.version == v
]

-- PutAtomic
unfoldable pub put_atomic : Store → SecretVersion → Option ℕ → ℕ → Outcome ℕ
unfolding cas_holds
put_atomic s sv cas_version max_versions =
    if not (cas_holds s sv.path cas_version)
    then (s, fail validation (codes "cas version mismatch"))
    else let version = next_version s sv.path in
      let stored : SecretVersion = record sv { version = version } in
      if not (validate stored)
      then (s, fail validation (codes "invalid secret version"))
      else elim (get (key_of stored) s) [
        | some _ ↦ (s, fail validation (codes "secret version already exists"))
        | none ↦
            let saved = insert SecretKey-discrete (key_of stored) stored s in
            (
              if ltb 0 max_versions then trim_versions saved sv.path max_versions else saved,
              ok version,
            )
      ]

-- UpdateDEKEnc
unfoldable pub update_dek_enc : Store → Text → ℕ → List ℕ → Outcome (Unit {0})
update_dek_enc s path version dek_enc =
    if is_empty path || ltb version 1 || is_empty dek_enc
    then (s, fail validation (codes "invalid dek update request"))
    else let key : SecretKey = record { path = path; version = version } in
      elim (get key s) [
        | none ↦ (s, fail not_found (codes "secret version not found"))
        | some sv ↦ (insert SecretKey-discrete key (record sv { dek_enc = dek_enc }) s, ok tt)
      ]

-- DestroyVersion
unfoldable pub destroy_version : Store → Text → ℕ → Outcome (Unit {0})
destroy_version s path version =
    let key : SecretKey = record { path = path; version = version } in
    elim (get key s) [
      | none ↦ (s, fail not_found (codes "secret version not found"))
      | some sv ↦
          if sv.destroyed
          then (s, fail validation (codes "secret version already destroyed"))
          else (insert SecretKey-discrete key (record sv { destroyed = true }) s, ok tt)
    ]

-- Clear
unfoldable pub clear : Store → Store
clear s = []
