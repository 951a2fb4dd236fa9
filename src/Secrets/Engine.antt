-- ===== src/Secrets/Engine.antt =====
-- KVV2Engine of internal/engine/secrets/kvv2.go, over the repository's map.
use knxvault.Prelude.{
  is_empty, ℕ, ◌+◌, ◌/◌, Bool, false, ◌||◌, not, Option, none, some, List, Text, codes, ltb, ◌==◌,
  if◌then◌else◌,
}
use knxvault.Errors.{Result, ok, err, fail, internal, validation, forbidden, not_found}
use knxvault.Secrets.Store.{
  SecretVersion, Store, Outcome, get_latest, get_version, put_atomic, destroy_version,
}
use knxvault.Secrets.Paths.{is_reserved}
use knxvault.Secrets.Ttl.{Numbers, ttl, bad, second, parse_ttl}
pub mod Listing
pub mod RoundTrip
pub mod Guards
pub mod Isolated
pub mod Delete
pub mod Tests

-- What the engine calls: encoding/json, crypto.Service, uuid.New, and the number readers of
-- ParseTTL. `seal` gives the encrypted data and the encrypted key of a call.
pub record KvEnv : Type 1 where
  pub Data : Type 0
  pub no_entries : Data → Bool
  pub marshal : Data → Option Text
  pub unmarshal : Text → Option Data
  pub seal : Text → Option (Text × Text)
  pub unseal : Text → Text → Option Text
  pub numbers : Numbers
  pub new_id : ℕ
  pub has_repo : Bool
  pub has_crypto : Bool

abbrev pub default_max_versions : ℕ
default_max_versions = 10

-- PutOptions
pub record PutOptions : Type 0 where
  pub ttl_text : Text
  pub cas_version : Option ℕ
  pub max_versions : ℕ
  pub labels : List (Text × Text)

abbrev pub reserved_error : Text
reserved_error = codes "path is reserved for an internal engine"

abbrev pub not_configured : Text
not_configured = codes "kv engine not fully configured"

-- The fields TTLSeconds and ExpiresAt.
unfoldable pub with_ttl : KvEnv → ℕ → Text → SecretVersion → Result SecretVersion
with_ttl env now ttl_text sv =
    if is_empty ttl_text then ok sv else elim (parse_ttl env.numbers ttl_text) [
      | bad _ ↦ fail validation (codes "invalid ttl")
      | ttl d ↦ ok (record sv { ttl_seconds = some (d / second); expires_at = some (now + d) })
    ]

abbrev pub new_version : KvEnv → ℕ → Text → Text × Text → List (Text × Text) → SecretVersion
new_version env now path sealed labels = record {
  id = env.new_id;
  path = path;
  version = 0;
  data_enc = sealed.0;
  dek_enc = sealed.1;
  lease_id = none;
  ttl_seconds = none;
  created_at = now;
  expires_at = none;
  destroyed = false;
  labels = labels;
}

-- What Put builds before it calls the repository.
unfoldable pub build : (env : KvEnv) → ℕ → Text → env.Data → PutOptions → Result SecretVersion
unfolding with_ttl
build env now path content opts =
    if not env.has_repo || not env.has_crypto
    then fail internal not_configured
    else if is_empty path
    then fail validation (codes "secret path is required")
    else if is_reserved path
    then fail forbidden reserved_error
    else if env.no_entries content
    then fail validation (codes "secret data is required")
    else elim (env.marshal content) [
      | none ↦ fail internal (codes "marshal secret data")
      | some payload ↦ elim (env.seal payload) [
        | none ↦ fail internal (codes "encrypt secret data")
        | some sealed ↦ with_ttl env now opts.ttl_text (new_version env now path sealed opts.labels)
      ]
    ]

-- Put
unfoldable pub put : (env : KvEnv) → ℕ → Store → Text → env.Data → PutOptions → Outcome ℕ
put env now s path content opts = elim (build env now path content opts) [
  | err e ↦ (s, err e)
  | ok sv ↦
      put_atomic s sv opts.cas_version
        (if ltb 0 opts.max_versions then opts.max_versions else default_max_versions)
]

-- GetResult. The text of TTL is the number of seconds with an s behind it.
pub record GetResult (env : KvEnv) : Type 0 where
  pub content : env.Data
  pub version : ℕ
  pub created_at : ℕ
  pub ttl_seconds : Option ℕ
  pub labels : List (Text × Text)

-- now.After(*ExpiresAt)
abbrev pub is_expired : ℕ → Option ℕ → Bool
is_expired now none = false
is_expired now (some t) = ltb t now

-- What GetVersion does with the version that the repository returned.
unfoldable pub read : (env : KvEnv) → ℕ → SecretVersion → Result (GetResult env)
read env now sv =
    if sv.destroyed
    then fail not_found (codes "secret version destroyed")
    else if is_expired now sv.expires_at
    then fail not_found (codes "secret version expired")
    else elim (env.unseal sv.data_enc sv.dek_enc) [
      | none ↦ fail internal (codes "decrypt secret data")
      | some plain ↦ elim (env.unmarshal plain) [
        | none ↦ fail internal (codes "unmarshal secret data")
        | some content ↦ ok (record {
          content = content;
          version = sv.version;
          created_at = sv.created_at;
          ttl_seconds = sv.ttl_seconds;
          labels = sv.labels;
        })
      ]
    ]

-- The call of the repository: 0 is the latest version.
unfoldable pub fetch : Store → Text → ℕ → Result SecretVersion
fetch s path version = if version == 0 then get_latest s path else get_version s path version

-- GetVersion; Get is GetVersion at 0.
unfoldable pub get : (env : KvEnv) → ℕ → Store → Text → ℕ → Result (GetResult env)
unfolding read
get env now s path version =
    if not env.has_repo || not env.has_crypto
    then fail internal not_configured
    else if is_reserved path
    then fail forbidden reserved_error
    else elim (fetch s path version) [ err e ↦ err e | ok sv ↦ read env now sv ]

-- DestroyVersion
unfoldable pub destroy : KvEnv → Store → Text → ℕ → Outcome (Unit {0})
destroy env s path version =
    if not env.has_repo
    then (s, fail internal not_configured)
    else if is_empty path || ltb version 1
    then (s, fail validation (codes "path and version are required"))
    else if is_reserved path
    then (s, fail forbidden reserved_error)
    else destroy_version s path version

-- Delete
unfoldable pub delete : KvEnv → Store → Text → Outcome (Unit {0})
delete env s path =
    if not env.has_repo || not env.has_crypto
    then (s, fail internal not_configured)
    else if is_reserved path
    then (s, fail forbidden reserved_error)
    else elim (get_latest s path) [
      | err e ↦ (s, err e)
      | ok latest ↦ destroy_version s path latest.version
    ]
