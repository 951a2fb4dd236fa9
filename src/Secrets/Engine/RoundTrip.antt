-- ===== src/Secrets/Engine/RoundTrip.antt =====
-- What Put stored is what Get returns, until it expires.
use mathlib.Core.Path.{subst}
use knxvault.Prelude.{
  is_empty, ℕ, ◌+◌, ◌/◌, ◌≡◌, ◌⊎◌, inl, inr, refl, sym, ap, ◌∙◌, false, ◌||◌, not, Option, none,
  some, Text, codes, arith, Bool-cases, Option-cases, ltb, ◌==◌, if◌then◌else◌,
}
use knxvault.Errors.{Result-cases, ok, fail, not_found}
use knxvault.Secrets.Store.{SecretVersion, Store, put_atomic, next_version}
use knxvault.Secrets.Store.Valid.{IsValid}
use knxvault.Secrets.Store.Put.{put_atomic_iff}
use knxvault.Secrets.Store.Reads.{put_atomic-read}
use knxvault.Secrets.Paths.{is_reserved}
use knxvault.Secrets.Ttl.{ttl, bad, parse_ttl, second}
use knxvault.Secrets.Engine.{
  KvEnv, PutOptions, with_ttl, new_version, build, put, is_expired, read, fetch, get,
  default_max_versions,
}

-- The expiry that Put gives a secret.
abbrev pub expiry_of : KvEnv → ℕ → Text → Option ℕ
expiry_of env now text =
    if is_empty text
    then none
    else elim (parse_ttl env.numbers text) [ bad _ ↦ none | ttl d ↦ some (now + d) ]

abbrev pub seconds_of : KvEnv → Text → Option ℕ
seconds_of env text =
    if is_empty text
    then none
    else elim (parse_ttl env.numbers text) [ bad _ ↦ none | ttl d ↦ some (d / second) ]

with_ttl-ok :
    (env : KvEnv) (now : ℕ) (text : Text) (sv r : SecretVersion)
    → sv.expires_at ≡ none
    → sv.ttl_seconds ≡ none
    → with_ttl env now text sv ≡ ok r
    → r ≡ record sv { ttl_seconds = seconds_of env text; expires_at = expiry_of env now text }
unfolding with_ttl
with_ttl-ok env now text sv r a b h = ground arith

-- A secret that Put builds.
record Built (env : KvEnv) (now : ℕ) (path : Text) (content : env.Data) (opts : PutOptions)
    (sv : SecretVersion) : Type 0 where
  payload : Text
  sealed : Text × Text
  marshalled : env.marshal content ≡ some payload
  encrypted : env.seal payload ≡ some sealed
  usable : (not env.has_repo || not env.has_crypto) ≡ false
  allowed : is_reserved path ≡ false
  shape : sv ≡ record (new_version env now path sealed opts.labels) {
    ttl_seconds = seconds_of env opts.ttl_text;
    expires_at = expiry_of env now opts.ttl_text;
  }

build-Built :
    (env : KvEnv) (now : ℕ) (path : Text) (content : env.Data) (opts : PutOptions)
    (sv : SecretVersion)
    → build env now path content opts ≡ ok sv
    → Built env now path content opts sv
unfolding build
build-Built env now path content opts sv h =
    elim (Bool-cases (not env.has_repo || not env.has_crypto)) [
      | inl e ↦ absurd (ground arith)
      | inr e ↦ elim (Bool-cases (is_reserved path)) [
        | inl f ↦ absurd (ground arith)
        | inr f ↦ elim (Option-cases (env.marshal content)) [
          | inl g ↦ absurd (ground arith)
          | inr (payload, g) ↦ elim (Option-cases (env.seal payload)) [
            | inl k ↦ absurd (ground arith)
            | inr (sealed, k) ↦ record {
              payload = payload;
              sealed = sealed;
              marshalled = g;
              encrypted = k;
              usable = e;
              allowed = f;
              shape =
                  with_ttl-ok env now opts.ttl_text (new_version env now path sealed opts.labels) sv
                    refl refl (ground arith);
            }
          ]
        ]
      ]
    ]

abbrev kept_of : PutOptions → ℕ
kept_of opts = if ltb 0 opts.max_versions then opts.max_versions else default_max_versions

-- A Put that succeeds is a PutAtomic of a secret that was built.
put-Built :
    (env : KvEnv) (now : ℕ) (s : Store) (path : Text) (content : env.Data) (opts : PutOptions)
    (v : ℕ)
    → (put env now s path content opts).1 ≡ ok v
    → (sv : SecretVersion) × Built env now path content opts sv
      × (put env now s path content opts ≡ put_atomic s sv opts.cas_version (kept_of opts))
unfolding put
put-Built env now s path content opts v h = elim (Result-cases (build env now path content opts)) [
  | inr (e, q) ↦ absurd (ground arith)
  | inl (sv, q) ↦ (sv, build-Built env now path content opts sv q, rw (q, put))
]

module _ (env : KvEnv)
    (opens : (b : Text) (e : Text × Text) → env.seal b ≡ some e → env.unseal e.0 e.1 ≡ some b)
    (reads : (c : env.Data) (b : Text) → env.marshal c ≡ some b → env.unmarshal b ≡ some c) where
  read-Built :
      (now later : ℕ) (path : Text) (content : env.Data) (opts : PutOptions) (sv : SecretVersion)
      (v : ℕ)
      → Built env now path content opts sv
      → read env later (record sv { version = v }) ≡ (
          if is_expired later (expiry_of env now opts.ttl_text)
          then fail not_found (codes "secret version expired")
          else ok (record {
            content = content;
            version = v;
            created_at = now;
            ttl_seconds = seconds_of env opts.ttl_text;
            labels = opts.labels;
          }))
  unfolding read
  read-Built now later path content opts sv v b =
      ap (λ t. read env later (record t { version = v })) b.shape
      ∙ rw (opens b.payload b.sealed b.encrypted, reads content b.payload b.marshalled) refl

fetch-put :
    (s : Store) (sv : SecretVersion) (cas : Option ℕ) (max v n : ℕ)
    → IsValid s
    → sv.destroyed ≡ false
    → (put_atomic s sv cas max).1 ≡ ok v
    → (n ≡ 0) ⊎ (n ≡ v)
    → fetch (put_atomic s sv cas max).0 sv.path n ≡ ok (record sv { version = v })
unfolding fetch next_version
fetch-put s sv cas max v n valid live done which =
    let (latest, numbered) = put_atomic-read s sv cas max v valid live done in
    let number = ((put_atomic_iff s sv cas max v).0 done).2 in
    elim which [
      | inl e ↦ rw e latest
      | inr e ↦ rw e (let positive : (v == 0) ≡ false = ground arith in rw positive numbered)
    ]

-- Where what `unseal` and `unmarshal` give back is what went into `seal` and `marshal`, a content
-- that Put stored as version `v` is what Get returns for the path and for that version, with its
-- labels and its time, while the secret is not expired; once it is, Get answers not found.
pub put-get :
    (env : KvEnv) (now later : ℕ) (s : Store) (path : Text) (content : env.Data) (opts : PutOptions)
    (v : ℕ)
    → ((b : Text) (e : Text × Text) → env.seal b ≡ some e → env.unseal e.0 e.1 ≡ some b)
    → ((c : env.Data) (b : Text) → env.marshal c ≡ some b → env.unmarshal b ≡ some c)
    → IsValid s
    → (put env now s path content opts).1 ≡ ok v
    → (n : ℕ) → (n ≡ 0) ⊎ (n ≡ v)
    → get env later (put env now s path content opts).0 path n ≡ (
        if is_expired later (expiry_of env now opts.ttl_text)
        then fail not_found (codes "secret version expired")
        else ok (record {
          content = content;
          version = v;
          created_at = now;
          ttl_seconds = seconds_of env opts.ttl_text;
          labels = opts.labels;
        }))
unfolding get
put-get env now later s path content opts v opens reads valid h n which =
    let (sv, b, same) = put-Built env now s path content opts v h in
    let done : (put_atomic s sv opts.cas_version (kept_of opts)).1 ≡ ok v =
      sym (ap (λ t. t.1) same) ∙ h in
    let live : sv.destroyed ≡ false = ap (λ t. t.destroyed) b.shape in
    let at_path : sv.path ≡ path = ap (λ t. t.path) b.shape in
    let found = fetch-put s sv opts.cas_version (kept_of opts) v n valid live done which in
    let found' : fetch (put_atomic s sv opts.cas_version (kept_of opts)).0 path n
        ≡ ok (record sv { version = v }) =
      subst
        (λ p.
          fetch (put_atomic s sv opts.cas_version (kept_of opts)).0 p n
          ≡ ok (record sv { version = v }))
        at_path found in
    rw (same, b.usable, b.allowed, found', get)
      (read-Built env opens reads now later path content opts sv v b)
