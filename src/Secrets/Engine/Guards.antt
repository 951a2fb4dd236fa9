-- ===== src/Secrets/Engine/Guards.antt =====
-- What Get of the engine returns.
use knxvault.Prelude.{
  ℕ, ◌≡◌, inl, inr, false, ◌||◌, not, some, Text, arith, Bool-cases, Option-cases,
}
use knxvault.Errors.{Result-cases, ok}
use knxvault.Secrets.Store.{SecretVersion, Store}
use knxvault.Secrets.Paths.{is_reserved}
use knxvault.Secrets.Engine.{KvEnv, GetResult, is_expired, read, fetch, get}

-- What `read` asks of a version that it returns.
abbrev Returned : (env : KvEnv) → ℕ → SecretVersion → GetResult env → Type 0
Returned env now sv r =
    (plain : Text) × (sv.destroyed ≡ false)
    × (is_expired now sv.expires_at ≡ false)
    × (env.unseal sv.data_enc sv.dek_enc ≡ some plain)
    × (env.unmarshal plain ≡ some r.content)
    × (r.version ≡ sv.version)

read-Returned :
    (env : KvEnv) (now : ℕ) (sv : SecretVersion) (r : GetResult env)
    → read env now sv ≡ ok r
    → Returned env now sv r
unfolding read
read-Returned env now sv r h = elim (Bool-cases sv.destroyed) [
  | inl e ↦ absurd (ground arith)
  | inr e ↦ elim (Bool-cases (is_expired now sv.expires_at)) [
    | inl f ↦ absurd (ground arith)
    | inr f ↦ elim (Option-cases (env.unseal sv.data_enc sv.dek_enc)) [
      | inl g ↦ absurd (ground arith)
      | inr (plain, g) ↦ elim (Option-cases (env.unmarshal plain)) [
        | inl k ↦ absurd (ground arith)
        | inr (content, k) ↦ (plain, e, f, g, ground arith, ground arith)
      ]
    ]
  ]
]

-- What Get returns is the opened content of a version that the repository gave, that is not
-- destroyed and not expired at the time of the call.
pub get-live :
    (env : KvEnv) (now : ℕ) (s : Store) (path : Text) (n : ℕ) (r : GetResult env)
    → get env now s path n ≡ ok r
    → (sv : SecretVersion) × (plain : Text) × (is_reserved path ≡ false)
      × (fetch s path n ≡ ok sv)
      × (sv.destroyed ≡ false)
      × (is_expired now sv.expires_at ≡ false)
      × (env.unseal sv.data_enc sv.dek_enc ≡ some plain)
      × (env.unmarshal plain ≡ some r.content)
      × (r.version ≡ sv.version)
unfolding get
get-live env now s path n r h = elim (Bool-cases (not env.has_repo || not env.has_crypto)) [
  | inl e ↦ absurd (ground arith)
  | inr e ↦ elim (Bool-cases (is_reserved path)) [
    | inl f ↦ absurd (ground arith)
    | inr f ↦ elim (Result-cases (fetch s path n)) [
      | inr (x, g) ↦ absurd (ground arith)
      | inl (sv, g) ↦
          let back : read env now sv ≡ ok r = ground arith in
          let (plain, a, b, c, d, k) = read-Returned env now sv r back in
          (sv, plain, f, g, a, b, c, d, k)
    ]
  ]
]
