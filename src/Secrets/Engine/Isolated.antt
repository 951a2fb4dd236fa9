-- ===== src/Secrets/Engine/Isolated.antt =====
-- The paths of other engines stay out of reach of the KV engine (internal/engine/secrets/kvv2.go).
use knxvault.Prelude.{
  Option-cases, is_empty, ℕ, ◌≡◌, ◌≢◌, inl, inr, refl, ◌∙◌, true, false, ◌||◌, not, List, [], ◌∷◌,
  Text, In, arith, Bool-cases, ltb,
}
use knxvault.Errors.{Result-cases, ok}
use knxvault.Secrets.Store.{SecretVersion, Store, get_latest}
use knxvault.Secrets.Store.Reads.{
  SameAt, SameAt-of, SameAt-trans, put_atomic-SameAt, destroy_version-SameAt,
}
use knxvault.Secrets.Paths.{is_reserved}
use knxvault.Secrets.Engine.{
  KvEnv, PutOptions, with_ttl, new_version, build, put, GetResult, get, destroy, delete,
}
use knxvault.Secrets.Engine.Listing.{
  VersionMetadata, PathMetadata, list_paths, list_versions, get_metadata,
}
use knxvault.Secrets.Engine.Listing.Filters.{list_paths_iff}

-- The calls of the engine that may change the secrets, with the time of a Put.
pub data Call (env : KvEnv) : Type 0 where
  call_put : ℕ → Text → env.Data → PutOptions → Call env
  call_destroy : Text → ℕ → Call env
  call_delete : Text → Call env

module _ (env : KvEnv) where
  abbrev call : Call env → Store → Store
  call (call_put now path content opts) s = (put env now s path content opts).0
  call (call_destroy path version) s = (destroy env s path version).0
  call (call_delete path) s = (delete env s path).0

  -- What a sequence of calls leaves, whatever each of them returns.
  abbrev pub calls : List (Call env) → Store → Store
  calls [] s = s
  calls (c ∷ cs) s = calls cs (call c s)

  same : (path : Text) (s : Store) → SameAt path s s
  same path s = SameAt-of path s s (λ k p. refl) refl

  apart :
      (reserved path : Text)
      → is_reserved reserved ≡ true
      → is_reserved path ≡ false
      → reserved ≢ path
  apart reserved path r o e = absurd (ground arith)

  with_ttl-path :
      (now : ℕ) (t : Text) (sv built : SecretVersion)
      → with_ttl env now t sv ≡ ok built
      → built.path ≡ sv.path
  unfolding with_ttl
  with_ttl-path now t sv built h = ground arith

  -- What Put builds stands at the path of the call, and that is not reserved.
  build-path :
      (now : ℕ) (path : Text) (content : env.Data) (opts : PutOptions) (sv : SecretVersion)
      → build env now path content opts ≡ ok sv
      → (sv.path ≡ path) × (is_reserved path ≡ false)
  unfolding build
  build-path now path content opts sv h =
      elim (Bool-cases (not env.has_repo || not env.has_crypto)) [
        | inl e ↦ absurd (ground arith)
        | inr e ↦ elim (Bool-cases (is_empty path)) [
          | inl f ↦ absurd (ground arith)
          | inr f ↦ elim (Bool-cases (is_reserved path)) [
            | inl g ↦ absurd (ground arith)
            | inr g ↦ elim (Bool-cases (env.no_entries content)) [
              | inl k ↦ absurd (ground arith)
              | inr k ↦ elim (Option-cases (env.marshal content)) [
                | inl l ↦ absurd (ground arith)
                | inr (payload, l) ↦ elim (Option-cases (env.seal payload)) [
                  | inl m ↦ absurd (ground arith)
                  | inr (sealed, m) ↦ (
                    with_ttl-path now opts.ttl_text (new_version env now path sealed opts.labels) sv
                        (ground arith),
                    g,
                  )
                ]
              ]
            ]
          ]
        ]
      ]

  put-SameAt :
      (now : ℕ) (path : Text) (content : env.Data) (opts : PutOptions) (s : Store) (reserved : Text)
      → is_reserved reserved ≡ true
      → SameAt reserved s (put env now s path content opts).0
  unfolding put
  put-SameAt now path content opts s reserved r =
      elim (Result-cases (build env now path content opts)) [
        | inr (x, e) ↦ rw (e, put) (same reserved s)
        | inl (sv, e) ↦
            let (p, o) = build-path now path content opts sv e in
            rw (e, put) (put_atomic-SameAt s sv _ _ reserved (λ q. apart reserved path r o (q ∙ p)))
      ]

  destroy-SameAt :
      (path : Text) (version : ℕ) (s : Store) (reserved : Text)
      → is_reserved reserved ≡ true
      → SameAt reserved s (destroy env s path version).0
  unfolding destroy
  destroy-SameAt path version s reserved r = elim (Bool-cases env.has_repo) [
    | inr a ↦ rw (a, destroy) (same reserved s)
    | inl a ↦ elim (Bool-cases (is_empty path || ltb version 1)) [
      | inl b ↦ rw (a, b, destroy) (same reserved s)
      | inr b ↦ elim (Bool-cases (is_reserved path)) [
        | inl o ↦ rw (a, b, o, destroy) (same reserved s)
        | inr o ↦
            rw (a, b, o, destroy)
              (destroy_version-SameAt s path version reserved (apart reserved path r o))
      ]
    ]
  ]

  delete-SameAt :
      (path : Text) (s : Store) (reserved : Text)
      → is_reserved reserved ≡ true
      → SameAt reserved s (delete env s path).0
  unfolding delete
  delete-SameAt path s reserved r = elim (Bool-cases (not env.has_repo || not env.has_crypto)) [
    | inl a ↦ rw (a, delete) (same reserved s)
    | inr a ↦ elim (Bool-cases (is_reserved path)) [
      | inl o ↦ rw (a, o, delete) (same reserved s)
      | inr o ↦ elim (Result-cases (get_latest s path)) [
        | inr (x, b) ↦ rw (a, o, b, delete) (same reserved s)
        | inl (latest, b) ↦
            rw (a, o, b, delete)
              (destroy_version-SameAt s path latest.version reserved (apart reserved path r o))
      ]
    ]
  ]

  call-SameAt :
      (c : Call env) (s : Store) (reserved : Text)
      → is_reserved reserved ≡ true
      → SameAt reserved s (call c s)
  call-SameAt (call_put now path content opts) s reserved r =
      put-SameAt now path content opts s reserved r
  call-SameAt (call_destroy path version) s reserved r = destroy-SameAt path version s reserved r
  call-SameAt (call_delete path) s reserved r = delete-SameAt path s reserved r

  calls-SameAt :
      (cs : List (Call env)) (s : Store) (reserved : Text)
      → is_reserved reserved ≡ true
      → SameAt reserved s (calls cs s)
  calls-SameAt [] s reserved r = same reserved s
  calls-SameAt (c ∷ cs) s reserved r =
      SameAt-trans reserved s (call c s) (calls cs (call c s)) (call-SameAt c s reserved r)
        (calls-SameAt cs (call c s) reserved r)

  list_versions-open :
      (s : Store) (path : Text) (r : List VersionMetadata)
      → list_versions env s path ≡ ok r
      → is_reserved path ≡ false
  unfolding list_versions
  list_versions-open s path r h = ground arith

  -- Whatever Puts, DestroyVersions and Deletes are called, on whatever paths and in whatever
  -- order, what GetVersion and GetLatest of the repository give for a path of another engine is
  -- what they gave before. And no call of the engine that reads gives anything of such a path:
  -- Get, GetVersion, ListVersions and GetMetadata succeed on no such path, and no such path is in
  -- what ListPaths gives.
  pub reserved_isolated :
      (cs : List (Call env)) (s : Store)
      → ((reserved : Text) → is_reserved reserved ≡ true → SameAt reserved s (calls cs s))
        × ((now : ℕ) (path : Text) (n : ℕ) (r : GetResult env)
            → get env now s path n ≡ ok r
            → is_reserved path ≡ false)
        × ((path : Text) (r : List VersionMetadata)
            → list_versions env s path ≡ ok r
            → is_reserved path ≡ false)
        × ((path : Text) (n : ℕ) (r : PathMetadata)
            → get_metadata env s path n ≡ ok r
            → is_reserved path ≡ false)
        × ((prefix : Text) (paths : List Text) (path : Text)
            → list_paths env s prefix ≡ ok paths
            → In path paths
            → is_reserved path ≡ false)
  unfolding get get_metadata
  reserved_isolated cs s = (
    calls-SameAt cs s,
    λ now path n r h. ground arith,
    λ path r h. list_versions-open s path r h,
    λ path n r h. elim (Result-cases (list_versions env s path)) [
      | inl (versions, e) ↦ list_versions-open s path versions e
      | inr (x, e) ↦ absurd (ground arith)
    ],
    λ prefix paths path h i. (((list_paths_iff env s prefix paths h).1 path).0 i).2,
  )
