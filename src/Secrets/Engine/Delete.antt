-- ===== src/Secrets/Engine/Delete.antt =====
-- Delete: what can be read of the path afterwards.
use mathlib.Core.Path.{subst}
use knxvault.Prelude.{
  ℕ, ◌≡◌, ◌≢◌, ◌⊎◌, inl, inr, refl, sym, ap, ◌∙◌, true, false, ◌||◌, not, Option, none, some, [],
  ◌∷◌, Text, str_eq, insert, lookup-insert_self, lookup-insert_ne, In, In-insert_ne, arith,
  Bool-cases, Option-cases, ltb,
}
use knxvault.Errors.{ok}
use knxvault.Secrets.Store.{
  SecretVersion, SecretKey, SecretKey-discrete, Store, get, get_version, newer, latest_from,
  latest_non_destroyed, get_latest, destroy_version,
}
use knxvault.Secrets.Store.Valid.{IsValid, operations-IsValid}
use knxvault.Secrets.Store.Put.{In-IsValid, get_of-In}
use knxvault.Secrets.Store.Numbers.{Entry}
use knxvault.Secrets.Paths.{is_reserved}
use knxvault.Secrets.Engine.{KvEnv, delete}

abbrev IsSome : Option SecretVersion → Type 0
IsSome none = ⊥
IsSome (some sv) = Unit

newer-IsSome : (b : Option SecretVersion) (sv : SecretVersion) → IsSome (newer b sv)
unfolding newer
newer-IsSome none sv = tt
newer-IsSome (some b) sv = elim (Bool-cases (ltb b.version sv.version)) [
  | inl e ↦ rw e tt
  | inr e ↦ rw e tt
]

-- A live entry at the path keeps the loop from ending with nothing.
latest_from-IsSome :
    (path : Text) (s : Store) (b : Option SecretVersion) (e : Entry)
    → In e s ⊎ IsSome b
    → e.0.path ≡ path
    → e.1.destroyed ≡ false
    → IsSome (latest_from path s b)
unfolding latest_from
latest_from-IsSome path [] b e (inl i) p d = absurd i
latest_from-IsSome path [] b e (inr x) p d = x
latest_from-IsSome path ((k, sv) ∷ s) b e found p d =
    elim (Bool-cases (not (str_eq k.path path) || sv.destroyed)) [
      | inr f ↦ rw f (latest_from-IsSome path s (newer b sv) e (inr (newer-IsSome b sv)) p d)
      | inl f ↦ rw f (latest_from-IsSome path s b e (rest found f) p d)
    ]
  where
    rest :
        In e ((k, sv) ∷ s) ⊎ IsSome b
        → (not (str_eq k.path path) || sv.destroyed) ≡ true
        → In e s ⊎ IsSome b
    rest (inr x) f = inr x
    rest (inl (inr i)) f = inl i
    rest (inl (inl q)) f =
        let at_path : k.path ≡ path = ap (λ t. t.0.path) q ∙ p in
        let live : sv.destroyed ≡ false = ap (λ t. t.1.destroyed) q ∙ d in absurd (ground arith)

newer-cases :
    (o : Option SecretVersion) (x y : SecretVersion) → newer o x ≡ some y → (x ≡ y) ⊎ (o ≡ some y)
unfolding newer
newer-cases none x y q = inl (ground arith)
newer-cases (some b) x y q = elim (Bool-cases (ltb b.version x.version)) [
  | inl e ↦ inl (ground arith)
  | inr e ↦ inr (rw e at q)
]

-- What the loop returns is a live entry at the path, or what it began with.
latest_from-In :
    (path : Text) (s : Store) (b : Option SecretVersion) (r : SecretVersion)
    → latest_from path s b ≡ some r
    → ((e : Entry) × In e s × (e.0.path ≡ path) × (e.1 ≡ r) × (e.1.destroyed ≡ false))
      ⊎ (b ≡ some r)
unfolding latest_from
latest_from-In path [] b r h = inr h
latest_from-In path ((k, sv) ∷ s) b r h =
    elim (Bool-cases (not (str_eq k.path path) || sv.destroyed)) [
      | inl f ↦ elim (latest_from-In path s b r (rw f at h)) [
        | inl (e, i, p, q, d) ↦ inl (e, inr i, p, q, d)
        | inr q ↦ inr q
      ]
      | inr f ↦ elim (latest_from-In path s (newer b sv) r (rw f at h)) [
        | inl (e, i, p, q, d) ↦ inl (e, inr i, p, q, d)
        | inr q ↦ elim (newer-cases b sv r q) [
          | inl p ↦ inl ((k, sv), inl refl, ground arith, p, ground arith)
          | inr p ↦ inr p
        ]
      ]
    ]

latest_non_destroyed_of :
    (s : Store) (path : Text) (r : SecretVersion)
    → get_latest s path ≡ ok r
    → latest_non_destroyed s path ≡ some r
unfolding get_latest
latest_non_destroyed_of s path r h = elim (Option-cases (latest_non_destroyed s path)) [
  | inl e ↦ absurd (ground arith)
  | inr (x, e) ↦ ground arith
]

get_latest_of-IsSome :
    (s : Store) (path : Text)
    → IsSome (latest_non_destroyed s path)
    → (older : SecretVersion) × (get_latest s path ≡ ok older) × (older.destroyed ≡ false)
unfolding get_latest latest_non_destroyed
get_latest_of-IsSome s path h = elim (Option-cases (latest_from path s none)) [
  | inl e ↦ absurd (rw e at h)
  | inr (x, e) ↦ (
    x,
    rw (e, get_latest),
    elim (latest_from-In path s none x e) [
      | inl (f, i, p, q, d) ↦ sym (ap (λ t. t.destroyed) q) ∙ d
      | inr q ↦ absurd (cc)
    ],
  )
]

destroy_version_live :
    (s : Store) (path : Text) (version : ℕ) (sv : SecretVersion)
    → get (record { path = path; version = version }) s ≡ some sv
    → sv.destroyed ≡ false
    → destroy_version s path version ≡ (
      insert SecretKey-discrete
          (record { path = path; version = version })
          (record sv { destroyed = true })
          s,
      ok tt,
    )
unfolding destroy_version
destroy_version_live s path version sv f e = rw (f, e, destroy_version)

-- The latest version stands under its path and number, and is live.
latest-stored :
    (s : Store) (path : Text) (latest : SecretVersion)
    → IsValid s
    → get_latest s path ≡ ok latest
    → (get (record { path = path; version = latest.version }) s ≡ some latest)
      × (latest.destroyed ≡ false)
latest-stored s path latest valid h =
    elim (latest_from-In path s none latest
      (unfold latest_non_destroyed in latest_non_destroyed_of s path latest h)) [
        | inr q ↦ absurd (cc)
        | inl (e, i, p, q, d) ↦
            let same = In-IsValid s e valid i in
            let number : e.0.version ≡ latest.version =
              ap (λ k. k.version) same ∙ ap (λ t. t.version) q in
            let key : e.0 ≡ record { path = path; version = latest.version } =
              λ j. record { path = p j; version = number j } in
            (
              subst (λ k. get k s ≡ some latest) key (get_of-In s e valid i ∙ ap some q),
              sym (ap (λ t. t.destroyed) q) ∙ d,
            )
      ]

get_version_of :
    (s : Store) (path : Text) (version : ℕ) (sv : SecretVersion)
    → get (record { path = path; version = version }) s ≡ some sv
    → get_version s path version ≡ ok sv
unfolding get_version
get_version_of s path version sv e = rw (e, get_version) refl

some_same : {a b : SecretVersion} → some a ≡ some b → a ≡ b
some_same h = ground arith

-- A live version that is stored after a destroyed one was, is not that one, and was stored before.
behind-destroyed :
    (s : Store) (path : Text) (gone older : SecretVersion)
    → gone.destroyed ≡ true
    → older.destroyed ≡ false
    → get
        (record { path = path; version = older.version })
        (insert SecretKey-discrete (record { path = path; version = gone.version }) gone s)
      ≡ some older
    → (older.version ≢ gone.version)
      × (get (record { path = path; version = older.version }) s ≡ some older)
behind-destroyed s path gone older d live h =
    let key : SecretKey = record { path = path; version = gone.version } in
    let differs : older.version ≢ gone.version = λ q.
      let here =
        subst
          (λ v.
            get (record { path = path; version = v }) (insert SecretKey-discrete key gone s)
            ≡ some older)
          q h in
      let e = some_same (sym (lookup-insert_self SecretKey-discrete key gone s) ∙ here) in
      absurd (ground arith) in
    (
      differs,
      sym (
            lookup-insert_ne SecretKey-discrete key
              (record { path = path; version = older.version }) gone s
              (λ q. differs (sym (ap (λ k. k.version) q))))
          ∙ h,
    )

-- Where a well-formed map has, at a path that is not reserved, a live version besides the latest, Delete
-- of an engine that is configured succeeds. Afterwards the latest version is still there and marked
-- as destroyed, and a read of the latest version returns another one: a live version that was there
-- before, unchanged, with a number of its own.
pub delete_reveals :
    (env : KvEnv) (s : Store) (path : Text) (latest : SecretVersion) (e : Entry)
    → IsValid s
    → env.has_repo ≡ true
    → env.has_crypto ≡ true
    → is_reserved path ≡ false
    → get_latest s path ≡ ok latest
    → In e s
    → e.0.path ≡ path
    → e.1.destroyed ≡ false
    → e.1.version ≢ latest.version
    → ((delete env s path).1 ≡ ok tt)
      × (get_version (delete env s path).0 path latest.version
          ≡ ok (record latest { destroyed = true }))
      × ((older : SecretVersion) × (get_latest (delete env s path).0 path ≡ ok older)
          × (older.destroyed ≡ false)
          × (older.version ≢ latest.version)
          × (get_version s path older.version ≡ ok older))
unfolding delete latest_non_destroyed
delete_reveals env s path latest e valid repo crypto open_path h i p d ne =
    let (stored_latest, live) = latest-stored s path latest valid h in
    let key : SecretKey = record { path = path; version = latest.version } in
    let gone : SecretVersion = record latest { destroyed = true } in
    let after = insert SecretKey-discrete key gone s in
    let one = destroy_version_live s path latest.version latest stored_latest live in
    let run : delete env s path ≡ (after, ok tt) = rw (repo, crypto, open_path, h, delete) one in
    let other : e.0 ≢ key =
      λ q. ne (sym (ap (λ k. k.version) (In-IsValid s e valid i)) ∙ ap (λ k. k.version) q) in
    let kept = In-insert_ne SecretKey-discrete key gone e s other i in
    let (older, found, alive) =
      get_latest_of-IsSome after path (latest_from-IsSome path after none e (inl kept) p d) in
    let after_valid : IsValid after =
      subst IsValid (ap (λ t. t.0) one) ((operations-IsValid s valid).3 path latest.version) in
    let (at_older, _) = latest-stored after path older after_valid found in
    let (differs, before) = behind-destroyed s path gone older refl alive at_older in
    rw run (
      refl,
      get_version_of after path latest.version gone
          (lookup-insert_self SecretKey-discrete key gone s),
      (older, found, alive, differs, get_version_of s path older.version older before),
    )
