-- ===== src/Secrets/Store/Reads.antt =====
-- What can be read after a successful PutAtomic, and after DestroyVersion.
use knxvault.Prelude.{
  ℕ, zero, suc, ◌≡◌, ◌≢◌, inl, inr, refl, sym, ap, ◌∙◌, true, false, Option, none, List, [], ◌∷◌,
  Text, insert, lookup-delete_ne, lookup-insert_ne, Bool-cases, Option-cases, length, ltb, leb,
}
use knxvault.Errors.{ok}
use knxvault.Secrets.Store.{
  SecretVersion, SecretKey, SecretKey-discrete, Store, get, key_of, latest_from, get_latest,
  get_version, live_versions, sort_ints, remove_first, trim_versions, put_atomic, destroy_version,
}
use knxvault.Secrets.Store.Valid.{
  IsValid, refused, stored, Put-of, stored_by, saved_by, left_by, left_by-IsValid,
}
use knxvault.Secrets.Store.Latest.{
  latest_non_destroyed-newest, latest_from-insert_ne, latest_from-delete_ne,
}
use knxvault.Secrets.Store.Put.{put_atomic_iff, get_of-In, In-left, IsNewest-left}

-- After a PutAtomic of a secret that is not marked as destroyed, in a well-formed map, and that
-- returned `v`, the secret with that version is the latest of its path, and is read by its version,
-- whatever the retention removed.
pub put_atomic-read :
    (s : Store) (sv : SecretVersion) (cas : Option ℕ) (max v : ℕ)
    → IsValid s
    → sv.destroyed ≡ false
    → (put_atomic s sv cas max).1 ≡ ok v
    → (get_latest (put_atomic s sv cas max).0 sv.path ≡ ok (record sv { version = v }))
      × (get_version (put_atomic s sv cas max).0 sv.path v ≡ ok (record sv { version = v }))
unfolding get_latest get_version
put_atomic-read s sv cas max v valid live h = elim (Put-of s sv cas max) [
  | refused e p ↦ absurd (cc (sym h ∙ ap (λ t. t.1) p))
  | stored _ f _ p ↦
      let left = ap (λ t. t.0) p in
      let number = ((put_atomic_iff s sv cas max v).0 h).2 in
      let newest =
        latest_non_destroyed-newest sv.path (key_of (stored_by s sv)) (stored_by s sv)
          (left_by s sv max) refl live (In-left s sv live valid max)
          (IsNewest-left s sv live valid max) in
      let found =
        get_of-In (left_by s sv max) (key_of (stored_by s sv), stored_by s sv)
          (left_by-IsValid s sv max f valid) (In-left s sv live valid max) in
      (rw (left, number, get_latest, newest), rw (left, number, get_version, found))
]

remove_first-lookup_ne :
    (path : Text) (n : ℕ) (xs : List ℕ) (s : Store) (k : SecretKey)
    → k.path ≢ path
    → get k (remove_first path n xs s) ≡ get k s
unfolding remove_first
remove_first-lookup_ne path zero xs s k h = refl
remove_first-lookup_ne path (suc n) [] s k h = refl
remove_first-lookup_ne path (suc n) (x ∷ xs) s k h =
    remove_first-lookup_ne path n xs _ k h
    ∙ lookup-delete_ne SecretKey-discrete (record { path = path; version = x }) k s
        (λ e. h (ap (λ t. t.path) (sym e)))

remove_first-latest_ne :
    (path : Text) (n : ℕ) (xs : List ℕ) (s : Store) (other : Text)
    → path ≢ other
    → latest_from other (remove_first path n xs s) none ≡ latest_from other s none
unfolding remove_first
remove_first-latest_ne path zero xs s other h = refl
remove_first-latest_ne path (suc n) [] s other h = refl
remove_first-latest_ne path (suc n) (x ∷ xs) s other h =
    remove_first-latest_ne path n xs _ other h
    ∙ latest_from-delete_ne other (record { path = path; version = x }) s none h

-- What a reader of another path sees of a map.
abbrev pub SameAt : Text → Store → Store → Type 0
SameAt path s t =
    ((version : ℕ) → get_version t path version ≡ get_version s path version)
    × (get_latest t path ≡ get_latest s path)

pub SameAt-of :
    (path : Text) (s t : Store)
    → ((k : SecretKey) → k.path ≡ path → get k t ≡ get k s)
    → latest_from path t none ≡ latest_from path s none
    → SameAt path s t
unfolding get_version get_latest
SameAt-of path s t h l = (
  λ version. rw (h (record { path = path; version = version }) refl, get_version),
  rw (l, get_latest),
)

trim-SameAt :
    (s : Store) (path other : Text) (max : ℕ)
    → other ≢ path
    → SameAt other s (trim_versions s path max)
unfolding trim_versions
trim-SameAt s path other max h = elim (Bool-cases (leb (length (live_versions path s)) max)) [
  | inl e ↦ rw e (SameAt-of other s s (λ k p. refl) refl)
  | inr e ↦ rw e (
      SameAt-of other s _
        (λ k p.
          remove_first-lookup_ne path _ (sort_ints (live_versions path s)) s k (λ q. h (sym p ∙ q)))
        (remove_first-latest_ne path _ (sort_ints (live_versions path s)) s other (λ q. h (sym q))))
]

saved-SameAt :
    (s : Store) (k : SecretKey) (sv : SecretVersion) (other : Text)
    → other ≢ k.path
    → SameAt other s (insert SecretKey-discrete k sv s)
saved-SameAt s k sv other h =
    SameAt-of other s _
      (λ j p.
        lookup-insert_ne SecretKey-discrete k j sv s (λ q. h (sym p ∙ sym (ap (λ t. t.path) q))))
      (latest_from-insert_ne other k sv s none (λ q. h (sym q)))

pub SameAt-trans :
    (path : Text) (s t u : Store) → SameAt path s t → SameAt path t u → SameAt path s u
SameAt-trans path s t u a b = (λ v. b.0 v ∙ a.0 v, b.1 ∙ a.1)

-- DestroyVersion changes nothing that can be read at another path, whether it succeeds or fails.
pub destroy_version-SameAt :
    (s : Store) (path : Text) (version : ℕ) (other : Text)
    → other ≢ path
    → SameAt other s (destroy_version s path version).0
unfolding destroy_version
destroy_version-SameAt s path version other h =
    let key : SecretKey = record { path = path; version = version } in
    elim (Option-cases (get key s)) [
      | inl e ↦ rw (e, destroy_version) (SameAt-of other s s (λ k q. refl) refl)
      | inr (sv, e) ↦ elim (Bool-cases sv.destroyed) [
        | inl f ↦ rw (e, f, destroy_version) (SameAt-of other s s (λ k q. refl) refl)
        | inr f ↦
            rw (e, f, destroy_version) (saved-SameAt s key (record sv { destroyed = true }) other h)
      ]
    ]

-- PutAtomic changes nothing that can be read at another path, whether it succeeds or fails.
pub put_atomic-SameAt :
    (s : Store) (sv : SecretVersion) (cas : Option ℕ) (max : ℕ) (other : Text)
    → other ≢ sv.path
    → SameAt other s (put_atomic s sv cas max).0
put_atomic-SameAt s sv cas max other h = elim (Put-of s sv cas max) [
  | refused e p ↦ rw p (SameAt-of other s s (λ k q. refl) refl)
  | stored _ f _ p ↦
      let saved = saved-SameAt s (key_of (stored_by s sv)) (stored_by s sv) other h in
      rw p (elim (Bool-cases (ltb 0 max)) [
        | inl e ↦ rw e (
            SameAt-trans other s (saved_by s sv) _ saved
              (trim-SameAt (saved_by s sv) sv.path other max h))
        | inr e ↦ rw e saved
      ])
]
