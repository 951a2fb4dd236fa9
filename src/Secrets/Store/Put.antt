-- ===== src/Secrets/Store/Put.antt =====
-- PutAtomic: when it succeeds, what can be read after it, and what it leaves alone.
use mathlib.Core.Path.{subst}
use knxvault.Prelude.{
  ℕ, ◌+◌, ◌-◌, ◌≤◌, ◌<◌, ◌≡◌, ◌↔◌, inl, inr, refl, sym, ap, ◌∙◌, true, false, ◌&&◌, not, Option,
  some, [], ◌∷◌, ◌++◌, Text, str_eq, lookup, In, insert_new, In-append_cases, In-append_right,
  length, length-append, arith, Bool-cases, ltb, leb,
}
use knxvault.Errors.{ok}
use knxvault.Secrets.Store.{
  SecretVersion, SecretKey, SecretKey-discrete, Store, get, key_of, validate, next_version,
  live_versions, sort_ints, remove_first, trim_versions, cas_holds, put_atomic,
}
use knxvault.Secrets.Store.Valid.{IsValid, stored_by, saved_by, left_by}
use knxvault.Secrets.Store.Numbers.{
  Entry, next_version-above, get-next_version, Below, sort_ints-Below, sort_ints-last,
  length-sort_ints, remove_first-append, In-remove_first, In-remove_first_kept,
}
use knxvault.Secrets.Store.Latest.{IsNewest}

-- PutAtomic returns a version exactly when the compare-and-set version holds and the secret with
-- the next version passes Validate; what it returns is the next version. That the version exists
-- already never happens.
pub put_atomic_iff :
    (s : Store) (sv : SecretVersion) (cas : Option ℕ) (max v : ℕ)
    → ((put_atomic s sv cas max).1 ≡ ok v) ↔ (
        (cas_holds s sv.path cas ≡ true)
        × (validate (stored_by s sv) ≡ true)
        × (v ≡ next_version s sv.path))
unfolding put_atomic
put_atomic_iff s sv cas max v =
    let fresh = get-next_version s sv.path in (λ h. ground arith, λ h. ground arith)

pub In-IsValid : (s : Store) (e : Entry) → IsValid s → In e s → e.0 ≡ key_of e.1
In-IsValid [] e v i = absurd i
In-IsValid ((k, w) ∷ s) e v (inl q) = subst (λ t. t.0 ≡ key_of t.1) q v.0
In-IsValid ((k, w) ∷ s) e v (inr i) = In-IsValid s e v.3 i

pub get_of-In : (s : Store) (e : Entry) → IsValid s → In e s → get e.0 s ≡ some e.1
unfolding lookup
get_of-In [] e v i = absurd i
get_of-In ((k, w) ∷ s) e v (inl q) = ground arith
get_of-In ((k, w) ∷ s) e v (inr i) = ground (arith, get_of-In s e v.3 i)

live_versions-Below :
    (path : Text) (s : Store) (b : ℕ)
    → ((e : Entry) → In e s → e.0.path ≡ path → e.0.version < b)
    → Below b (live_versions path s)
unfolding live_versions
live_versions-Below path [] b h = tt
live_versions-Below path ((k, w) ∷ s) b h =
    elim (Bool-cases (str_eq k.path path && not w.destroyed)) [
      | inl e ↦
          rw e
            (h (k, w) (inl refl) (ground arith), live_versions-Below path s b (λ x i. h x (inr i)))
      | inr e ↦ rw e (live_versions-Below path s b (λ x i. h x (inr i)))
    ]

live_versions-append :
    (path : Text) (s : Store) (k : SecretKey) (sv : SecretVersion)
    → k.path ≡ path
    → sv.destroyed ≡ false
    → live_versions path (s ++ (k, sv) ∷ []) ≡ live_versions path s ++ k.version ∷ []
unfolding live_versions
live_versions-append path [] k sv p d = ground arith
live_versions-append path ((j, w) ∷ s) k sv p d =
    ground (arith, live_versions-append path s k sv p d)

-- What a put leaves, when it succeeds.
module _ (s : Store) (sv : SecretVersion) (live : sv.destroyed ≡ false) (valid : IsValid s) where
  number : ℕ
  number = next_version s sv.path

  saved-append : saved_by s sv ≡ s ++ (key_of (stored_by s sv), stored_by s sv) ∷ []
  saved-append = insert_new SecretKey-discrete _ (stored_by s sv) s (get-next_version s sv.path)

  In-saved : In (key_of (stored_by s sv), stored_by s sv) (saved_by s sv)
  In-saved = rw saved-append (In-append_right _ s _ (inl refl))

  live-saved : live_versions sv.path (saved_by s sv) ≡ live_versions sv.path s ++ number ∷ []
  unfolding number
  live-saved = rw saved-append (live_versions-append sv.path s _ (stored_by s sv) refl live)

  live-Below : Below number (live_versions sv.path s)
  unfolding number
  live-Below = live_versions-Below sv.path s (next_version s sv.path) (λ e i p.
      let at_path : next_version s e.0.path ≡ next_version s sv.path = ap (next_version s) p in
      omega (arith, next_version-above s e i))

  -- The removals of the trim end before the version that was just stored.
  removals-kept :
      (n : ℕ)
      → n ≤ length (live_versions sv.path s)
      → In
          (key_of (stored_by s sv), stored_by s sv)
          (remove_first sv.path n
            (sort_ints (live_versions sv.path (saved_by s sv)))
            (saved_by s sv))
  unfolding number
  removals-kept n le =
      let older = sort_ints (live_versions sv.path s) in
      let fits : n ≤ length older = omega (arith, length-sort_ints (live_versions sv.path s)) in
      rw
        (
          live-saved,
          sort_ints-last number (live_versions sv.path s) live-Below,
          remove_first-append sv.path n older (number ∷ []) (saved_by s sv) fits,
        )
        (In-remove_first_kept sv.path n number older (saved_by s sv) _
          (sort_ints-Below number (live_versions sv.path s) live-Below) (omega arith) In-saved)

  length-live-saved :
      length (live_versions sv.path (saved_by s sv)) ≡ length (live_versions sv.path s) + 1
  length-live-saved =
      rw live-saved (length-append (live_versions sv.path s) (number ∷ []) ∙ omega arith)

  trim-kept :
      (max : ℕ)
      → 0 < max
      → In (key_of (stored_by s sv), stored_by s sv) (trim_versions (saved_by s sv) sv.path max)
  unfolding trim_versions
  trim-kept max pos = elim (Bool-cases (leb (length (live_versions sv.path (saved_by s sv))) max)) [
    | inl e ↦ rw e In-saved
    | inr e ↦ rw e (removals-kept _ (omega (arith, length-live-saved)))
  ]

  pub In-left : (max : ℕ) → In (key_of (stored_by s sv), stored_by s sv) (left_by s sv max)
  In-left max = elim (Bool-cases (ltb 0 max)) [
    | inl e ↦ rw e (trim-kept max (ground arith))
    | inr e ↦ rw e In-saved
  ]

  trim-In :
      (max : ℕ) (e : Entry)
      → In e (trim_versions (saved_by s sv) sv.path max)
      → In e (saved_by s sv)
  unfolding trim_versions
  trim-In max e i = elim (Bool-cases (leb (length (live_versions sv.path (saved_by s sv))) max)) [
    | inl f ↦ (rw f at i)
    | inr f ↦
        In-remove_first sv.path (length (live_versions sv.path (saved_by s sv)) - max)
          (sort_ints (live_versions sv.path (saved_by s sv))) (saved_by s sv) e (rw f at i)
  ]

  left-In : (max : ℕ) (e : Entry) → In e (left_by s sv max) → In e (saved_by s sv)
  left-In max e i = elim (Bool-cases (ltb 0 max)) [
    | inl f ↦ trim-In max e (rw f at i)
    | inr f ↦ (rw f at i)
  ]

  pub IsNewest-left : (max : ℕ) → IsNewest sv.path (stored_by s sv) (left_by s sv max)
  IsNewest-left max e i p = elim (In-append_cases e s _ (rw saved-append at (left-In max e i))) [
    | inl j ↦
        let same : e.0.version ≡ e.1.version = ap (λ k. k.version) (In-IsValid s e valid j) in
        let at_path : next_version s e.0.path ≡ next_version s sv.path = ap (next_version s) p in
        inl (omega (arith, next_version-above s e j))
    | inr (inl q) ↦ inr (sym (ap (λ t. t.1) q))
    | inr (inr f) ↦ absurd f
  ]
