-- ===== src/Secrets/Store/Retention.antt =====
-- The retention of PutAtomic: at most so many live versions stay at the path.
use knxvault.Prelude.{
  ℕ, zero, suc, ◌+◌, ◌-◌, ◌≤◌, ◌<◌, ◌≡◌, ◌≢◌, ◌⊎◌, inl, inr, refl, sym, ap, ◌∙◌, true, false, ◌&&◌,
  not, Option, none, List, [], ◌∷◌, Text, str_eq, lookup, delete, In, arith, Bool-cases, length,
  ltb, leb,
}
use knxvault.Errors.{ok}
use knxvault.Secrets.Store.{
  SecretVersion, SecretKey, SecretKey-discrete, Store, get, live_versions, insert_sorted, sort_ints,
  remove_first, trim_versions, put_atomic,
}
use knxvault.Secrets.Store.Valid.{IsValid, refused, stored, Put-of, saved_by, saved-IsValid}
use knxvault.Secrets.Store.Numbers.{length-sort_ints}

abbrev Distinct : List ℕ → Type 0
Distinct [] = Unit
Distinct (x ∷ xs) = (In x xs → ⊥) × Distinct xs

In-insert_sorted : (y x : ℕ) (xs : List ℕ) → In y (insert_sorted x xs) → (x ≡ y) ⊎ In y xs
unfolding insert_sorted
In-insert_sorted y x [] i = i
In-insert_sorted y x (z ∷ xs) i = ground (arith, In-insert_sorted y x xs)

insert_sorted-Distinct :
    (x : ℕ) (xs : List ℕ) → (In x xs → ⊥) → Distinct xs → Distinct (insert_sorted x xs)
unfolding insert_sorted
insert_sorted-Distinct x [] h d = (λ i. i, tt)
insert_sorted-Distinct x (z ∷ xs) h d = elim (Bool-cases (leb x z)) [
  | inl e ↦ rw e (h, d)
  | inr e ↦ rw e (
    λ i. elim (In-insert_sorted z x xs i) [ inl q ↦ h (inl (sym q)) | inr j ↦ d.0 j ],
    insert_sorted-Distinct x xs (λ i. h (inr i)) d.1,
  )
]

In-sort_ints : (y : ℕ) (xs : List ℕ) → In y (sort_ints xs) → In y xs
unfolding sort_ints
In-sort_ints y [] i = i
In-sort_ints y (x ∷ xs) i = elim (In-insert_sorted y x (sort_ints xs) i) [
  | inl q ↦ inl q
  | inr j ↦ inr (In-sort_ints y xs j)
]

sort_ints-Distinct : (xs : List ℕ) → Distinct xs → Distinct (sort_ints xs)
unfolding sort_ints
sort_ints-Distinct [] d = tt
sort_ints-Distinct (x ∷ xs) d =
    insert_sorted-Distinct x (sort_ints xs) (λ i. d.0 (In-sort_ints x xs i))
      (sort_ints-Distinct xs d.1)

In-live :
    (path : Text) (s : Store) (y : ℕ)
    → In y (live_versions path s)
    → get (record { path = path; version = y }) s ≢ none
unfolding live_versions lookup
In-live path [] y i = absurd i
In-live path ((k, w) ∷ s) y i = ground (arith, In-live path s y)

live_versions-Distinct : (path : Text) (s : Store) → IsValid s → Distinct (live_versions path s)
unfolding live_versions
live_versions-Distinct path [] v = tt
live_versions-Distinct path ((k, w) ∷ s) v =
    elim (Bool-cases (str_eq k.path path && not w.destroyed)) [
      | inl e ↦
          let p : k.path ≡ path = ground arith in
          rw e (λ i. In-live path s k.version i (rw (← p) v.2), live_versions-Distinct path s v.3)
      | inr e ↦ rw e (live_versions-Distinct path s v.3)
    ]

length-live-delete :
    (path : Text) (k : SecretKey) (s : Store)
    → length (live_versions path (delete SecretKey-discrete k s)) ≤ length (live_versions path s)
unfolding live_versions delete
length-live-delete path k [] = omega arith
length-live-delete path k ((j, w) ∷ s) = ground (arith, length-live-delete path k s)

length-live-delete_lt :
    (path : Text) (y : ℕ) (s : Store)
    → In y (live_versions path s)
    → length
        (live_versions path (delete SecretKey-discrete (record { path = path; version = y }) s))
      < length (live_versions path s)
unfolding live_versions delete
length-live-delete_lt path y [] i = absurd i
length-live-delete_lt path y ((j, w) ∷ s) i = ground (
  arith,
  length-live-delete_lt path y s,
  length-live-delete path (record { path = path; version = y }) s,
)

In-live-delete :
    (path : Text) (x y : ℕ) (s : Store)
    → x ≢ y
    → In y (live_versions path s)
    → In y (live_versions path (delete SecretKey-discrete (record { path = path; version = x }) s))
unfolding live_versions delete
In-live-delete path x y [] h i = i
In-live-delete path x y ((j, w) ∷ s) h i = ground (arith, In-live-delete path x y s)

abbrev AllLive : Text → Store → List ℕ → Type 0
AllLive path s [] = Unit
AllLive path s (x ∷ xs) = In x (live_versions path s) × AllLive path s xs

AllLive-delete :
    (path : Text) (x : ℕ) (s : Store) (xs : List ℕ)
    → (In x xs → ⊥)
    → AllLive path s xs
    → AllLive path (delete SecretKey-discrete (record { path = path; version = x }) s) xs
AllLive-delete path x s [] h a = tt
AllLive-delete path x s (y ∷ xs) h a = (
  In-live-delete path x y s (λ e. h (inl (sym e))) a.0,
  AllLive-delete path x s xs (λ i. h (inr i)) a.1,
)

-- Each removal of a live version makes one live version less.
remove_first-live :
    (path : Text) (n : ℕ) (xs : List ℕ) (s : Store)
    → n ≤ length xs
    → Distinct xs
    → AllLive path s xs
    → length (live_versions path (remove_first path n xs s)) + n ≤ length (live_versions path s)
unfolding remove_first
remove_first-live path zero xs s l d a = omega arith
remove_first-live path (suc n) [] s l d a = absurd (omega arith)
remove_first-live path (suc n) (x ∷ xs) s l d a = omega (
  arith,
  length-live-delete_lt path x s a.0,
  remove_first-live path n xs (delete SecretKey-discrete (record { path = path; version = x }) s)
      (omega arith) d.1 (AllLive-delete path x s xs d.0 a.1),
)

AllLive-of :
    (path : Text) (s : Store) (xs : List ℕ)
    → ((y : ℕ) → In y xs → In y (live_versions path s))
    → AllLive path s xs
AllLive-of path s [] h = tt
AllLive-of path s (x ∷ xs) h = (h x (inl refl), AllLive-of path s xs (λ y i. h y (inr i)))

trim_versions-live :
    (s : Store) (path : Text) (max : ℕ)
    → IsValid s
    → length (live_versions path (trim_versions s path max)) ≤ max
unfolding trim_versions
trim_versions-live s path max v =
    let versions = live_versions path s in
    elim (Bool-cases (leb (length versions) max)) [
      | inl e ↦ rw e (ground arith)
      | inr e ↦ rw e (
          omega (
            arith,
            remove_first-live path (length versions - max) (sort_ints versions) s
                (omega (arith, length-sort_ints versions))
                (sort_ints-Distinct versions (live_versions-Distinct path s v))
                (AllLive-of path s (sort_ints versions) (λ y i. In-sort_ints y versions i)),
            more e,
          ))
    ]
  where
    more : leb (length (live_versions path s)) max ≡ false → max < length (live_versions path s)
    more e = ground arith

-- After a PutAtomic that succeeds with a positive number of versions to keep, at most that many
-- versions at the path are not destroyed.
pub put_atomic-retention :
    (s : Store) (sv : SecretVersion) (cas : Option ℕ) (max v : ℕ)
    → IsValid s
    → 0 < max
    → (put_atomic s sv cas max).1 ≡ ok v
    → length (live_versions sv.path (put_atomic s sv cas max).0) ≤ max
put_atomic-retention s sv cas max v valid pos h = elim (Put-of s sv cas max) [
  | refused e p ↦ absurd (cc (sym h ∙ ap (λ t. t.1) p))
  | stored _ f _ p ↦
      let e : ltb 0 max ≡ true = ground arith in
      rw (p, e) (trim_versions-live (saved_by s sv) sv.path max (saved-IsValid s sv f valid))
]
