-- ===== src/Repos/Sorted.antt =====
-- The lists that the repositories give out: what they hold, and their order.
use knxvault.Prelude.{
  take, In-take, length-take, length-take_full, zero, suc, ℕ, ◌≤◌, ◌≡◌, ◌⊎◌, ◌↔◌, inl, inr, Bool,
  true, false, List, [], ◌∷◌, In, length, arith, Bool-cases, ltb, refl, Text,
}
use knxvault.Secrets.Engine.Listing.{text_lt}
use knxvault.Repos.{select, place, sort_by, cut}

module _ {A : Type 0} where
  pub In-select :
      (keep : A → Bool) (a : A) (xs : List A) → In a (select keep xs) ↔ (In a xs × (keep a ≡ true))
  unfolding select
  In-select keep a [] = (λ i. absurd i, λ h. absurd h.0)
  In-select keep a (x ∷ xs) =
      let (from, to) = In-select keep a xs in (λ i. ground arith, λ h. ground arith)

module _ {A : Type 0} (less : A → A → Bool) where
  In-place : (x a : A) (ys : List A) → In a (place less x ys) ↔ ((x ≡ a) ⊎ In a ys)
  unfolding place
  In-place x a [] = (λ h. h, λ h. h)
  In-place x a (y ∷ ys) = let (from, to) = In-place x a ys in (λ i. ground arith, λ h. ground arith)

  pub In-sort_by : (a : A) (xs : List A) → In a (sort_by less xs) ↔ In a xs
  unfolding sort_by
  In-sort_by a [] = (λ h. h, λ h. h)
  In-sort_by a (x ∷ xs) =
      let (from, to) = In-sort_by a xs in
      let (from', to') = In-place x a (sort_by less xs) in (λ i. ground arith, λ h. ground arith)

  -- No record stands behind one that it has to stand before.
  abbrev pub Ascending : List A → Type 0
  Ascending [] = Unit
  Ascending (x ∷ xs) = ((y : A) → In y xs → less y x ≡ false) × Ascending xs

  -- A strict order in which what stands in neither order counts as equal.
  abbrev pub IsOrder : Type 0
  IsOrder =
      ((x y : A) → less x y ≡ true → less y x ≡ false)
      × ((x y z : A) → less z y ≡ false → less y x ≡ false → less z x ≡ false)

  place-Ascending : (x : A) (ys : List A) → IsOrder → Ascending ys → Ascending (place less x ys)
  unfolding place
  place-Ascending x [] o h = (λ y i. absurd i, tt)
  place-Ascending x (y ∷ ys) o h = elim (Bool-cases (less y x)) [
    | inl e ↦
        rw e (
          λ z i. ground (arith, (In-place x z ys).0 i, h.0 z, o.0 y x e),
          place-Ascending x ys o h.1,
        )
    | inr e ↦ rw e (λ z i. ground (arith, h.0 z, o.1 x y z), h)
  ]

  pub sort_by-Ascending : (xs : List A) → IsOrder → Ascending (sort_by less xs)
  unfolding sort_by
  sort_by-Ascending [] o = tt
  sort_by-Ascending (x ∷ xs) o = place-Ascending x (sort_by less xs) o (sort_by-Ascending xs o)

-- Records in the order of a number of theirs, and of a text of theirs.
pub ltb-IsOrder : {A : Type 0} (f : A → ℕ) → IsOrder {A = A} (λ a b. ltb (f a) (f b))
ltb-IsOrder f = (λ x y h. ground arith, λ x y z h g. ground arith)

text_lt-asym : (s t : Text) → text_lt s t ≡ true → text_lt t s ≡ false
unfolding text_lt
text_lt-asym s [] h = absurd (cc)
text_lt-asym [] (d ∷ t) h = refl
text_lt-asym (c ∷ s) (d ∷ t) h = ground (arith, text_lt-asym s t)

text_lt-neg_trans : (s t u : Text) → text_lt u t ≡ false → text_lt t s ≡ false → text_lt u s ≡ false
unfolding text_lt
text_lt-neg_trans [] t u h g = refl
text_lt-neg_trans (c ∷ s) [] u h g = absurd (cc)
text_lt-neg_trans (c ∷ s) (d ∷ t) [] h g = absurd (cc)
text_lt-neg_trans (c ∷ s) (d ∷ t) (e ∷ u) h g = ground (arith, text_lt-neg_trans s t u)

pub text_lt-IsOrder : {A : Type 0} (f : A → Text) → IsOrder {A = A} (λ a b. text_lt (f a) (f b))
text_lt-IsOrder f =
    (λ x y h. text_lt-asym (f x) (f y) h, λ x y z h g. text_lt-neg_trans (f x) (f y) (f z) h g)

module _ {A : Type 0} (less : A → A → Bool) where
  take-first :
      (n : ℕ) (xs : List A) (a : A)
      → Ascending less xs
      → In a xs
      → In a (take n xs) ⊎ ((b : A) → In b (take n xs) → less a b ≡ false)
  unfolding take
  take-first zero xs a h i = inr (λ b j. absurd j)
  take-first (suc n) [] a h i = absurd i
  take-first (suc n) (x ∷ xs) a h (inl e) = inl (inl e)
  take-first (suc n) (x ∷ xs) a h (inr i) = elim (take-first n xs a h.1 i) [
    | inl m ↦ inl (inr m)
    | inr m ↦ inr (λ b j. ground (arith, h.0 a i, m b))
  ]

  -- A list in order that is cut off at a limit.
  pub cut-first :
      (n : ℕ) (xs : List A)
      → Ascending less xs
      → ((a : A) → In a (cut n xs) → In a xs)
        × (length (cut n xs) ≤ n)
        × ((a : A)
            → In a xs
            → In a (cut n xs)
              ⊎ ((length (cut n xs) ≡ n) × ((b : A) → In b (cut n xs) → less a b ≡ false)))
  unfolding cut
  cut-first n xs h = elim (Bool-cases (ltb n (length xs))) [
    | inr e ↦ rw e (λ a i. i, ground arith, λ a i. inl i)
    | inl e ↦ rw e (
      λ a i. In-take n a xs i,
      length-take n xs,
      λ a i. elim (take-first n xs a h i) [
        | inl m ↦ inl m
        | inr m ↦ inr (length-take_full n xs (ground arith), m)
      ],
    )
  ]
