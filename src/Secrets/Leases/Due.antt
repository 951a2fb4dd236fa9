-- ===== src/Secrets/Leases/Due.antt =====
-- The leases that ListExpired puts out: due, and the earliest first where it cuts off.
use knxvault.Prelude.{
  take, In-take, length-take, length-take_full, ℕ, zero, suc, ◌≤◌, ◌≡◌, ◌⊎◌, ◌↔◌, inl, inr, Bool,
  false, List, [], ◌∷◌, In, length, arith, Bool-cases, ltb, ◌==◌, if◌then◌else◌,
}
use knxvault.Secrets.Leases.{values, Lease, Leases, is_revoked, place, sort_by, due, list_expired}

-- A lease that is to be revoked at a time: stored, not yet revoked, and not expiring later.
abbrev pub IsDue : Leases → ℕ → Lease → Type 0
IsDue s before l = In l (values s) × (is_revoked l.revoked_at ≡ false) × (l.expires_at ≤ before)

due-IsDue : (before : ℕ) (s : Leases) (l : Lease) → In l (due before s) ↔ IsDue s before l
unfolding due
due-IsDue before [] l = (λ i. absurd i, λ h. absurd h.0)
due-IsDue before ((k, x) ∷ s) l =
    let (from, to) = due-IsDue before s l in (λ i. ground arith, λ h. ground arith)

module _ (less : Lease → Lease → Bool) where
  In-place : (x l : Lease) (ys : List Lease) → In l (place less x ys) ↔ ((x ≡ l) ⊎ In l ys)
  unfolding place
  In-place x l [] = (λ h. h, λ h. h)
  In-place x l (y ∷ ys) = let (from, to) = In-place x l ys in (λ i. ground arith, λ h. ground arith)

  In-sort_by : (l : Lease) (xs : List Lease) → In l (sort_by less xs) ↔ In l xs
  unfolding sort_by
  In-sort_by l [] = (λ h. h, λ h. h)
  In-sort_by l (x ∷ xs) =
      let (from, to) = In-sort_by l xs in
      let (from', to') = In-place x l (sort_by less xs) in (λ i. ground arith, λ h. ground arith)

-- Earliest first.
abbrev Ordered : List Lease → Type 0
Ordered [] = Unit
Ordered (x ∷ xs) = ((y : Lease) → In y xs → x.expires_at ≤ y.expires_at) × Ordered xs

abbrev sooner : Lease → Lease → Bool
sooner a b = ltb a.expires_at b.expires_at

place-Ordered : (x : Lease) (ys : List Lease) → Ordered ys → Ordered (place sooner x ys)
unfolding place
place-Ordered x [] h = (λ y i. absurd i, tt)
place-Ordered x (y ∷ ys) h = elim (Bool-cases (sooner y x)) [
  | inl e ↦
      rw e (λ z i. ground (arith, (In-place sooner x z ys).0 i, h.0 z), place-Ordered x ys h.1)
  | inr e ↦ rw e (λ z i. ground (arith, h.0 z), h)
]

sort_by-Ordered : (xs : List Lease) → Ordered (sort_by sooner xs)
unfolding sort_by
sort_by-Ordered [] = tt
sort_by-Ordered (x ∷ xs) = place-Ordered x (sort_by sooner xs) (sort_by-Ordered xs)

take-first :
    (n : ℕ) (xs : List Lease) (l : Lease)
    → Ordered xs
    → In l xs
    → In l (take n xs) ⊎ ((a : Lease) → In a (take n xs) → a.expires_at ≤ l.expires_at)
unfolding take
take-first zero xs l h i = inr (λ a j. absurd j)
take-first (suc n) [] l h i = absurd i
take-first (suc n) (x ∷ xs) l h (inl e) = inl (inl e)
take-first (suc n) (x ∷ xs) l h (inr i) = elim (take-first n xs l h.1 i) [
  | inl m ↦ inl (inr m)
  | inr m ↦ inr (λ a j. ground (arith, h.0 l i, m a))
]

-- The list cut off at a limit.
abbrev cut : ℕ → List Lease → List Lease
cut n xs = if ltb n (length xs) then take n xs else xs

cut-first :
    (n : ℕ) (xs : List Lease)
    → Ordered xs
    → ((l : Lease) → In l (cut n xs) → In l xs)
      × (length (cut n xs) ≤ n)
      × ((l : Lease)
          → In l xs
          → In l (cut n xs)
            ⊎ ((length (cut n xs) ≡ n)
                × ((a : Lease) → In a (cut n xs) → a.expires_at ≤ l.expires_at)))
cut-first n xs o = elim (Bool-cases (ltb n (length xs))) [
  | inl e ↦
      let full = length-take_full n xs (ground arith) in
      rw e (
        λ l i. In-take n l xs i,
        length-take n xs,
        λ l i. elim (take-first n xs l o i) [ inl m ↦ inl m | inr m ↦ inr (full, m) ],
      )
  | inr e ↦ rw e (λ l i. i, ground arith, λ l i. inl i)
]

-- ListExpired returns leases that are due, at most as many as the limit (100 where none is given).
-- A due lease is among them, or else the list is full and no lease of the list expires later.
pub list_expired-IsDue :
    (s : Leases) (before limit : ℕ)
    → let out = list_expired s before limit in
      let limit' = if limit == 0 then 100 else limit in
      ((l : Lease) → In l out → IsDue s before l)
      × (length out ≤ limit')
      × ((l : Lease)
          → IsDue s before l
          → In l out
            ⊎ ((length out ≡ limit') × ((a : Lease) → In a out → a.expires_at ≤ l.expires_at)))
unfolding list_expired
list_expired-IsDue s before limit =
    let limit' = if limit == 0 then 100 else limit in
    let out = sort_by sooner (due before s) in
    let (inner, bound, first) = cut-first limit' out (sort_by-Ordered (due before s)) in
    let listed : (l : Lease) → In l out ↔ IsDue s before l = λ l. (
      λ i. (due-IsDue before s l).0 ((In-sort_by sooner l (due before s)).0 i),
      λ h. (In-sort_by sooner l (due before s)).1 ((due-IsDue before s l).1 h),
    ) in
    (λ l i. (listed l).0 (inner l i), bound, λ l h. first l ((listed l).1 h))
