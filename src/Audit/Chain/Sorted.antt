-- ===== src/Audit/Chain/Sorted.antt =====
-- Entries that are in order are listed as they are.
use knxvault.Prelude.{
  drop, take_all, ℕ, ◌≤◌, ◌<◌, ◌≡◌, inl, inr, refl, ap, true, none, List, [], ◌∷◌, ◌++◌, length, In,
  In-append_cases, arith,
}
use knxvault.Audit.Chain.{
  AuditEntry, AuditRepository, filtered, goes_before, place, sort_entries, list_entries,
}

-- In order of time, and of number where the times are the same.
abbrev pub IsInOrder : List AuditEntry → Type 0
IsInOrder [] = Unit
IsInOrder (x ∷ xs) =
    ((y : AuditEntry) → In y xs → (x.timestamp ≤ y.timestamp) × (x.id < y.id)) × IsInOrder xs

filtered_all : (es : List AuditEntry) → filtered none es ≡ es
unfolding filtered
filtered_all [] = refl
filtered_all (e ∷ es) = ap (◌∷◌ e) (filtered_all es)

place_first :
    (x : AuditEntry) (xs : List AuditEntry)
    → ((y : AuditEntry) → In y xs → (x.timestamp ≤ y.timestamp) × (x.id < y.id))
    → place true x xs ≡ x ∷ xs
unfolding place goes_before
place_first x [] h = refl
place_first x (y ∷ ys) h = ground (arith, h y (inl refl))

sort_entries-IsInOrder : (es : List AuditEntry) → IsInOrder es → sort_entries true es ≡ es
unfolding sort_entries
sort_entries-IsInOrder [] h = refl
sort_entries-IsInOrder (e ∷ es) h =
    ground (arith, sort_entries-IsInOrder es h.1, place_first e es h.0)

pub list_entries-IsInOrder :
    (r : AuditRepository) (n : ℕ)
    → IsInOrder r.entries
    → 0 < n
    → length r.entries ≤ n
    → list_entries r (record { since = none; order_asc = true; offset = 0; limit = n }) ≡ r.entries
unfolding list_entries drop
list_entries-IsInOrder r n h pos bound =
    ground (
      arith,
      filtered_all r.entries,
      sort_entries-IsInOrder r.entries h,
      take_all n r.entries bound,
    )

pub IsInOrder-append :
    (es : List AuditEntry) (e : AuditEntry)
    → IsInOrder es
    → ((x : AuditEntry) → In x es → (x.timestamp ≤ e.timestamp) × (x.id < e.id))
    → IsInOrder (es ++ e ∷ [])
IsInOrder-append [] e h a = (λ y i. absurd i, tt)
IsInOrder-append (x ∷ xs) e h a = (
  λ y i. elim (In-append_cases y xs (e ∷ []) i) [
    | inl j ↦ h.0 y j
    | inr j ↦ ground (arith, a x (inl refl))
  ],
  IsInOrder-append xs e h.1 (λ z i. a z (inr i)),
)
