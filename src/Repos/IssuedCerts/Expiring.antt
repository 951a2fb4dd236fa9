-- ===== src/Repos/IssuedCerts/Expiring.antt =====
-- The certificates that ListExpiring gives: which, and in which order they are cut off.
use knxvault.Prelude.{ℕ, ◌+◌, ◌≤◌, ◌≡◌, ◌⊎◌, ◌↔◌, inl, inr, true, In, length, arith}
use knxvault.Repos.{Table, values, select, sort_by, cut, limit_or_default}
use knxvault.Repos.Sorted.{In-select, In-sort_by, sort_by-Ascending, ltb-IsOrder, cut-first}
use knxvault.Repos.IssuedCerts.{
  IssuedCertificate, expiring, ends_sooner, list_expiring, needs_renewal,
}

-- A certificate that is to be renewed by a time: stored, renewed automatically, not expiring later.
abbrev pub IsExpiring : Table IssuedCertificate → ℕ → IssuedCertificate → Type 0
IsExpiring t before c = In c (values t) × (c.auto_renew ≡ true) × (c.expires_at ≤ before)

expiring-select :
    (t : Table IssuedCertificate) (before : ℕ) (c : IssuedCertificate)
    → In c (select (expiring before) (values t)) ↔ IsExpiring t before c
unfolding expiring
expiring-select t before c =
    let (from, to) = In-select (expiring before) c (values t) in
    (λ i. ground arith, λ h. ground arith)

-- ListExpiring gives certificates that are to be renewed by the time, at most as many as the limit (100
-- where it is 0). A certificate that is to be renewed and is left out expires no sooner than those that
-- are given, and then the limit is reached. A given one needs renewal at every time that is the given
-- time less the grace, or later.
pub list_expiring-IsExpiring :
    (t : Table IssuedCertificate) (before limit : ℕ)
    → ((c : IssuedCertificate) → In c (list_expiring t before limit) → IsExpiring t before c)
      × (length (list_expiring t before limit) ≤ limit_or_default limit)
      × ((c : IssuedCertificate)
          → IsExpiring t before c
          → In c (list_expiring t before limit)
            ⊎ ((length (list_expiring t before limit) ≡ limit_or_default limit)
                × ((a : IssuedCertificate)
                    → In a (list_expiring t before limit)
                    → a.expires_at ≤ c.expires_at)))
      × ((c : IssuedCertificate) (now grace : ℕ)
          → In c (list_expiring t before limit)
          → before ≤ now + grace
          → needs_renewal c now grace ≡ true)
unfolding list_expiring needs_renewal
list_expiring-IsExpiring t before limit =
    let chosen = select (expiring before) (values t) in
    let sorted = sort_by ends_sooner chosen in
    let (inside, short, first) =
      cut-first ends_sooner (limit_or_default limit) sorted
        (sort_by-Ascending ends_sooner chosen (ltb-IsOrder (λ c. c.expires_at))) in
    let due : (c : IssuedCertificate)
        → In c (cut (limit_or_default limit) sorted)
        → IsExpiring t before c =
      λ c i. (expiring-select t before c).0 ((In-sort_by ends_sooner c chosen).0 (inside c i)) in
    (
      due,
      short,
      λ c h.
          elim (first c ((In-sort_by ends_sooner c chosen).1 ((expiring-select t before c).1 h))) [
            | inl i ↦ inl i
            | inr (n, e) ↦ inr (n, λ a i. ground (arith, e a i))
          ],
      λ c now grace i h. let (s, r, x) = due c i in ground arith,
    )
