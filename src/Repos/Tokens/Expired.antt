-- ===== src/Repos/Tokens/Expired.antt =====
-- The tokens that ListExpired gives, and what Revoke does to a token.
use knxvault.Prelude.{
  ℕ, ◌≤◌, ◌<◌, ◌≡◌, ◌≢◌, ◌⊎◌, ◌↔◌, inl, inr, refl, Bool, false, In, length, Text, Text-discrete,
  lookup, lookup-insert_self, lookup-insert_ne, arith, ltb, Option-cases,
}
use knxvault.Errors.{ok}
use knxvault.Repos.{Table, values, select, sort_by, limit_or_default, find, modify}
use knxvault.Repos.Sorted.{In-select, In-sort_by, sort_by-Ascending, ltb-IsOrder, cut-first}
use knxvault.Repos.Tokens.{ClientToken, active, expired, list_expired, revoked_at, revoke, get}

-- A token that has run out: stored, not revoked, and expiring before the time.
abbrev pub HasExpired : Table ClientToken → ℕ → ClientToken → Type 0
HasExpired t before c = In c (values t) × (c.revoked ≡ false) × (c.expires_at < before)

expired-select :
    (t : Table ClientToken) (before : ℕ) (c : ClientToken)
    → In c (select (expired before) (values t)) ↔ HasExpired t before c
unfolding expired
expired-select t before c =
    let (from, to) = In-select (expired before) c (values t) in
    (λ i. ground arith, λ h. ground arith)

-- ListExpired gives tokens that have run out, at most as many as the limit (100 where it is 0), and
-- a token that has run out and is left out expires no sooner than those that are given. No given token is
-- active at the time.
pub list_expired-HasExpired :
    (t : Table ClientToken) (before limit : ℕ)
    → ((c : ClientToken)
        → In c (list_expired t before limit)
        → HasExpired t before c × (active c before ≡ false))
      × (length (list_expired t before limit) ≤ limit_or_default limit)
      × ((c : ClientToken)
          → HasExpired t before c
          → In c (list_expired t before limit)
            ⊎ ((length (list_expired t before limit) ≡ limit_or_default limit)
                × ((a : ClientToken)
                    → In a (list_expired t before limit)
                    → a.expires_at ≤ c.expires_at)))
unfolding list_expired active
list_expired-HasExpired t before limit =
    let sooner : ClientToken → ClientToken → Bool = λ a b. ltb a.expires_at b.expires_at in
    let chosen = select (expired before) (values t) in
    let sorted = sort_by sooner chosen in
    let (inside, short, first) =
      cut-first sooner (limit_or_default limit) sorted
        (sort_by-Ascending sooner chosen (ltb-IsOrder (λ c. c.expires_at))) in
    (
      λ c i.
          let h = (expired-select t before c).0 ((In-sort_by sooner c chosen).0 (inside c i)) in
          (h, ground arith),
      short,
      λ c h. elim (first c ((In-sort_by sooner c chosen).1 ((expired-select t before c).1 h))) [
        | inl i ↦ inl i
        | inr (n, e) ↦ inr (n, λ a i. ground (arith, e a i))
      ],
    )

-- A Revoke that succeeds leaves a token that Get returns revoked, expiring at the time of the
-- revocation, and active at no time; every other token is read as before.
pub revoke-get_token :
    (t : Table ClientToken) (id : Text) (time : ℕ)
    → (revoke t id time).1 ≡ ok tt
    → ((old : ClientToken) × (get t id ≡ ok old)
        × (get (revoke t id time).0 id ≡ ok (revoked_at time old))
        × ((now : ℕ) → active (revoked_at time old) now ≡ false))
      × ((other : Text) → other ≢ id → get (revoke t id time).0 other ≡ get t other)
unfolding revoke modify get find active
revoke-get_token t id time h = elim (Option-cases (lookup Text-discrete id t)) [
  | inl e ↦ ground arith
  | inr (old, e) ↦ (
    (
      old,
      ground arith,
      ground (arith, lookup-insert_self Text-discrete id (revoked_at time old) t),
      λ now. refl,
    ),
    λ other ne. ground (arith, lookup-insert_ne Text-discrete id other (revoked_at time old) t),
  )
]
