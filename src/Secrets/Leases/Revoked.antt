-- ===== src/Secrets/Leases/Revoked.antt =====
-- What Revoke does to the lease and to the others.
use knxvault.Prelude.{
  ℕ, ◌≡◌, ◌≢◌, inl, inr, refl, false, some, Text, Text-discrete, lookup, lookup-insert_self,
  lookup-insert_ne, arith, Option-cases,
}
use knxvault.Errors.{ok}
use knxvault.Secrets.Leases.{Lease, Leases, active, get, revoke}

-- A Revoke that succeeds leaves a lease that Get returns with the time of the revocation, that is
-- active at no time, and that is otherwise the lease that was stored. Every other lease is read as
-- before.
pub revoke-get :
    (s : Leases) (id : Text) (revoked_at : ℕ)
    → (revoke s id revoked_at).1 ≡ ok tt
    → ((old : Lease) × (get s id ≡ ok old)
        × (get (revoke s id revoked_at).0 id ≡ ok (record old { revoked_at = some revoked_at }))
        × ((now : ℕ) → active (record old { revoked_at = some revoked_at }) now ≡ false))
      × ((other : Text) → other ≢ id → get (revoke s id revoked_at).0 other ≡ get s other)
unfolding revoke get active
revoke-get s id revoked_at h = elim (Option-cases (lookup Text-discrete id s)) [
  | inl e ↦ ground arith
  | inr (old, e) ↦
      let changed : Lease = record old { revoked_at = some revoked_at } in
      (
        (
          old,
          ground arith,
          ground (arith, lookup-insert_self Text-discrete id changed s),
          λ now. refl,
        ),
        λ other ne. ground (arith, lookup-insert_ne Text-discrete id other changed s),
      )
]
