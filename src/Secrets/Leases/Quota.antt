-- ===== src/Secrets/Leases/Quota.antt =====
-- The quota of leases of a role: a lease that is saved after CheckMaxLeases passed keeps to it.
use knxvault.Prelude.{
  ℕ, suc, ◌≤◌, ◌<◌, ◌≡◌, refl, Bool, some, List, [], ◌∷◌, Text, Text-discrete, insert, arith,
}
use knxvault.Errors.{ok}
use knxvault.Secrets.Tuning.{LeaseTuning}
use knxvault.Secrets.Leases.{
  Lease, Leases, save, values, place, sort_by, list_leases, count_for, count_active_for_role,
  check_max_leases,
}

module _ (engine role : Text) (now : ℕ) where
  count_for-place :
      (less : Lease → Lease → Bool) (x : Lease) (ys : List Lease)
      → count_for engine role now (place less x ys) ≡ count_for engine role now (x ∷ ys)
  unfolding place count_for
  count_for-place less x [] = refl
  count_for-place less x (y ∷ ys) = ground (arith, count_for-place less x ys)

  count_for-sort_by :
      (less : Lease → Lease → Bool) (xs : List Lease)
      → count_for engine role now (sort_by less xs) ≡ count_for engine role now xs
  unfolding sort_by count_for
  count_for-sort_by less [] = refl
  count_for-sort_by less (x ∷ xs) =
      ground (arith, count_for-place less x (sort_by less xs), count_for-sort_by less xs)

  -- The count does not depend on the order.
  count_active_for_role-values :
      (s : Leases)
      → count_active_for_role (some s) engine role now ≡ count_for engine role now (values s)
  unfolding count_active_for_role list_leases
  count_active_for_role-values s = count_for-sort_by _ (values s)

  count_for-insert :
      (s : Leases) (k : Text) (l : Lease)
      → count_for engine role now (values (insert Text-discrete k l s))
        ≤ suc (count_for engine role now (values s))
  unfolding insert count_for
  count_for-insert [] k l = ground arith
  count_for-insert ((j, x) ∷ s) k l = ground (arith, count_for-insert s k l)

-- A lease saved after CheckMaxLeases passed, for a role with a positive quota, leaves at most that
-- many active leases of the role, whatever the lease replaces.
pub check_max_leases-save :
    (s : Leases) (l : Lease) (engine role : Text) (tuning : LeaseTuning) (now : ℕ)
    → 0 < tuning.max_leases
    → check_max_leases (some s) engine role tuning now ≡ ok tt
    → count_active_for_role (some (save s l).0) engine role now ≤ tuning.max_leases
unfolding check_max_leases save
check_max_leases-save s l engine role tuning now pos h = ground (
  arith,
  count_active_for_role-values engine role now s,
  count_active_for_role-values engine role now (insert Text-discrete l.id l s),
  count_for-insert engine role now s l.id l,
)
