-- ===== src/Secrets/Leases.antt =====
-- internal/domain/secrets/lease.go, the repository of internal/repository/memory/lease_repository.go
-- and internal/engine/secrets/leaseutil. Times are nanoseconds since the zero time, which is 0. The
-- list stands for the map, in the order in which a range visits it.
use knxvault.Prelude.{
  is_empty, take, ℕ, suc, Bool, true, false, ◌&&◌, not, Option, none, some, List, [], ◌∷◌, Text,
  codes, str_eq, Text-discrete, lookup, insert, length, ltb, leb, ◌==◌, if◌then◌else◌,
}
use knxvault.Errors.{Result, ok, fail, validation, forbidden, not_found}
use knxvault.Secrets.Engine.Listing.{text_lt}
use knxvault.Secrets.Tuning.{LeaseTuning}
pub mod Due
pub mod Quota
pub mod Revoked
pub mod Tests

-- Lease. A lifetime that is not positive stands as 0.
pub record Lease : Type 0 where
  pub id : Text
  pub path : Text
  pub role_name : Text
  pub engine : Text
  pub ttl_seconds : ℕ
  pub created_at : ℕ
  pub expires_at : ℕ
  pub revoked_at : Option ℕ
  pub renewable : Bool
  pub token_id : Text
  pub metadata : List (Text × Text)

-- Lease.Validate, as the test that passes.
unfoldable pub validate : Lease → Bool
validate l =
    not (is_empty l.id)
    && (not (is_empty l.path)
        && (not (is_empty l.role_name)
            && (not (is_empty l.engine) && (not (l.ttl_seconds == 0) && not (l.expires_at == 0)))))

abbrev pub is_revoked : Option ℕ → Bool
is_revoked none = false
is_revoked (some t) = true

-- Lease.Active
unfoldable pub active : Lease → ℕ → Bool
active l now = if is_revoked l.revoked_at then false else ltb now l.expires_at

abbrev pub Leases : Type 0
Leases = List (Text × Lease)

-- Save
unfoldable pub save : Leases → Lease → Leases × Result (Unit {0})
save s lease =
    if not (validate lease)
    then (s, fail validation (codes "invalid lease"))
    else (insert Text-discrete lease.id lease s, ok tt)

-- Get
unfoldable pub get : Leases → Text → Result Lease
get s id = elim (lookup Text-discrete id s) [
  | none ↦ fail not_found (codes "lease not found")
  | some lease ↦ ok lease
]

-- sort.Slice by a comparison.
unfoldable pub place : (Lease → Lease → Bool) → Lease → List Lease → List Lease
place less x [] = x ∷ []
place less x (y ∷ ys) = if less y x then y ∷ place less x ys else x ∷ y ∷ ys

unfoldable pub sort_by : (Lease → Lease → Bool) → List Lease → List Lease
unfolding place
sort_by less [] = []
sort_by less (x ∷ xs) = place less x (sort_by less xs)

abbrev pub values : Leases → List Lease
values [] = []
values ((_, lease) ∷ s) = lease ∷ values s

-- List
unfoldable pub list_leases : Leases → List Lease
unfolding sort_by text_lt
list_leases s = sort_by (λ a b. text_lt a.id b.id) (values s)

-- The loop of ListExpired.
unfoldable pub due : ℕ → Leases → List Lease
due before [] = []
due before ((_, lease) ∷ s) =
    let rest = due before s in
    if is_revoked lease.revoked_at
    then rest
    else if ltb before lease.expires_at
    then rest
    else lease ∷ rest

-- ListExpired
unfoldable pub list_expired : Leases → ℕ → ℕ → List Lease
unfolding due sort_by take
list_expired s before limit =
    let limit' = if limit == 0 then 100 else limit in
    let out = sort_by (λ a b. ltb a.expires_at b.expires_at) (due before s) in
    if ltb limit' (length out) then take limit' out else out

-- CountActive
unfoldable pub count_active : Leases → ℕ → ℕ
count_active [] now = 0
count_active ((_, lease) ∷ s) now =
    let rest = count_active s now in if active lease now then suc rest else rest

-- Revoke
unfoldable pub revoke : Leases → Text → ℕ → Leases × Result (Unit {0})
revoke s id revoked_at = elim (lookup Text-discrete id s) [
  | none ↦ (s, fail not_found (codes "lease not found"))
  | some lease ↦ (insert Text-discrete id (record lease { revoked_at = some revoked_at }) s, ok tt)
]

-- The test in the loop of CountActiveLeasesForRole.
unfoldable pub counts_for : Text → Text → ℕ → Lease → Bool
unfolding active
counts_for engine role now l = str_eq l.engine engine && (str_eq l.role_name role && active l now)

unfoldable pub count_for : Text → Text → ℕ → List Lease → ℕ
unfolding counts_for
count_for engine role now [] = 0
count_for engine role now (l ∷ ls) =
    let rest = count_for engine role now ls in
    if counts_for engine role now l then suc rest else rest

-- CountActiveLeasesForRole; `none` is a repository that is not there.
unfoldable pub count_active_for_role : Option Leases → Text → Text → ℕ → ℕ
unfolding count_for list_leases
count_active_for_role none engine role now = 0
count_active_for_role (some s) engine role now = count_for engine role now (list_leases s)

-- CheckMaxLeases
unfoldable pub check_max_leases : Option Leases → Text → Text → LeaseTuning → ℕ → Result (Unit {0})
unfolding count_active_for_role
check_max_leases leases engine role tuning now =
    if tuning.max_leases == 0
    then ok tt
    else if leb tuning.max_leases (count_active_for_role leases engine role now)
    then fail forbidden (codes "max_leases quota exceeded for role")
    else ok tt

-- Clear
unfoldable pub clear : Leases → Leases
clear s = []
