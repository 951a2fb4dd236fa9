-- ===== src/Secrets/Tuning/Bounds.antt =====
-- The bounds that a role puts on the lifetimes it gives.
use knxvault.Prelude.{
  ℕ, ◌+◌, ◌*◌, ◌%◌, ◌≤◌, ◌<◌, ◌≡◌, ap, some, List, [], ◌∷◌, arith, ltb, if◌then◌else◌,
}
use knxvault.Secrets.Ttl.{word, sign, second}
use knxvault.Secrets.Tuning.{
  RoleLimits, LeaseTuning, tuning_from_role, nanoseconds, signed_lt, whole_seconds, issue,
  exceeds_max, resolve_issue_ttl, resolve_renew_ttl, normalize_lease_tuning,
}

-- The first positive number of a list, or 0.
abbrev pub first_positive : List ℕ → ℕ
first_positive [] = 0
first_positive (n ∷ ns) = if ltb 0 n then n else first_positive ns

-- The lifetime that a role gives: its period, else what is asked for, else its default, else its TTL,
-- else an hour.
abbrev pub wanted_of : RoleLimits → ℕ → ℕ
wanted_of r requested =
    first_positive (r.period ∷ requested ∷ r.default_ttl ∷ r.ttl_seconds ∷ 3600 ∷ [])

-- The most that a role allows: its maximum, else its default, else its TTL, else an hour.
abbrev pub most_of : RoleLimits → ℕ
most_of r = first_positive (r.max_ttl ∷ r.default_ttl ∷ r.ttl_seconds ∷ 3600 ∷ [])

nanoseconds-exact : (n : ℕ) → n * second < sign → nanoseconds n ≡ n * second
nanoseconds-exact n h = omega arith

signed_lt-exact : (a b : ℕ) → a < sign → b < sign → signed_lt a b ≡ ltb a b
signed_lt-exact a b h k = ground (arith, low a h, low b k)
  where
    low : (n : ℕ) → n < sign → (n + sign) % word ≡ n + sign
    low n h = omega arith

whole_seconds-exact : (n : ℕ) → n * second < sign → whole_seconds (n * second) ≡ n
whole_seconds-exact n h = ground arith

ltb-scaled : (a b : ℕ) → ltb (a * second) (b * second) ≡ ltb a b
ltb-scaled a b = ground arith

-- Where the durations fit in 63 bits, a renewal is for what is asked (the period, else the request,
-- else the present lifetime), cut off at the maximum of the role.
pub resolve_renew_ttl-min :
    (t : LeaseTuning) (requested current asked : ℕ)
    → asked ≡ (if ltb 0 t.period then t.period else if ltb 0 requested then requested else current)
    → t.max_ttl * second < sign
    → asked * second < sign
    → resolve_renew_ttl t requested current ≡ (if ltb t.max_ttl asked then t.max_ttl else asked)
unfolding resolve_renew_ttl
resolve_renew_ttl-min t requested current asked e m a = ground (
  arith,
  nanoseconds-exact t.max_ttl m,
  nanoseconds-exact asked a,
  signed_lt-exact (t.max_ttl * second) (asked * second) m a,
  whole_seconds-exact t.max_ttl m,
  ltb-scaled t.max_ttl asked,
)

-- A role whose limits were normalised has the tuning it had before.
pub normalize_lease_tuning-tuning :
    (r : RoleLimits)
    → tuning_from_role (some (normalize_lease_tuning r)) ≡ tuning_from_role (some r)
unfolding tuning_from_role normalize_lease_tuning
normalize_lease_tuning-tuning r = ground arith

-- With the tuning of a role, ResolveIssueTTL gives the first positive one of the period, the request,
-- the default, the TTL of the role and an hour, and refuses exactly where that is over the first
-- positive one of the maximum, the default, the TTL and an hour; it never refuses as not positive.
-- A role whose limits NormalizeDatabaseLeaseTuning normalised gives the same.
pub resolve_issue_ttl-tuning_from_role :
    (r : RoleLimits) (requested : ℕ)
    → (1 ≤ wanted_of r requested)
      × (wanted_of r requested ≤ most_of r
          → resolve_issue_ttl (tuning_from_role (some r)) requested ≡ issue (wanted_of r requested))
      × (most_of r < wanted_of r requested
          → resolve_issue_ttl (tuning_from_role (some r)) requested
            ≡ exceeds_max (wanted_of r requested) (most_of r))
      × (resolve_issue_ttl (tuning_from_role (some (normalize_lease_tuning r))) requested
          ≡ resolve_issue_ttl (tuning_from_role (some r)) requested)
unfolding tuning_from_role resolve_issue_ttl
resolve_issue_ttl-tuning_from_role r requested = (
  ground arith,
  λ h. ground arith,
  λ h. ground arith,
  ap (λ t. resolve_issue_ttl t requested) (normalize_lease_tuning-tuning r),
)
