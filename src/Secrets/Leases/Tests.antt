-- ===== src/Secrets/Leases/Tests.antt =====
-- Tests of the leases of one role.
use knxvault.Prelude.{
  ℕ, ◌*◌, ◌≤◌, ◌<◌, ◌≡◌, ◌⊎◌, refl, true, none, some, [], ◌∷◌, Text, codes, Text-discrete, lookup,
  In, length,
}
use knxvault.Errors.{ok}
use knxvault.Secrets.Ttl.{second}
use knxvault.Secrets.Tuning.{
  RoleLimits, LeaseTuning, tuning_from_role, issue, exceeds_max, normalize_lease_tuning,
  resolve_issue_ttl, lease_warnings, expires_in,
}
use knxvault.Secrets.Tuning.Bounds.{wanted_of, most_of, resolve_issue_ttl-tuning_from_role}
use knxvault.Secrets.Leases.{
  Lease, Leases, active, list_expired, count_active, revoke, check_max_leases,
}
use knxvault.Secrets.Leases.Due.{IsDue, list_expired-IsDue}

abbrev limits : RoleLimits
limits = record {
  ttl_seconds = 60;
  default_ttl = 0;
  max_ttl = 90;
  period = 0;
  renewable = true;
  max_leases = 3;
}

abbrev tuning : LeaseTuning
tuning = record { default_ttl = 60; max_ttl = 90; period = 0; renewable = true; max_leases = 3 }

resolve_issue_ttl-tuning_from_role_example :
    (1 ≤ wanted_of limits 80)
    × (wanted_of limits 80 ≤ most_of limits
        → resolve_issue_ttl (tuning_from_role (some limits)) 80 ≡ issue (wanted_of limits 80))
    × (most_of limits < wanted_of limits 80
        → resolve_issue_ttl (tuning_from_role (some limits)) 80
          ≡ exceeds_max (wanted_of limits 80) (most_of limits))
    × (resolve_issue_ttl (tuning_from_role (some (normalize_lease_tuning limits))) 80
        ≡ resolve_issue_ttl (tuning_from_role (some limits)) 80)
resolve_issue_ttl-tuning_from_role_example = resolve_issue_ttl-tuning_from_role limits 80

lease_warnings_test : lease_warnings 0 (5 * second) 60 ≡ expires_in (5 * second)
unfolding lease_warnings
lease_warnings_test = refl

abbrev lease : Text → ℕ → Lease
lease id expires_at = record {
  id = id;
  path = codes "p";
  role_name = codes "r";
  engine = codes "db";
  ttl_seconds = 60;
  created_at = 1;
  expires_at = expires_at;
  revoked_at = none;
  renewable = true;
  token_id = [];
  metadata = [];
}

abbrev two : Leases
two = (codes "a", lease (codes "a") 50) ∷ (codes "b", lease (codes "b") 20) ∷ []

list_expired_test : list_expired two 60 1 ≡ lease (codes "b") 20 ∷ []
unfolding list_expired
list_expired_test = refl

list_expired-IsDue_example :
    ((l : Lease) → In l (list_expired two 60 1) → IsDue two 60 l)
    × (length (list_expired two 60 1) ≤ 1)
    × ((l : Lease)
        → IsDue two 60 l
        → In l (list_expired two 60 1)
          ⊎ ((length (list_expired two 60 1) ≡ 1)
              × ((a : Lease) → In a (list_expired two 60 1) → a.expires_at ≤ l.expires_at)))
list_expired-IsDue_example = list_expired-IsDue two 60 1

revoke_test : (revoke two (codes "b") 10).1 ≡ ok tt
unfolding revoke lookup Text-discrete
revoke_test = refl

quota_test : check_max_leases (some two) (codes "db") (codes "r") tuning 10 ≡ ok tt
unfolding check_max_leases Text-discrete
quota_test = refl

count_active_test : count_active two 30 ≡ 1
unfolding count_active active
count_active_test = refl
