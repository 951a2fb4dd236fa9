-- ===== src/Secrets/Tuning.antt =====
-- internal/domain/secrets/lease_tuning.go: the lifetimes of the leases of a role. A whole number of
-- the code that is not positive stands as 0: the code treats all of these alike.
use knxvault.Prelude.{
  ℕ, ◌+◌, ◌-◌, ◌*◌, ◌/◌, ◌%◌, Bool, false, ◌&&◌, Option, none, some, ltb, leb, ◌==◌, if◌then◌else◌,
}
use knxvault.Secrets.Ttl.{word, sign, second, is_positive}
pub mod Bounds

-- The fields of DatabaseRole and SSHRole that concern leases.
pub record RoleLimits : Type 0 where
  pub ttl_seconds : ℕ
  pub default_ttl : ℕ
  pub max_ttl : ℕ
  pub period : ℕ
  pub renewable : Bool
  pub max_leases : ℕ

-- LeaseTuning
pub record LeaseTuning : Type 0 where
  pub default_ttl : ℕ
  pub max_ttl : ℕ
  pub period : ℕ
  pub renewable : Bool
  pub max_leases : ℕ

-- The first number, or the second where the first is not positive.
abbrev pub or_default : ℕ → ℕ → ℕ
or_default a b = if a == 0 then b else a

-- LeaseTuningFromDatabaseRole and LeaseTuningFromSSHRole, with each assignment in turn.
unfoldable pub tuning_from_role : Option RoleLimits → LeaseTuning
tuning_from_role none = record {
  default_ttl = 0;
  max_ttl = 0;
  period = 0;
  renewable = false;
  max_leases = 0;
}
tuning_from_role (some r) =
    let default1 = or_default r.default_ttl r.ttl_seconds in
    let max1 = or_default r.max_ttl default1 in
    let default2 = or_default default1 3600 in
    let max2 = or_default max1 default2 in
    record {
      default_ttl = default2;
      max_ttl = max2;
      period = r.period;
      renewable = r.renewable;
      max_leases = r.max_leases;
    }

pub data IssueTtl : Type 0 where
  issue not_positive : ℕ → IssueTtl
  exceeds_max : ℕ → ℕ → IssueTtl

-- The lifetime that is asked for: the period of the role, else the request, else the default.
abbrev pub wanted : LeaseTuning → ℕ → ℕ
wanted t requested =
    let ttl = if ltb 0 requested then requested else t.default_ttl in
    if ltb 0 t.period then t.period else ttl

-- ResolveIssueTTL
unfoldable pub resolve_issue_ttl : LeaseTuning → ℕ → IssueTtl
resolve_issue_ttl t requested =
    let ttl = wanted t requested in
    if ttl == 0
    then not_positive ttl
    else if ltb t.max_ttl ttl
    then exceeds_max ttl t.max_ttl
    else issue ttl

-- time.Duration(seconds) * time.Second, which wraps around.
abbrev pub nanoseconds : ℕ → ℕ
nanoseconds n = n * second % word

-- a < b for signed words.
abbrev pub signed_lt : ℕ → ℕ → Bool
signed_lt a b = ltb ((a + sign) % word) ((b + sign) % word)

-- int(d.Seconds()) for a word, where a number that is not positive is 0.
abbrev pub whole_seconds : ℕ → ℕ
whole_seconds d = if is_positive d then d / second else 0

-- ResolveRenewTTL. Both times it compares are the same time with a duration added.
unfoldable pub resolve_renew_ttl : LeaseTuning → ℕ → ℕ → ℕ
resolve_renew_ttl t requested current_ttl =
    let asked = if requested == 0 then current_ttl else requested in
    let requested' = if ltb 0 t.period then t.period else asked in
    if signed_lt (nanoseconds t.max_ttl) (nanoseconds requested')
    then whole_seconds (nanoseconds t.max_ttl)
    else requested'

pub data LeaseWarning : Type 0 where
  no_warning expired : LeaseWarning
  expires_in : ℕ → LeaseWarning

-- remaining.Round(time.Second)
abbrev pub round_seconds : ℕ → ℕ
round_seconds d = (d + second / 2) / second * second

-- LeaseWarnings. Times are nanoseconds.
unfoldable pub lease_warnings : ℕ → ℕ → ℕ → LeaseWarning
lease_warnings now expires_at ttl_seconds =
    if ttl_seconds == 0
    then no_warning
    else if leb expires_at now
    then expired
    else let total = nanoseconds ttl_seconds in
      if is_positive total && ltb (expires_at - now) (total / 10)
      then expires_in (round_seconds (expires_at - now))
      else no_warning

-- NormalizeDatabaseLeaseTuning
unfoldable pub normalize_lease_tuning : RoleLimits → RoleLimits
normalize_lease_tuning role =
    let default_ttl = or_default role.default_ttl role.ttl_seconds in
    record role {
      default_ttl = default_ttl;
      max_ttl = or_default role.max_ttl default_ttl;
      ttl_seconds = or_default role.ttl_seconds default_ttl;
    }
