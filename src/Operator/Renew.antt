-- ===== src/Operator/Renew.antt =====
-- internal/operator/renew/schedule.go and internal/operator/certlogic/decide.go: when a certificate
-- is issued again. Times are nanoseconds.
use knxvault.Prelude.{
  is_empty, ℕ, ◌+◌, ◌-◌, ◌*◌, Bool, true, false, ◌&&◌, ◌||◌, not, Option, none, some, List, [], ◌∷◌,
  Text, codes, str_eq, ltb, leb, if◌then◌else◌,
}
pub mod Timing
pub mod Tests

-- time.Duration: forward, or back.
pub data Duration : Type 0 where
  forward back : ℕ → Duration

abbrev pub minute : ℕ
minute = 60 * 1000000000

abbrev pub hour : ℕ
hour = 60 * minute

abbrev pub default_duration : Duration
default_duration = forward (90 * 24 * hour)

abbrev pub default_renew_before : Duration
default_renew_before = forward (30 * 24 * hour)

-- What is taken of package time, and the text of the whole hours of a duration with an h.
pub record Clock : Type 0 where
  pub parse_rfc3339 : Text → Option ℕ
  pub parse_rfc3339_nano : Text → Option ℕ
  pub read_duration : Text → Option Duration
  pub print_hours : Duration → Text

-- The time by which the certificate is due: `from` a time back by a duration. Both are kept, since
-- the difference may lie before the first time there is.
abbrev pub is_due : ℕ → Duration → ℕ → Bool
is_due not_after (forward d) now = leb not_after (now + d)
is_due not_after (back d) now = leb (not_after + d) now

-- deadline.Sub(now), and 0 where that is negative.
abbrev pub time_left : ℕ → Duration → ℕ → ℕ
time_left not_after (forward d) now = not_after - (now + d)
time_left not_after (back d) now = not_after + d - now

-- IsClientUsage
unfoldable pub is_client_usage : List Text → Bool
is_client_usage [] = false
is_client_usage (u ∷ usages) =
    (str_eq u (codes "client auth")
      || (str_eq u (codes "client")
          || (str_eq u (codes "ClientAuth") || str_eq u (codes "clientAuth"))))
    || is_client_usage usages

-- SpecView
pub record SpecView : Type 0 where
  pub common_name : Text
  pub secret_name : Text
  pub delivery : Text
  pub duration : Text
  pub renew_before : Text
  pub dns_names : List Text
  pub ip_addresses : List Text
  pub usages : List Text
  pub key_bits : ℕ
  pub status_serial : Text
  pub status_ca_id : Text
  pub status_not_after : Text
  pub secret_exists : Bool

pub data Invalid : Type 0 where
  common_name_required secret_name_required invalid_renew_before invalid_duration : Invalid

-- Decision, where the specification is valid.
pub record Decision : Type 0 where
  pub delivery : Text
  pub ttl : Text
  pub renew_before : Duration
  pub need_issue : Bool
  pub client_usage : Bool
  pub key_bits : ℕ
  pub requeue_after : ℕ
  pub next_renew : Option ℕ

pub data Outcome : Type 0 where
  invalid : Invalid → Outcome
  decided : Decision → Outcome

module _ (clock : Clock) where
  open clock use {parse_rfc3339, parse_rfc3339_nano, read_duration, print_hours}

  -- ParseDuration
  unfoldable pub parse_duration : Text → Duration → Option Duration
  parse_duration s def = if is_empty s then some def else read_duration s

  -- The two tries of time.Parse.
  unfoldable pub read_time : Text → Option ℕ
  read_time s = elim (parse_rfc3339 s) [ some t ↦ some t | none ↦ parse_rfc3339_nano s ]

  -- NeedsRenew
  unfoldable pub needs_renew : Text → Duration → ℕ → Bool
  unfolding read_time
  needs_renew not_after renew_before now =
      if is_empty not_after
      then true
      else elim (read_time not_after) [ none ↦ true | some t ↦ is_due t renew_before now ]

  -- RequeueAfter
  unfoldable pub requeue_after : Text → Duration → ℕ → ℕ
  unfolding read_time
  requeue_after not_after renew_before now =
      if is_empty not_after then 0 else elim (read_time not_after) [
        | none ↦ minute
        | some t ↦
            let d = time_left t renew_before now in if ltb (24 * hour) d then 24 * hour else d
      ]

  abbrev pub secret_delivery : Text
  secret_delivery = codes "Secret"

  -- The end of ValidateAndDecide, for the two durations.
  unfoldable pub decide : SpecView → Text → ℕ → Duration → Duration → Decision
  unfolding needs_renew requeue_after is_client_usage
  decide v delivery now before duration =
      let need =
        needs_renew v.status_not_after before now
        || (str_eq delivery secret_delivery && not v.secret_exists) in
      let wait = if need then 0 else requeue_after v.status_not_after before now in
      record {
        delivery = delivery;
        ttl = if is_empty v.duration then print_hours duration else v.duration;
        renew_before = before;
        need_issue = need;
        client_usage = is_client_usage v.usages;
        key_bits = v.key_bits;
        requeue_after = wait;
        next_renew = if need then none else some (now + wait);
      }

  -- ValidateAndDecide
  unfoldable pub validate_and_decide : SpecView → ℕ → Outcome
  unfolding parse_duration decide
  validate_and_decide v now =
      let delivery = if is_empty v.delivery then secret_delivery else v.delivery in
      if is_empty v.common_name
      then invalid common_name_required
      else if str_eq delivery secret_delivery && is_empty v.secret_name
      then invalid secret_name_required
      else elim (parse_duration v.renew_before default_renew_before) [
        | none ↦ invalid invalid_renew_before
        | some before ↦ elim (parse_duration v.duration default_duration) [
          | none ↦ invalid invalid_duration
          | some duration ↦ decided (decide v delivery now before duration)
        ]
      ]

-- ResolveCAID
unfoldable pub resolve_ca_id : Text → Text → Text → Text
resolve_ca_id result status role =
    if not (is_empty result) then result else if not (is_empty status) then status else role

-- PreferRenew
unfoldable pub prefer_renew : Text → Text → Bool
prefer_renew serial ca_id = not (is_empty serial) && not (is_empty ca_id)
