-- ===== src/Operator/Renew/Timing.antt =====
-- A certificate that is not issued now is looked at again in time.
use mathlib.Core.Path.{subst}
use knxvault.Prelude.{
  is_empty, ℕ, ◌+◌, ◌-◌, ◌*◌, ◌≤◌, ◌<◌, ◌≡◌, ◌⊎◌, inl, inr, refl, sym, ap, ◌∙◌, true, false, some,
  Text, arith, Bool-cases, Option-cases, ltb, if◌then◌else◌,
}
use knxvault.Operator.Renew.{
  default_renew_before, default_duration, secret_delivery, Duration, forward, back, hour, Clock,
  is_due, time_left, SpecView, Decision, decided, parse_duration, read_time, needs_renew,
  requeue_after, decide, validate_and_decide,
}

-- What a decision about one certificate, at a time, gets right.
abbrev pub IsTimely : Clock → Text → ℕ → Decision → Type 0
IsTimely clock not_after now d =
    (0 < d.requeue_after)
    × (d.requeue_after ≤ 24 * hour)
    × (d.next_renew ≡ some (now + d.requeue_after))
    × ((later : ℕ)
        → later < now + d.requeue_after
        → needs_renew clock not_after d.renew_before later ≡ false)
    × ((d.requeue_after ≡ 24 * hour)
        ⊎ (needs_renew clock not_after d.renew_before (now + d.requeue_after) ≡ true))

abbrev wait_for : ℕ → Duration → ℕ → ℕ
wait_for t before now = let d = time_left t before now in if ltb (24 * hour) d then 24 * hour else d

wait_for-due :
    (t : ℕ) (before : Duration) (now : ℕ)
    → is_due t before now ≡ false
    → (0 < wait_for t before now)
      × (wait_for t before now ≤ 24 * hour)
      × ((later : ℕ) → later < now + wait_for t before now → is_due t before later ≡ false)
      × ((wait_for t before now ≡ 24 * hour)
          ⊎ (is_due t before (now + wait_for t before now) ≡ true))
wait_for-due t (forward d) now h = elim (Bool-cases (ltb (24 * hour) (t - (now + d)))) [
  | inl e ↦ rw e (omega arith, omega arith, λ later l. ground arith, inl refl)
  | inr e ↦ rw e (ground arith, ground arith, λ later l. ground arith, inr (ground arith))
]
wait_for-due t (back d) now h = elim (Bool-cases (ltb (24 * hour) (t + d - now))) [
  | inl e ↦ rw e (omega arith, omega arith, λ later l. ground arith, inl refl)
  | inr e ↦ rw e (ground arith, ground arith, λ later l. ground arith, inr (ground arith))
]

-- With a time that can be read, the two functions are about that time.
read-wait :
    (clock : Clock) (not_after : Text) (before : Duration) (t : ℕ)
    → is_empty not_after ≡ false
    → read_time clock not_after ≡ some t
    → ((now : ℕ) → requeue_after clock not_after before now ≡ wait_for t before now)
      × ((now : ℕ) → needs_renew clock not_after before now ≡ is_due t before now)
unfolding needs_renew requeue_after
read-wait clock not_after before t n e = (λ now. rw (n, e) refl, λ now. rw (n, e) refl)

readable :
    (clock : Clock) (not_after : Text) (before : Duration) (now : ℕ)
    → needs_renew clock not_after before now ≡ false
    → (is_empty not_after ≡ false) × ((t : ℕ) × (read_time clock not_after ≡ some t))
unfolding needs_renew
readable clock not_after before now h = elim (Bool-cases (is_empty not_after)) [
  | inl n ↦ absurd (ground arith)
  | inr n ↦ elim (Option-cases (read_time clock not_after)) [
    | inl e ↦ absurd (ground arith)
    | inr (t, e) ↦ (n, (t, e))
  ]
]

-- A decision that waits as RequeueAfter says is timely.
waits-IsTimely :
    (clock : Clock) (not_after : Text) (now : ℕ) (d : Decision)
    → needs_renew clock not_after d.renew_before now ≡ false
    → d.requeue_after ≡ requeue_after clock not_after d.renew_before now
    → d.next_renew ≡ some (now + d.requeue_after)
    → IsTimely clock not_after now d
waits-IsTimely clock not_after now d h wait next =
    let (n, (t, e)) = readable clock not_after d.renew_before now h in
    let (waits, needs) = read-wait clock not_after d.renew_before t n e in
    let (a, b, c, last) = wait_for-due t d.renew_before now (sym (needs now) ∙ h) in
    let same = wait ∙ waits now in
    (
      rw same a,
      rw same b,
      next,
      λ later l. needs later ∙ c later (ground (arith, same)),
      elim last [
        | inl x ↦ inl (same ∙ x)
        | inr x ↦ inr (needs (now + d.requeue_after) ∙ (rw same x))
      ],
    )

decide-IsTimely :
    (clock : Clock) (v : SpecView) (delivery : Text) (now : ℕ) (before duration : Duration)
    → (decide clock v delivery now before duration).need_issue ≡ false
    → IsTimely clock v.status_not_after now (decide clock v delivery now before duration)
unfolding decide
decide-IsTimely clock v delivery now before duration h =
    waits-IsTimely clock v.status_not_after now (decide clock v delivery now before duration)
      (ground arith) (rw h refl) (rw h refl)

decided-decide :
    (clock : Clock) (v : SpecView) (now : ℕ) (d : Decision)
    → validate_and_decide clock v now ≡ decided d
    → (delivery : Text) × (before : Duration) × (duration : Duration) × (decide clock v delivery now
          before duration
        ≡ d)
unfolding validate_and_decide
decided-decide clock v now d h =
    let delivery = if is_empty v.delivery then secret_delivery clock else v.delivery in
    elim (Option-cases (parse_duration clock v.renew_before default_renew_before)) [
      | inl e ↦ absurd (ground arith)
      | inr (before, e) ↦ elim (Option-cases (parse_duration clock v.duration default_duration)) [
        | inl e' ↦ absurd (ground arith)
        | inr (duration, e') ↦ (delivery, before, duration, ground arith)
      ]
    ]

-- Where ValidateAndDecide decides that a certificate is not issued now, it waits a positive time of
-- at most a day, tells when that ends, and lets no time at which the certificate is due pass before;
-- when the wait is shorter than a day, the certificate is due at its end.
pub validate_and_decide-IsTimely :
    (clock : Clock) (v : SpecView) (now : ℕ) (d : Decision)
    → validate_and_decide clock v now ≡ decided d
    → d.need_issue ≡ false
    → IsTimely clock v.status_not_after now d
validate_and_decide-IsTimely clock v now d h need =
    let (delivery, before, duration, e) = decided-decide clock v now d h in
    subst (λ x. IsTimely clock v.status_not_after now x) e
      (decide-IsTimely clock v delivery now before duration (ap (λ x. x.need_issue) e ∙ need))
