-- ===== src/Repos/RotationPolicies/Due.antt =====
-- When a rotation policy is due.
use knxvault.Prelude.{
  ℕ, ◌+◌, ◌*◌, ◌%◌, ◌<◌, ◌≤◌, ◌≡◌, ◌⊎◌, ◌↔◌, inl, inr, refl, Bool, true, false, not, arith, ltb,
  ◌==◌, if◌then◌else◌,
}
use knxvault.Secrets.Ttl.{word, sign, second}
use knxvault.Repos.RotationPolicies.{RotationPolicy, apart, due}

apart-small :
    (now last product : ℕ)
    → product < sign
    → (apart now last product ≡ true) ↔ (last + product ≤ now)
unfolding apart
apart-small now last product h =
    let same : product % word ≡ product = omega arith in
    let small : ltb product sign ≡ true = ground arith in
    rw (same, apart, small) (λ e. ground arith, λ e. ground arith)

apart-wrapped :
    (now last product : ℕ)
    → sign ≤ product
    → product < word
    → last ≤ now
    → apart now last product ≡ true
unfolding apart
apart-wrapped now last product h w l =
    let same : product % word ≡ product = omega arith in
    let large : ltb product sign ≡ false = ground arith in rw (same, apart, large) (ground arith)

three :
    (on never far : Bool)
    → ((if not on then false else if never then true else far) ≡ true)
      ↔ ((on ≡ true) × ((never ≡ true) ⊎ (far ≡ true)))
three false never far = (λ h. absurd (ground arith), λ h. absurd (ground arith))
three true true far = (λ h. (refl, inl refl), λ h. refl)
three true false far = (λ h. (refl, inr h), λ h. ground arith)

-- A policy whose interval is less than 2^63 nanoseconds is due exactly where it is enabled, and was
-- never rotated or was rotated at least the interval ago. With an interval from there to 2^64
-- nanoseconds, an enabled policy is due at every time from its last rotation on.
pub due_iff :
    (p : RotationPolicy) (now : ℕ)
    → (p.interval * second < sign
        → (due p now ≡ true) ↔ (
            (p.enabled ≡ true)
            × ((p.last_rotated_at ≡ 0) ⊎ (p.last_rotated_at + p.interval * second ≤ now))))
      × (sign ≤ p.interval * second
          → p.interval * second < word
          → p.enabled ≡ true
          → p.last_rotated_at ≤ now
          → due p now ≡ true)
unfolding due
due_iff p now =
    let never = p.last_rotated_at == 0 in
    let far = apart now p.last_rotated_at (p.interval * second) in
    let (from, to) = three p.enabled never far in
    (
      λ h.
          let small = apart-small now p.last_rotated_at (p.interval * second) h in
          (
            λ e.
                let (on, c) = from e in
                (on, elim c [ inl z ↦ inl (ground arith) | inr f ↦ inr (small.0 f) ]),
            λ e. to (e.0, elim e.1 [ inl z ↦ inl (ground arith) | inr f ↦ inr (small.1 f) ]),
          ),
      λ h w on l. to (on, inr (apart-wrapped now p.last_rotated_at (p.interval * second) h w l)),
    )
