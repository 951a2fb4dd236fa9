-- ===== src/Auth/Rbac/Decision.antt =====
-- AuthorizeDetailed: deny takes precedence, in whatever order the names stand.
use mathlib.Core.Bool.{false≢true}
use knxvault.Prelude.{
  ◌≡◌, ◌≢◌, ◌⊎◌, ◌↔◌, inl, inr, refl, sym, ◌∙◌, Bool, true, false, Option, none, some, List, [],
  ◌∷◌, Text, Text-discrete, lookup, In, arith, Bool-cases, Option-cases,
}
use knxvault.Auth.Policy.{Policy, effect_deny}
use knxvault.Auth.Conditions.{Env, RequestContext}
use knxvault.Auth.Rbac.{Policies, applies, authorize_loop, authorize_detailed}

module _ (env : Env) (policies : Policies) (resource action : Text) (req : RequestContext) where
  -- A policy of that name is loaded, and it matches the request.
  abbrev pub Active : Text → Policy → Type 0
  Active name p =
      (lookup Text-discrete name policies ≡ some p)
      × (applies env policies resource action req p ≡ true)

  abbrev pub Grants : List Text → Type 0
  Grants names =
      (name : Text) × (p : Policy) × In name names × Active name p × (p.effect ≢ effect_deny)

  abbrev pub Denies : List Text → Type 0
  Denies names =
      (name : Text) × (p : Policy) × In name names × Active name p × (p.effect ≡ effect_deny)

  abbrev loop : List Text → Option Text → Bool
  loop names matched = (authorize_loop env policies resource action req names matched).allowed

  abbrev IsMatched : Option Text → Type 0
  IsMatched none = ⊥
  IsMatched (some name) = Unit

  -- What a name does to the loop.
  data Head (name : Text) (names : List Text) : Type 0 where
    skips :
        ((m : Option Text) → loop (name ∷ names) m ≡ loop names m)
        → ((p : Policy) → Active name p → ⊥)
        → Head name names
    grants :
        (p : Policy)
        → Active name p
        → p.effect ≢ effect_deny
        → ((m : Option Text) → loop (name ∷ names) m ≡ loop names (some p.name))
        → Head name names
    denies :
        (p : Policy)
        → Active name p
        → p.effect ≡ effect_deny
        → ((m : Option Text) → loop (name ∷ names) m ≡ false)
        → Head name names

  Head-of : (name : Text) (names : List Text) → Head name names
  unfolding authorize_loop
  Head-of name names = elim (Option-cases (lookup Text-discrete name policies)) [
    | inl e ↦ skips (λ m. ground arith) (λ p a. ground arith)
    | inr (p, e) ↦ elim (Bool-cases (applies env policies resource action req p)) [
      | inr f ↦ skips (λ m. ground arith) (λ q a. ground arith)
      | inl f ↦ elim (Text-discrete p.effect effect_deny) [
        | yes d ↦ denies p (e, f) d (λ m. ground arith)
        | no d ↦ grants p (e, f) d (λ m. ground arith)
      ]
    ]
  ]

  module _ (name : Text) (names : List Text) where
    Denies-tail :
        ((p : Policy) → Active name p → p.effect ≡ effect_deny → ⊥)
        → Denies (name ∷ names)
        → Denies names
    Denies-tail free (n, p, inl e, a, d) = absurd (free p (rw e a) d)
    Denies-tail free (n, p, inr i, a, d) = (n, p, i, a, d)

    Grants-tail :
        ((p : Policy) → Active name p → p.effect ≢ effect_deny → ⊥)
        → Grants (name ∷ names)
        → Grants names
    Grants-tail free (n, p, inl e, a, d) = absurd (free p (rw e a) d)
    Grants-tail free (n, p, inr i, a, d) = (n, p, i, a, d)

    Denies-cons : Denies names → Denies (name ∷ names)
    Denies-cons (n, p, i, a, d) = (n, p, inr i, a, d)

    Grants-cons : Grants names → Grants (name ∷ names)
    Grants-cons (n, p, i, a, d) = (n, p, inr i, a, d)

  Active-unique : (name : Text) (p q : Policy) → Active name p → Active name q → p.effect ≡ q.effect
  Active-unique name p q a b = ground arith

  loop_sound :
      (names : List Text) (m : Option Text)
      → loop names m ≡ true
      → (IsMatched m ⊎ Grants names) × (Denies names → ⊥)
  unfolding authorize_loop
  loop_sound [] none h = absurd (cc)
  loop_sound [] (some x) h = (inl tt, λ d. d.2)
  loop_sound (name ∷ names) m h = elim (Head-of name names) [
    | skips e n ↦
        let (found, free) = loop_sound names m (sym (e m) ∙ h) in
        (
          elim found [ inl x ↦ inl x | inr g ↦ inr (Grants-cons name names g) ],
          λ d. free (Denies-tail name names (λ p a _. n p a) d),
        )
    | grants p a ne e ↦
        let (_, free) = loop_sound names (some p.name) (sym (e m) ∙ h) in
        (
          inr (name, p, inl refl, a, ne),
          λ d. free (Denies-tail name names (λ q b dq. ne (Active-unique name p q a b ∙ dq)) d),
        )
    | denies p a d e ↦ absurd (false≢true (sym (e m) ∙ h))
  ]

  loop_complete :
      (names : List Text) (m : Option Text)
      → IsMatched m ⊎ Grants names
      → (Denies names → ⊥)
      → loop names m ≡ true
  unfolding authorize_loop
  loop_complete [] none (inl x) free = absurd x
  loop_complete [] none (inr g) free = absurd (g.2)
  loop_complete [] (some x) found free = refl
  loop_complete (name ∷ names) m found free = elim (Head-of name names) [
    | skips e n ↦
        e m
        ∙ loop_complete names m
            (elim found [ inl x ↦ inl x | inr g ↦ inr (Grants-tail name names (λ p a _. n p a) g) ])
            (λ d. free (Denies-cons name names d))
    | grants p a ne e ↦
        e m ∙ loop_complete names (some p.name) (inl tt) (λ d. free (Denies-cons name names d))
    | denies p a d e ↦ absurd (free (name, p, inl refl, a, d))
  ]

  -- AuthorizeDetailed allows a request exactly when one of the names is that of a loaded policy
  -- that matches and is no deny policy, and none is that of a loaded deny policy that matches.
  pub authorize_detailed_iff :
      (names : List Text)
      → ((authorize_detailed env policies resource action req names).allowed ≡ true)
        ↔ (Grants names × (Denies names → ⊥))
  unfolding authorize_detailed
  authorize_detailed_iff names = (
    λ h.
        let (found, free) = loop_sound names none h in
        (elim found [ inl x ↦ absurd x | inr g ↦ g ], free),
    λ h. loop_complete names none (inr h.0) h.1,
  )
