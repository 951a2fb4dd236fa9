-- ===== src/Auth/Rbac/Fuel.antt =====
-- The bound on how deep the calls of `walk` nest is never what ends them (internal/auth/capabilities.go).
use knxvault.Prelude.{
  ℕ, zero, suc, ◌<◌, ◌≤◌, ◌≡◌, inl, inr, refl, sym, ◌∙◌, ap, List, [], ◌∷◌, ◌++◌, Text,
  Text-discrete, elem, length, arith, Bool-cases, Option-cases,
}
use knxvault.Auth.Rbac.Unseen.{unseen, unseen-le-length, unseen_mono}
use knxvault.Auth.Rbac.{
  Policies, Walk, includes_of, visit_new, visit, each, walk, resolve_policy_names,
}
use knxvault.Auth.Rbac.Resolve.{Inner, includes_of-unseen, visit-Good, walk-Good, fresh}

module _ (policies : Policies) where
  -- Two calls that do the same where fewer loaded names than the bound were not seen.
  abbrev Agree : ℕ → (List Text → Walk → Walk) → (List Text → Walk → Walk) → Type 0
  Agree fuel inner other =
      (batch : List Text) (w : Walk) → unseen policies w.seen < fuel → inner batch w ≡ other batch w

  visit-Agree :
      (fuel : ℕ) (inner other : List Text → Walk → Walk) (name : Text) (w : Walk)
      → Agree fuel inner other
      → unseen policies w.seen < suc fuel
      → visit policies inner name w ≡ visit policies other name w
  unfolding visit visit_new
  visit-Agree fuel inner other name w h lt = elim (Bool-cases (elem Text-discrete name w.seen)) [
    | inl e ↦ rw e refl
    | inr e ↦ elim (Option-cases (includes_of policies name)) [
      | inl f ↦ rw (e, f) refl
      | inr (included, f) ↦
          rw (e, f)
            (ap {A = Walk} {B = Walk} (λ v. record v { out = v.out ++ name ∷ [] })
              (h included (record w { seen = name ∷ w.seen })
                (omega (arith, includes_of-unseen policies name w.seen included f e))))
    ]
  ]

  each-Agree :
      (fuel : ℕ) (inner other : List Text → Walk → Walk)
      → Inner policies fuel inner
      → Agree fuel inner other
      → Agree (suc fuel) (each policies inner) (each policies other)
  unfolding each
  each-Agree fuel inner other g h [] w lt = refl
  each-Agree fuel inner other g h (name ∷ batch) w lt =
      let v = visit policies inner name w in
      let seen = visit-Good policies fuel inner name w g lt in
      each-Agree fuel inner other g h batch v
        (omega (arith, unseen_mono policies w.seen v.seen seen.grows))
      ∙ ap (each policies other batch) (visit-Agree fuel inner other name w h lt)

  walk-Agree : (fuel more : ℕ) → fuel ≤ more → Agree fuel (walk policies fuel) (walk policies more)
  unfolding walk
  walk-Agree zero more le batch w lt = absurd (omega arith)
  walk-Agree (suc fuel) zero le batch w lt = absurd (omega arith)
  walk-Agree (suc fuel) (suc more) le batch w lt =
      each-Agree fuel (walk policies fuel) (walk policies more) (walk-Good policies fuel)
        (walk-Agree fuel more (omega arith)) batch w lt

  -- The recursion into includes ends, also where they are cyclic: whatever depth above the number of
  -- loaded policies the calls may nest to, the names that are put out are the same.
  pub resolve_policy_names-depth :
      (names : List Text) (depth : ℕ)
      → length policies < depth
      → (walk policies depth names (fresh policies)).out ≡ resolve_policy_names policies names
  unfolding resolve_policy_names
  resolve_policy_names-depth names depth lt =
      ap (λ w. w.out)
        (sym (
          walk-Agree (suc (length policies)) depth (omega arith) names (fresh policies)
            (omega (arith, unseen-le-length policies []))))
