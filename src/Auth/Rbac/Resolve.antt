-- ===== src/Auth/Rbac/Resolve.antt =====
-- ResolvePolicyNames gives the names that are reached through includes, and no other.
use mathlib.Core.Path.{subst}
use knxvault.Prelude.{
  ℕ, zero, suc, ◌<◌, ◌≡◌, ◌⊎◌, ◌↔◌, inl, inr, refl, false, Option, none, some, List, [], ◌∷◌, ◌++◌,
  Text, Text-discrete, lookup, elem, In, In_of-elem, In-append_cases, length, arith, Bool-cases,
  Option-cases,
}
use knxvault.Auth.Rbac.Unseen.{unseen, unseen-le-length, unseen_mono, unseen-cons}
use knxvault.Auth.Rbac.Good.{Good, Good-nil, Good-cons, Good-seen, Good-after, Good-unknown}
use knxvault.Auth.Rbac.{
  Policies, Walk, includes_of, visit_new, visit, each, walk, resolve_policy_names,
}

module _ (policies : Policies) where
  abbrev pub Inner : ℕ → (List Text → Walk → Walk) → Type 0
  Inner fuel inner =
      (batch : List Text) (w : Walk)
      → unseen policies w.seen < fuel
      → Good policies batch w (inner batch w)

  pub includes_of-unseen :
      (name : Text) (seen included : List Text)
      → includes_of policies name ≡ some included
      → elem Text-discrete name seen ≡ false
      → unseen policies (name ∷ seen) < unseen policies seen
  unfolding includes_of
  includes_of-unseen name seen included f e =
      elim (Option-cases (lookup Text-discrete name policies)) [
        | inl g ↦ absurd (ground arith)
        | inr (p, g) ↦ unseen-cons policies seen name p g e
      ]

  pub visit-Good :
      (fuel : ℕ) (inner : List Text → Walk → Walk) (name : Text) (w : Walk)
      → Inner fuel inner
      → unseen policies w.seen < suc fuel
      → Good policies (name ∷ []) w (visit policies inner name w)
  unfolding visit
  visit-Good fuel inner name w h lt = elim (Bool-cases (elem Text-discrete name w.seen)) [
    | inl e ↦ rw e (Good-seen policies name w (In_of-elem Text-discrete name w.seen e))
    | inr e ↦ elim (Option-cases (includes_of policies name)) [
      | inl f ↦ rw (e, f) (Good-unknown policies name w f)
      | inr (included, f) ↦
          rw (e, f)
            (Good-after policies name included w
              (inner included (record w { seen = name ∷ w.seen })) f
              (h included (record w { seen = name ∷ w.seen })
                (omega (arith, includes_of-unseen name w.seen included f e))))
    ]
  ]

  each-Good :
      (fuel : ℕ) (inner : List Text → Walk → Walk) (batch : List Text) (w : Walk)
      → Inner fuel inner
      → unseen policies w.seen < suc fuel
      → Good policies batch w (each policies inner batch w)
  unfolding each
  each-Good fuel inner [] w h lt = Good-nil policies w
  each-Good fuel inner (name ∷ batch) w h lt =
      let v = visit policies inner name w in
      let g = visit-Good fuel inner name w h lt in
      Good-cons policies name batch w v (each policies inner batch v) g
        (each-Good fuel inner batch v h (omega (arith, unseen_mono policies w.seen v.seen g.grows)))

  pub walk-Good : (fuel : ℕ) → Inner fuel (walk policies fuel)
  unfolding walk
  walk-Good zero batch w lt = absurd (omega arith)
  walk-Good (suc fuel) batch w lt = each-Good fuel (walk policies fuel) batch w (walk-Good fuel) lt

  -- A name is reached from a list if it stands there, or in the includes of a policy that is.
  pub data Reaches (names : List Text) : Text → Type 0 where
    start : {n : Text} → In n names → Reaches names n
    include :
        {n : Text} (m : Text) (included : List Text)
        → Reaches names m
        → includes_of policies m ≡ some included
        → In n included
        → Reaches names n

  abbrev pub fresh : Walk
  fresh = record { seen = []; out = [] }

  Reaches-seen :
      (names : List Text) (w : Walk) {n : Text}
      → Good policies names fresh w
      → Reaches names n
      → In n w.seen
  Reaches-seen names w {n} g (start i) = g.covers n i
  Reaches-seen names w {n} g (include m included r e i) =
      elim (g.closed m included (Reaches-seen names w g r) e) [
        | inl f ↦ absurd f
        | inr all ↦ all n i
      ]

  resolve-complete :
      (names : List Text) (n : Text) → Reaches names n → In n (resolve_policy_names policies names)
  unfolding resolve_policy_names
  resolve-complete names n r =
      let w = walk policies (suc (length policies)) names fresh in
      let g =
        walk-Good (suc (length policies)) names fresh
          (omega (arith, unseen-le-length policies [])) in
      elim (g.put n (Reaches-seen names w g r)) [ inl f ↦ absurd f | inr o ↦ o ]

  -- Nothing but names that a property `R` closed under includes holds of is put out.
  module _ (R : Text → Type 0)
      (step : (m : Text) (included : List Text) (n : Text)
        → R m
        → includes_of policies m ≡ some included
        → In n included
        → R n) where
    abbrev Adds : (List Text → Walk → Walk) → Type 0
    Adds inner =
        (batch : List Text) (w : Walk)
        → ((n : Text) → In n batch → R n)
        → (n : Text) → In n (inner batch w).out
        → In n w.out ⊎ R n

    In-put_last :
        (name : Text) (out : List Text) (n : Text)
        → R name
        → In n (out ++ name ∷ [])
        → In n out ⊎ R n
    In-put_last name out n r i = elim (In-append_cases n out (name ∷ []) i) [
      | inl j ↦ inl j
      | inr (inl e) ↦ inr (subst R e r)
      | inr (inr f) ↦ absurd f
    ]

    visit_new-Adds :
        (inner : List Text → Walk → Walk) (name : Text) (w : Walk) (o : Option (List Text))
        → Adds inner
        → R name
        → includes_of policies name ≡ o
        → (n : Text) → In n (visit_new policies inner name w o).out
        → In n w.out ⊎ R n
    unfolding visit_new
    visit_new-Adds inner name w none h r e n i = In-put_last name w.out n r i
    visit_new-Adds inner name w (some included) h r e n i =
        elim (In-put_last name (inner included w).out n r i) [
          | inr x ↦ inr x
          | inl j ↦ h included w (λ m k. step name included m r e k) n j
        ]

    visit-Adds :
        (inner : List Text → Walk → Walk) (name : Text) (w : Walk)
        → Adds inner
        → R name
        → (n : Text) → In n (visit policies inner name w).out
        → In n w.out ⊎ R n
    unfolding visit
    visit-Adds inner name w h r n i = elim (Bool-cases (elem Text-discrete name w.seen)) [
      | inl e ↦ inl (rw e at i)
      | inr e ↦
          visit_new-Adds inner name (record w { seen = name ∷ w.seen }) (includes_of policies name)
            h r refl n (rw e at i)
    ]

    each-Adds : (inner : List Text → Walk → Walk) → Adds inner → Adds (each policies inner)
    unfolding each
    each-Adds inner h [] w all n i = inl i
    each-Adds inner h (name ∷ batch) w all n i =
        elim (each-Adds inner h batch (visit policies inner name w) (λ x j. all x (inr j)) n i) [
          | inr r ↦ inr r
          | inl j ↦ visit-Adds inner name w h (all name (inl refl)) n j
        ]

    walk-Adds : (fuel : ℕ) → Adds (walk policies fuel)
    unfolding walk
    walk-Adds zero batch w all n i = inl i
    walk-Adds (suc fuel) batch w all n i =
        each-Adds (walk policies fuel) (walk-Adds fuel) batch w all n i

  -- The names put out are exactly those that are reached from the given ones through the includes
  -- of loaded policies.
  pub resolve_policy_names_iff :
      (names : List Text) (n : Text) → In n (resolve_policy_names policies names) ↔ Reaches names n
  unfolding resolve_policy_names
  resolve_policy_names_iff names n = (
    λ i.
        elim (walk-Adds (Reaches names) (λ m included x r e j. include m included r e j)
          (suc (length policies)) names fresh (λ x j. start j) n i) [
            | inl f ↦ absurd f
            | inr r ↦ r
          ],
    resolve-complete names n,
  )
