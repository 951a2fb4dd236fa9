-- ===== src/Repos/Keyed.antt =====
-- The invariant of a map of checked records: each stands under its key, and each key once.
use knxvault.Prelude.{
  ◌≡◌, sym, inl, inr, refl, Bool, true, none, some, [], ◌∷◌, Text, Text-discrete, lookup, insert,
  delete, lookup-insert, lookup-delete, arith, Bool-cases, Option-cases, In, ◌⊎◌,
}
use mathlib.Core.Logic.{if_pos, if_neg}
use knxvault.Repos.{Table, put, remove, modify, values}

module _ {A : Type 0} (key : A → Text) (good : A → Bool) where
  abbrev pub Keyed : Table A → Type 0
  Keyed [] = Unit
  Keyed ((k, a) ∷ t) = (k ≡ key a) × (good a ≡ true) × (lookup Text-discrete k t ≡ none) × Keyed t

  pub insert-Keyed :
      (a : A) (t : Table A) → good a ≡ true → Keyed t → Keyed (insert Text-discrete (key a) a t)
  unfolding insert lookup
  insert-Keyed a [] g v = (refl, g, refl, tt)
  insert-Keyed a ((j, b) ∷ t) g v = elim (Text-discrete j (key a)) [
    | yes p ↦ rw (if_pos _ p) (refl, g, ground arith, v.3)
    | no p ↦ rw (if_neg _ p) (
      v.0,
      v.1,
      ground (arith, lookup-insert Text-discrete (key a) j a t),
      insert-Keyed a t g v.3,
    )
  ]

  pub delete-Keyed : (k : Text) (t : Table A) → Keyed t → Keyed (delete Text-discrete k t)
  unfolding delete
  delete-Keyed k [] v = tt
  delete-Keyed k ((j, b) ∷ t) v = elim (Text-discrete j k) [
    | yes p ↦ rw (if_pos _ p) (delete-Keyed k t v.3)
    | no p ↦
        rw (if_neg _ p)
          (v.0, v.1, ground (arith, lookup-delete Text-discrete k j t), delete-Keyed k t v.3)
  ]

  -- What a key leads to is the record with that key, and passes the check.
  pub lookup-Keyed :
      (k : Text) (a : A) (t : Table A)
      → Keyed t
      → lookup Text-discrete k t ≡ some a
      → (k ≡ key a) × (good a ≡ true)
  unfolding lookup
  lookup-Keyed k a [] v h = absurd (cc)
  lookup-Keyed k a ((j, b) ∷ t) v h = ground (arith, lookup-Keyed k a t v.3)

  pub put-Keyed :
      (ok : Bool) (message : Text) (a : A) (t : Table A)
      → (ok ≡ true → good a ≡ true)
      → Keyed t
      → Keyed (put ok message (key a) a t).0
  unfolding put
  put-Keyed ok message a t g v = elim (Bool-cases ok) [
    | inl e ↦ rw e (insert-Keyed a t (g e) v)
    | inr e ↦ rw e v
  ]

  pub remove-Keyed : (message k : Text) (t : Table A) → Keyed t → Keyed (remove message k t).0
  unfolding remove
  remove-Keyed message k t v = elim (Option-cases (lookup Text-discrete k t)) [
    | inl e ↦ rw (e, remove) v
    | inr (a, e) ↦ rw (e, remove) (delete-Keyed k t v)
  ]

  pub modify-Keyed :
      (message : Text) (change : A → A) (k : Text) (t : Table A)
      → ((a : A) → good a ≡ true → (key (change a) ≡ key a) × (good (change a) ≡ true))
      → Keyed t
      → Keyed (modify message change k t).0
  unfolding modify
  modify-Keyed message change k t h v = elim (Option-cases (lookup Text-discrete k t)) [
    | inl e ↦ rw (e, modify) v
    | inr (a, e) ↦
        let (p, g) = lookup-Keyed k a t v e in
        let (q, g') = h a g in rw (e, modify, p, sym q) (insert-Keyed (change a) t g' v)
  ]

  -- A stored record is what its key leads to.
  pub lookup-values :
      (a : A) (t : Table A) → Keyed t → In a (values t) → lookup Text-discrete (key a) t ≡ some a
  unfolding lookup values
  lookup-values a [] v i = absurd i
  lookup-values a ((j, b) ∷ t) v (inl e) = ground arith
  lookup-values a ((j, b) ∷ t) v (inr i) = ground (arith, lookup-values a t v.3 i)

module _ {A : Type 0} where
  pub values-lookup :
      (k : Text) (a : A) (t : Table A) → lookup Text-discrete k t ≡ some a → In a (values t)
  unfolding lookup values
  values-lookup k a [] h = absurd (cc)
  values-lookup k a ((j, b) ∷ t) h = elim (Text-discrete j k) [
    | yes p ↦ inl (ground arith)
    | no p ↦ inr (values-lookup k a t (ground arith))
  ]

  pub values-insert :
      (k : Text) (a b : A) (t : Table A)
      → In b (values (insert Text-discrete k a t))
      → (a ≡ b) ⊎ In b (values t)
  unfolding insert values
  values-insert k a b [] i = i
  values-insert k a b ((j, c) ∷ t) i = elim (Text-discrete j k) [
    | yes p ↦ ground arith
    | no p ↦ ground (arith, values-insert k a b t)
  ]
