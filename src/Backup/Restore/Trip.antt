-- ===== src/Backup/Restore/Trip.antt =====
-- What a repository holds after its records were exported and restored.
use mathlib.Core.Path.{subst}
use knxvault.Prelude.{
  ◌≡◌, inl, inr, refl, sym, ◌∙◌, ap, Bool, true, Option, none, some, List, [], ◌∷◌, map, Text,
  Text-discrete, lookup, insert, lookup-insert_self, lookup-insert_ne, In, arith, Option-cases,
}
use knxvault.Errors.{ok}
use knxvault.Repos.{Table, Outcome, values}
use knxvault.Repos.Keyed.{Keyed, lookup-Keyed, lookup-values, values-lookup}
use knxvault.Backup.Restore.{restore_all}

-- What a lookup gives, changed.
abbrev pub changed : {A : Type 0} → (A → A) → Option A → Option A
changed f none = none
changed f (some a) = some (f a)

module _ {A R : Type 0} (key : A → Text) (good : A → Bool) (from : A → R) (strip : A → A)
    (save : Table A → R → Outcome (Table A) (Unit {0})) (t : Table A) where
  -- A Save of an exported record stores the record, changed, under its key.
  abbrev Saves : Type 0
  Saves =
      (u : Table A) (a : A)
      → good a ≡ true
      → save u (from a) ≡ (insert Text-discrete (key a) (strip a) u, ok tt)

  -- All that is restored is a stored record, changed.
  abbrev Part : Table A → Type 0
  Part u =
      (k : Text) (b : A)
      → lookup Text-discrete k u ≡ some b
      → (a : A) × (lookup Text-discrete k t ≡ some a) × (b ≡ strip a)

  -- A list of stored records.
  abbrev Stored : List A → Type 0
  Stored xs = (a : A) → In a xs → In a (values t)

  abbrev left : List A → Table A → Outcome (Table A) (Unit {0})
  left xs u = restore_all save (map from xs) u

  Part-insert :
      (u : Table A) (a : A)
      → Keyed key good t
      → In a (values t)
      → Part u
      → Part (insert Text-discrete (key a) (strip a) u)
  Part-insert u a v i p k b h = elim (Text-discrete (key a) k) [
    | yes e ↦ (
      a,
      subst (λ x. lookup Text-discrete x t ≡ some a) e (lookup-values key good a t v i),
      ground (arith, lookup-insert_self Text-discrete (key a) (strip a) u),
    )
    | no n ↦ p k b (sym (lookup-insert_ne Text-discrete (key a) k (strip a) u n) ∙ h)
  ]

  good-of : (a : A) → Keyed key good t → In a (values t) → good a ≡ true
  good-of a v i = (lookup-Keyed key good (key a) a t v (lookup-values key good a t v i)).1

  left-step :
      (a : A) (xs : List A) (u : Table A)
      → Saves
      → good a ≡ true
      → left (a ∷ xs) u ≡ left xs (insert Text-discrete (key a) (strip a) u)
  unfolding restore_all
  left-step a xs u s g = rw (s u a g) refl

  left-ok :
      (xs : List A) (u : Table A) → Saves → Keyed key good t → Stored xs → (left xs u).1 ≡ ok tt
  unfolding restore_all
  left-ok [] u s v i = refl
  left-ok (a ∷ xs) u s v i =
      rw (left-step a xs u s (good-of a v (i a (inl refl)))) (left-ok xs _ s v (λ b j. i b (inr j)))

  left-Part :
      (xs : List A) (u : Table A)
      → Saves
      → Keyed key good t
      → Stored xs
      → Part u
      → Part (left xs u).0
  unfolding restore_all
  left-Part [] u s v i p = p
  left-Part (a ∷ xs) u s v i p =
      rw (left-step a xs u s (good-of a v (i a (inl refl))))
        (left-Part xs _ s v (λ b j. i b (inr j)) (Part-insert u a v (i a (inl refl)) p))

  again :
      (a b : A) (u : Table A)
      → Keyed key good t
      → In a (values t)
      → In b (values t)
      → lookup Text-discrete (key a) u ≡ some (strip a)
      → lookup Text-discrete (key a) (insert Text-discrete (key b) (strip b) u) ≡ some (strip a)
  again a b u v i j h = elim (Text-discrete (key b) (key a)) [
    | yes e ↦
        let one = lookup-values key good a t v i in
        let other = lookup-values key good b t v j in
        let same : a ≡ b = ground arith in
        ground (arith, lookup-insert_self Text-discrete (key b) (strip b) u)
    | no n ↦ lookup-insert_ne Text-discrete (key b) (key a) (strip b) u n ∙ h
  ]

  own :
      (a b : A) (u : Table A)
      → b ≡ a
      → lookup Text-discrete (key a) (insert Text-discrete (key b) (strip b) u) ≡ some (strip a)
  own a b u e =
      subst
        (λ x.
          lookup Text-discrete (key x) (insert Text-discrete (key b) (strip b) u) ≡ some (strip x))
        e (lookup-insert_self Text-discrete (key b) (strip b) u)

  -- A record that is restored stays: a later one with its key is the same.
  stays :
      (a : A) (xs : List A) (u : Table A)
      → Saves
      → Keyed key good t
      → In a (values t)
      → Stored xs
      → lookup Text-discrete (key a) u ≡ some (strip a)
      → lookup Text-discrete (key a) (left xs u).0 ≡ some (strip a)
  unfolding restore_all
  stays a [] u s v m i h = h
  stays a (b ∷ xs) u s v m i h =
      rw (left-step b xs u s (good-of b v (i b (inl refl))))
        (stays a xs _ s v m (λ c j. i c (inr j)) (again a b u v m (i b (inl refl)) h))

  arrives :
      (a : A) (xs : List A) (u : Table A)
      → Saves
      → Keyed key good t
      → Stored xs
      → In a xs
      → lookup Text-discrete (key a) (left xs u).0 ≡ some (strip a)
  unfolding restore_all
  arrives a [] u s v i m = absurd m
  arrives a (b ∷ xs) u s v i m = rw (left-step b xs u s (good-of b v (i b (inl refl)))) (elim m [
    | inl e ↦ stays a xs _ s v (i a (inl e)) (λ c j. i c (inr j)) (own a b u e)
    | inr j ↦ arrives a xs _ s v (λ c k. i c (inr k)) j
  ])

  found :
      (xs : List A) (k : Text) (a : A)
      → Saves
      → Keyed key good t
      → Stored xs
      → ((b : A) → In b (values t) → In b xs)
      → lookup Text-discrete k t ≡ some a
      → lookup Text-discrete k (left xs []).0 ≡ some (strip a)
  found xs k a s v i all h =
      subst (λ x. lookup Text-discrete x (left xs []).0 ≡ some (strip a))
        (sym (lookup-Keyed key good k a t v h).0)
        (arrives a xs [] s v i (all a (values-lookup k a t h)))

  missing :
      (xs : List A) (k : Text)
      → Saves
      → Keyed key good t
      → Stored xs
      → lookup Text-discrete k t ≡ none
      → lookup Text-discrete k (left xs []).0 ≡ none
  unfolding lookup
  missing xs k s v i h = elim (Option-cases (lookup Text-discrete k (left xs []).0)) [
    | inl e ↦ e
    | inr (b, e) ↦
        let (a, p, q) = left-Part xs [] s v i (λ k b e. absurd (cc)) k b e in absurd (ground arith)
  ]

  -- Restoring the exported records of a repository into an empty one gives no error, and each key
  -- leads to the record that it led to, changed.
  pub restored :
      (xs : List A)
      → Saves
      → Keyed key good t
      → Stored xs
      → ((a : A) → In a (values t) → In a xs)
      → ((left xs []).1 ≡ ok tt)
        × ((k : Text)
            → lookup Text-discrete k (left xs []).0 ≡ changed strip (lookup Text-discrete k t))
  restored xs s v i all = (
    left-ok xs [] s v i,
    λ k. elim (Option-cases (lookup Text-discrete k t)) [
      | inl h ↦ missing xs k s v i h ∙ sym (ap (changed strip) h)
      | inr (a, h) ↦ found xs k a s v i all h ∙ sym (ap (changed strip) h)
    ],
  )
