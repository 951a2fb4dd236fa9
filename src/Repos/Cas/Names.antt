-- ===== src/Repos/Cas/Names.antt =====
-- Names of authorities: Save keeps them apart, so GetByName does not depend on the order of the map.
use knxvault.Prelude.{
  ◌≡◌, ◌⊎◌, inl, inr, refl, sym, ◌∙◌, ap, false, List, [], ◌∷◌, Text, Text-discrete, In, arith,
  Bool-cases,
}
use knxvault.Errors.{ok}
use knxvault.Repos.{Table, find, values}
use knxvault.Repos.Keyed.{Keyed, insert-Keyed, lookup-values, values-insert}
use knxvault.Repos.Cas.{Ca, validate, name_taken, save, get_by_id, first_named, get_by_name}

abbrev id_of : Ca → Text
id_of ca = ca.id

abbrev name_of : Ca → Text
name_of ca = ca.name

-- Every authority stands under its identifier and passes Validate, and no two share a name.
abbrev pub CasValid : Table Ca → Type 0
CasValid t =
    Keyed (λ ca. ca.id) validate t
    × ((a b : Ca) → In a (values t) → In b (values t) → a.name ≡ b.name → a.id ≡ b.id)

name_taken-In :
    (ca b : Ca) (cas : List Ca)
    → name_taken ca cas ≡ false
    → In b cas
    → b.name ≡ ca.name
    → b.id ≡ ca.id
unfolding name_taken Text-discrete
name_taken-In ca b [] h i e = absurd i
name_taken-In ca b (x ∷ cas) h (inl p) e = ground arith
name_taken-In ca b (x ∷ cas) h (inr i) e = name_taken-In ca b cas (ground arith) i e

names-insert :
    (t : Table Ca) (ca a b : Ca)
    → CasValid t
    → name_taken ca (values t) ≡ false
    → (ca ≡ a) ⊎ In a (values t)
    → (ca ≡ b) ⊎ In b (values t)
    → a.name ≡ b.name
    → a.id ≡ b.id
names-insert t ca a b v f (inl p) (inl q) e = ap id_of (sym p ∙ q)
names-insert t ca a b v f (inl p) (inr j) e =
    ap id_of (sym p) ∙ sym (name_taken-In ca b (values t) f j (sym e ∙ ap name_of (sym p)))
names-insert t ca a b v f (inr i) (inl q) e =
    name_taken-In ca a (values t) f i (e ∙ ap name_of (sym q)) ∙ ap id_of q
names-insert t ca a b v f (inr i) (inr j) e = v.1 a b i j e

-- Save keeps the authorities apart by their names, and under their identifiers.
pub save-CasValid : (t : Table Ca) (ca : Ca) → CasValid t → CasValid (save t ca).0
unfolding save
save-CasValid t ca v = elim (Bool-cases (validate ca)) [
  | inr e ↦ rw (e, save) v
  | inl e ↦ elim (Bool-cases (name_taken ca (values t))) [
    | inl f ↦ rw (e, save, f) v
    | inr f ↦
        rw (e, save, f)
          (
            insert-Keyed (λ c. c.id) validate ca t e v.0,
            λ a b i j p.
                names-insert t ca a b v f (values-insert ca.id ca a t i)
                  (values-insert ca.id ca b t j) p,
          )
  ]
]

first_named-In :
    (ca : Ca) (cas : List Ca)
    → In ca cas
    → (b : Ca) × (In b cas) × (b.name ≡ ca.name) × (first_named ca.name cas ≡ ok b)
unfolding first_named Text-discrete
first_named-In ca [] i = absurd i
first_named-In ca (x ∷ cas) i = elim (Text-discrete x.name ca.name) [
  | yes p ↦ (x, inl refl, p, ground arith)
  | no p ↦
      let (b, j, q, r) =
        first_named-In ca cas (elim i [ inl e ↦ absurd (p (ap name_of e)) | inr j ↦ j ]) in
      (b, inr j, q, ground arith)
]

-- In such a map, an authority that is stored is what GetByID gives for its identifier and what
-- GetByName gives for its name, in whatever order the map is ranged over.
pub get_by_name-stored :
    (t : Table Ca) (ca : Ca)
    → CasValid t
    → In ca (values t)
    → (get_by_id t ca.id ≡ ok ca) × (get_by_name t ca.name ≡ ok ca)
unfolding get_by_id find get_by_name
get_by_name-stored t ca v i =
    let stored = lookup-values (λ c. c.id) validate ca t v.0 i in
    let (b, j, q, r) = first_named-In ca (values t) i in
    let other = lookup-values (λ c. c.id) validate b t v.0 j in
    let same = v.1 b ca j i q in (ground arith, ground arith)
