-- ===== src/Secrets/Engine/Listing/Filters.antt =====
-- What ListPaths returns.
use mathlib.Core.Path.{subst}
use knxvault.Prelude.{
  ◌≡◌, ◌⊎◌, ◌↔◌, inl, inr, refl, sym, ap, ◌∙◌, true, false, ◌||◌, List, [], ◌∷◌, Text,
  Text-discrete, has_prefix, elem, In, In_of-elem, elem_of-In, arith, Bool-cases,
}
use knxvault.Errors.{ok}
use knxvault.Secrets.Store.{SecretVersion, Store}
use knxvault.Secrets.Store.Numbers.{Entry}
use knxvault.Secrets.Paths.{is_reserved}
use knxvault.Secrets.Engine.{KvEnv}
use knxvault.Secrets.Engine.Listing.{stands_before, sort_in, list_by_path, unique_paths, list_paths}

In-sort_in :
    (x y : SecretVersion) (ys : List SecretVersion) → In y (sort_in x ys) ↔ ((x ≡ y) ⊎ In y ys)
unfolding sort_in
In-sort_in x y [] = (λ i. i, λ i. i)
In-sort_in x y (z ∷ zs) = elim (Bool-cases (stands_before z x)) [
  | inr e ↦ rw e ((λ i. i), (λ i. i))
  | inl e ↦ rw e (
    elim [
      | inl q ↦ inr (inl q)
      | inr i ↦ elim ((In-sort_in x y zs).0 i) [ inl q ↦ inl q | inr j ↦ inr (inr j) ]
    ],
    elim [
      | inl q ↦ inr ((In-sort_in x y zs).1 (inl q))
      | inr (inl q) ↦ inl q
      | inr (inr j) ↦ inr ((In-sort_in x y zs).1 (inr j))
    ],
  )
]

-- The listed versions are the stored ones whose path has the prefix.
abbrev Listed : Store → Text → SecretVersion → Type 0
Listed s prefix sv = (e : Entry) × In e s × (e.1 ≡ sv) × (has_prefix sv.path prefix ≡ true)

In-list_by_path :
    (s : Store) (prefix : Text) (sv : SecretVersion)
    → In sv (list_by_path s prefix) ↔ Listed s prefix sv
unfolding list_by_path
In-list_by_path [] prefix sv = (λ i. absurd i, λ l. absurd (l.1))
In-list_by_path ((k, w) ∷ s) prefix sv =
    let ih = In-list_by_path s prefix sv in
    elim (Bool-cases (has_prefix w.path prefix)) [
      | inl e ↦
          let sorted = In-sort_in w sv (list_by_path s prefix) in
          rw e (
            λ i. elim (sorted.0 i) [
              | inl q ↦ ((k, w), inl refl, q, subst (λ x. has_prefix x.path prefix ≡ true) q e)
              | inr j ↦ let (x, y, z, u) = ih.0 j in (x, inr y, z, u)
            ],
            λ l. sorted.1 (elim (l.1) [
              | inl q ↦ inl (ap (λ t. t.1) q ∙ l.2)
              | inr j ↦ inr (ih.1 (l.0, j, l.2, l.3))
            ]),
          )
      | inr e ↦ rw e (
        λ i. let (x, y, z, u) = ih.0 i in (x, inr y, z, u),
        λ l. elim (l.1) [
          | inl q ↦
              let same : w ≡ sv = ap (λ t. t.1) q ∙ l.2 in
              let clash = subst (λ x. has_prefix x.path prefix ≡ false) same e in
              absurd (ground arith)
          | inr j ↦ ih.1 (l.0, j, l.2, l.3)
        ],
      )
    ]

abbrev Kept : List Text → List SecretVersion → Text → Type 0
Kept seen versions p =
    ((sv : SecretVersion) × In sv versions × (sv.path ≡ p))
    × (is_reserved p ≡ false)
    × (In p seen → ⊥)

skips_sound :
    (seen : List Text) (sv : SecretVersion) (p : Text)
    → sv.path ≡ p
    → (is_reserved sv.path || elem Text-discrete sv.path seen) ≡ true
    → is_reserved p ≡ false
    → In p seen
skips_sound seen sv p q h r =
    let r' = subst (λ x. is_reserved x ≡ false) (sym q) r in
    subst (λ x. In x seen) q (In_of-elem Text-discrete sv.path seen (ground arith))

takes_sound :
    (seen : List Text) (sv : SecretVersion)
    → (is_reserved sv.path || elem Text-discrete sv.path seen) ≡ false
    → (is_reserved sv.path ≡ false) × (In sv.path seen → ⊥)
takes_sound seen sv h =
    (ground arith, λ i. let e = elem_of-In Text-discrete sv.path seen i in absurd (ground arith))

In-unique_paths :
    (seen : List Text) (versions : List SecretVersion) (p : Text)
    → In p (unique_paths seen versions) ↔ Kept seen versions p
unfolding unique_paths
In-unique_paths seen [] p = (λ i. absurd i, λ k. absurd (k.0.1))
In-unique_paths seen (sv ∷ versions) p =
    elim (Bool-cases (is_reserved sv.path || elem Text-discrete sv.path seen)) [
      | inl e ↦
          let ih = In-unique_paths seen versions p in
          rw (e, unique_paths)
            (
              λ i. let (found, r, n) = ih.0 i in ((found.0, inr found.1, found.2), r, n),
              λ k.
                  let (found, r, n) = k in
                  elim (found.1) [
                    | inl q ↦ absurd (n (skips_sound seen sv p (ap (λ t. t.path) q ∙ found.2) e r))
                    | inr j ↦ ih.1 ((found.0, j, found.2), r, n)
                  ],
            )
      | inr e ↦
          let ih = In-unique_paths (sv.path ∷ seen) versions p in
          let (free, fresh) = takes_sound seen sv e in
          rw (e, unique_paths)
            (
              elim [
                | inl q ↦ (
                  (sv, inl refl, q),
                  subst (λ x. is_reserved x ≡ false) q free,
                  subst (λ x. In x seen → ⊥) q fresh,
                )
                | inr i ↦
                    let (found, r, n) = ih.0 i in
                    ((found.0, inr found.1, found.2), r, λ j. n (inr j))
              ],
              λ k.
                  let (found, r, n) = k in
                  elim (Text-discrete sv.path p) [
                    | yes q ↦ inl q
                    | no d ↦ elim (found.1) [
                      | inl q ↦ absurd (d (ap (λ t. t.path) q ∙ found.2))
                      | inr j ↦
                          inr (ih.1 ((found.0, j, found.2), r, elim [ inl q ↦ d q | inr i ↦ n i ]))
                    ]
                  ],
            )
    ]

abbrev pub Distinct : List Text → Type 0
Distinct [] = Unit
Distinct (p ∷ ps) = (In p ps → ⊥) × Distinct ps

unique_paths-Distinct :
    (seen : List Text) (versions : List SecretVersion) → Distinct (unique_paths seen versions)
unfolding unique_paths
unique_paths-Distinct seen [] = tt
unique_paths-Distinct seen (sv ∷ versions) =
    elim (Bool-cases (is_reserved sv.path || elem Text-discrete sv.path seen)) [
      | inl e ↦ rw (e, unique_paths) (unique_paths-Distinct seen versions)
      | inr e ↦
          rw (e, unique_paths)
            (
              λ i. ((In-unique_paths (sv.path ∷ seen) versions sv.path).0 i).2 (inl refl),
              unique_paths-Distinct (sv.path ∷ seen) versions,
            )
    ]

-- ListPaths returns each path once, and exactly the stored paths that have the prefix and belong
-- to no other engine.
pub list_paths_iff :
    (env : KvEnv) (s : Store) (prefix : Text) (paths : List Text)
    → list_paths env s prefix ≡ ok paths
    → Distinct paths
      × ((p : Text)
          → In p paths ↔ (
              ((e : Entry) × In e s × (e.1.path ≡ p))
              × (has_prefix p prefix ≡ true)
              × (is_reserved p ≡ false)))
unfolding list_paths
list_paths_iff env s prefix paths h =
    let same : unique_paths [] (list_by_path s prefix) ≡ paths = ground arith in
    (
      subst Distinct same (unique_paths-Distinct [] (list_by_path s prefix)),
      λ p.
          let kept = In-unique_paths [] (list_by_path s prefix) p in
          (
            λ i.
                let (found, r, _) = kept.0 (subst (λ l. In p l) (sym same) i) in
                let (e, j, q, f) = (In-list_by_path s prefix found.0).0 found.1 in
                (
                  (e, j, ap (λ t. t.path) q ∙ found.2),
                  subst (λ x. has_prefix x prefix ≡ true) found.2 f,
                  r,
                ),
            λ k.
                let (found, f, r) = k in
                let (e, j, q) = found in
                let listed =
                  (In-list_by_path s prefix e.1).1
                    (e, j, refl, subst (λ x. has_prefix x prefix ≡ true) (sym q) f) in
                subst (λ l. In p l) same (kept.1 ((e.1, listed, q), r, λ x. x)),
          ),
    )
