-- ===== src/Repos/PkiRoles/Domains.antt =====
-- Which names a PKI role allows.
use mathlib.Core.Path.{subst}
use knxvault.Prelude.{
  sym, ap, if◌then◌else◌, ◌≡◌, ◌⊎◌, ◌↔◌, inl, inr, refl, is_empty, Bool, true, false, ◌&&◌, ◌||◌,
  List, [], ◌∷◌, ◌++◌, Text, codes, str_eq, Text-discrete, has_suffix, In, arith, has_suffix-append,
}
use knxvault.Secrets.Paths.{trim_space, to_lower}
use knxvault.Repos.PkiRoles.{
  PkiRole, any_star, allows_any_domain, domain_takes, any_takes, allowed_domain,
}

-- A name is that of a domain, or, where subdomains are allowed, ends in a dot and the domain.
abbrev pub Below : Bool → Text → Text → Type 0
Below subdomains name domain =
    (domain ≡ name) ⊎ (subdomains ≡ true) × ((w : Text) × (name ≡ w ++ b'.' ∷ domain))

append_of-has_suffix : (s t : Text) → has_suffix s t ≡ true → (w : Text) × (s ≡ w ++ t)
unfolding has_suffix Text-discrete
append_of-has_suffix [] t h = elim (Text-discrete [] t) [
  | yes p ↦ ([], p)
  | no p ↦ absurd (ground arith)
]
append_of-has_suffix (c ∷ s) t h = elim (Text-discrete (c ∷ s) t) [
  | yes p ↦ ([], p)
  | no p ↦ let (w, e) = append_of-has_suffix s t (ground arith) in (c ∷ w, ap (λ x. c ∷ x) e)
]

str_eq-path : (s t : Text) → str_eq s t ≡ true → s ≡ t
unfolding Text-discrete
str_eq-path s t h = elim (Text-discrete s t) [ yes p ↦ p | no p ↦ absurd (ground arith) ]

str_eq_refl : (s t : Text) → s ≡ t → str_eq s t ≡ true
str_eq_refl s t h = ground arith

-- A lowered domain that is neither empty nor a star, and that takes the name.
abbrev pub Takes : Bool → Text → Text → Type 0
Takes subdomains name allowed =
    (is_empty allowed ≡ false)
    × (str_eq allowed (codes "*") ≡ false)
    × Below subdomains name allowed

-- The tests of domain_takes.
abbrev tests : Bool → Bool → Bool → Bool → Bool → Bool
tests blank star same subdomains suffix =
    if blank || star then false else if same then true else subdomains && suffix

tests-true :
    (blank star same subdomains suffix : Bool)
    → tests blank star same subdomains suffix ≡ true
    → (blank ≡ false) × (star ≡ false) × ((same ≡ true) ⊎ (subdomains ≡ true) × (suffix ≡ true))
tests-true true star same subdomains suffix h = absurd (cc)
tests-true false true same subdomains suffix h = absurd (cc)
tests-true false false true subdomains suffix h = (refl, refl, inl refl)
tests-true false false false true suffix h = (refl, refl, inr (refl, h))
tests-true false false false false suffix h = absurd (cc)

tests-of :
    (blank star same subdomains suffix : Bool)
    → blank ≡ false
    → star ≡ false
    → (same ≡ true) ⊎ (subdomains ≡ true) × (suffix ≡ true)
    → tests blank star same subdomains suffix ≡ true
tests-of blank star same subdomains suffix b s h = ground arith

domain_takes-Takes :
    (subdomains : Bool) (name allowed : Text)
    → (domain_takes subdomains name allowed ≡ true) ↔ Takes subdomains name allowed
unfolding domain_takes
domain_takes-Takes subdomains name allowed =
    let blank = is_empty allowed in
    let star = str_eq allowed (codes "*") in
    let same = str_eq allowed name in
    let suffix = has_suffix name (b'.' ∷ allowed) in
    (
      λ h.
          let (b, s, c) = tests-true blank star same subdomains suffix h in
          (
            b,
            s,
            elim c [
              | inl e ↦ inl (str_eq-path allowed name e)
              | inr (d, e) ↦ inr (d, append_of-has_suffix name (b'.' ∷ allowed) e)
            ],
          ),
      λ h. tests-of blank star same subdomains suffix h.0 h.1 (elim h.2 [
        | inl e ↦ inl (str_eq_refl allowed name e)
        | inr (d, (w, e)) ↦ inr (d, rw e (has_suffix-append w (b'.' ∷ allowed)))
      ]),
    )

or-true : (a b : Bool) → ((a || b) ≡ true) ↔ ((a ≡ true) ⊎ (b ≡ true))
or-true true b = (λ h. inl refl, λ h. refl)
or-true false b = (λ h. inr h, λ h. ground arith)

any_takes-Takes :
    (subdomains : Bool) (name : Text) (domains : List Text)
    → (any_takes subdomains name domains ≡ true)
      ↔ ((d : Text) × In d domains × Takes subdomains name (to_lower (trim_space d)))
unfolding any_takes
any_takes-Takes subdomains name [] = (λ h. absurd (ground arith), λ h. absurd h.1)
any_takes-Takes subdomains name (d ∷ domains) =
    let (from, to) = any_takes-Takes subdomains name domains in
    let own = domain_takes-Takes subdomains name (to_lower (trim_space d)) in
    let split =
      or-true (domain_takes subdomains name (to_lower (trim_space d)))
        (any_takes subdomains name domains) in
    (
      λ h. elim (split.0 h) [
        | inl e ↦ (d, inl refl, own.0 e)
        | inr e ↦ let (c, i, t) = from e in (c, inr i, t)
      ],
      λ h.
          let (c, i, t) = h in
          split.1 (elim i [
            | inl e ↦
                inl (own.1 (subst (λ x. Takes subdomains name (to_lower (trim_space x))) (sym e) t))
            | inr j ↦ inr (to (c, j, t))
          ]),
    )

any_star-In :
    (domains : List Text)
    → (any_star domains ≡ true)
      ↔ ((d : Text) × In d domains × (str_eq (trim_space d) (codes "*") ≡ true))
unfolding any_star
any_star-In [] = (λ h. absurd (ground arith), λ h. absurd h.1)
any_star-In (d ∷ domains) =
    let (from, to) = any_star-In domains in
    let split = or-true (str_eq (trim_space d) (codes "*")) (any_star domains) in
    (
      λ h. elim (split.0 h) [
        | inl e ↦ (d, inl refl, e)
        | inr e ↦ let (c, i, t) = from e in (c, inr i, t)
      ],
      λ h.
          let (c, i, t) = h in
          split.1 (elim i [
            | inl e ↦ inl (subst (λ x. str_eq (trim_space x) (codes "*") ≡ true) (sym e) t)
            | inr j ↦ inr (to (c, j, t))
          ]),
    )

three :
    (blank star takes : Bool)
    → ((if blank then false else if star then true else takes) ≡ true)
      ↔ ((blank ≡ false) × ((star ≡ true) ⊎ (takes ≡ true)))
three true star takes = (λ h. absurd (cc), λ h. absurd (ground arith))
three false true takes = (λ h. (refl, inl refl), λ h. refl)
three false false takes = (λ h. (refl, inr h), λ h. ground arith)

-- A role allows a name exactly where the name, trimmed and in small letters, is not empty, and a domain
-- of the role is a star, or is the name or, where subdomains are allowed, what the name ends in behind
-- a dot. A role without domains allows no name.
pub allowed_domain_iff :
    (r : PkiRole) (given : Text)
    → (allowed_domain r given ≡ true) ↔ (
        (is_empty (to_lower (trim_space given)) ≡ false)
        × (((d : Text) × In d r.allowed_domains × (str_eq (trim_space d) (codes "*") ≡ true))
            ⊎ ((d : Text) × In d r.allowed_domains
                × Takes r.allow_subdomains
                    (to_lower (trim_space given))
                    (to_lower (trim_space d)))))
unfolding allowed_domain allows_any_domain
allowed_domain_iff r given =
    let name = to_lower (trim_space given) in
    let star = any_star-In r.allowed_domains in
    let takes = any_takes-Takes r.allow_subdomains name r.allowed_domains in
    let (from, to) =
      three (is_empty name) (any_star r.allowed_domains)
        (any_takes r.allow_subdomains name r.allowed_domains) in
    (
      λ h. let (n, c) = from h in (n, elim c [ inl e ↦ inl (star.0 e) | inr e ↦ inr (takes.0 e) ]),
      λ h. to (h.0, elim h.1 [ inl e ↦ inl (star.1 e) | inr e ↦ inr (takes.1 e) ]),
    )
