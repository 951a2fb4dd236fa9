-- ===== src/Secrets/Sql/Allowed.antt =====
-- What a statement is that a managed role may run.
use knxvault.Prelude.{
  ℕ, suc, sym, ◌∙◌, ◌≢◌, if◌then◌else◌, ◌≡◌, inl, inr, refl, is_empty, Bool, true, false, ◌&&◌, not,
  Option, none, some, List, [], ◌∷◌, Text, codes, has_prefix, contains_byte, In, arith, Bool-cases,
  Option-cases,
}
use knxvault.Secrets.Paths.{trim_space}
use knxvault.Audit.Redact.{contains_text}
use knxvault.Secrets.Sql.{
  SqlError, role_membership, bare_grant, bad_verb, plain_password, disallowed, allow_prefixes,
  deny_substrings, deny_roles, normalize_managed_sql, first_in, first_prefix, found,
  has_role_membership_escalation, is_bare_role_membership_grant, check_normalized, body_of,
  validate_one, validate_from,
}

some_ne_none : {A : Type 0} {a : A} → some a ≡ none → ⊥
some_ne_none h = cc

first_in-none :
    (s : Text) (bads : List Text)
    → first_in s bads ≡ none
    → (bad : Text) → In bad bads
    → contains_text s bad ≡ false
unfolding first_in
first_in-none s [] h bad i = absurd i
first_in-none s (b ∷ bads) h bad (inl e) = ground arith
first_in-none s (b ∷ bads) h bad (inr i) = first_in-none s bads (ground arith) bad i

first_prefix-found :
    (s : Text) (ps : List Text)
    → found (first_prefix s ps) ≡ true
    → (p : Text) × In p ps × (has_prefix s p ≡ true)
unfolding first_prefix
first_prefix-found s [] h = absurd (cc)
first_prefix-found s (q ∷ ps) h = elim (Bool-cases (has_prefix s q)) [
  | inl e ↦ (q, inl refl, e)
  | inr e ↦ let (p, i, f) = first_prefix-found s ps (ground arith) in (p, inr i, f)
]

-- A normalized statement that starts with an allowed verb and holds none of the denied texts, roles or
-- clauses, and no password that is not a template's.
abbrev pub IsAllowed : Text → Bool → Type 0
IsAllowed norm has_template =
    ((bad : Text) → In bad deny_substrings → contains_text norm bad ≡ false)
    × ((role : Text) → In role deny_roles → contains_text norm role ≡ false)
    × ((p : Text) × In p allow_prefixes × (has_prefix norm p ≡ true))
    × (has_role_membership_escalation norm ≡ false)
    × (is_bare_role_membership_grant norm ≡ false)
    × (contains_text norm (codes "password") ≡ true → has_template ≡ true)

-- The tests of check_normalized that are left where no listed text is found.
abbrev tests : Bool → Bool → Bool → Bool → Option SqlError
tests escalates grants verb plain =
    if escalates
    then some role_membership
    else if grants
    then some bare_grant
    else if not verb
    then some bad_verb
    else if plain
    then some plain_password
    else none

tests-none :
    (escalates grants verb plain : Bool)
    → tests escalates grants verb plain ≡ none
    → (escalates ≡ false) × (grants ≡ false) × (verb ≡ true) × (plain ≡ false)
tests-none true grants verb plain h = absurd (cc)
tests-none false true verb plain h = absurd (cc)
tests-none false false false plain h = absurd (cc)
tests-none false false true true h = absurd (cc)
tests-none false false true false h = (refl, refl, refl, refl)

check_normalized-tests :
    (norm : Text) (has_template : Bool)
    → first_in norm deny_substrings ≡ none
    → first_in norm deny_roles ≡ none
    → check_normalized norm has_template
      ≡ tests
          (has_role_membership_escalation norm)
          (is_bare_role_membership_grant norm)
          (found (first_prefix norm allow_prefixes))
          (contains_text norm (codes "password") && not has_template)
unfolding check_normalized
check_normalized-tests norm has_template e f = rw (e, check_normalized, f) refl

refused-substring :
    (norm bad : Text) (has_template : Bool)
    → first_in norm deny_substrings ≡ some bad
    → check_normalized norm has_template ≡ some (disallowed bad)
unfolding check_normalized
refused-substring norm bad has_template e = rw (e, check_normalized) refl

refused-role :
    (norm bad : Text) (has_template : Bool)
    → first_in norm deny_substrings ≡ none
    → first_in norm deny_roles ≡ some bad
    → check_normalized norm has_template ≢ none
unfolding check_normalized
refused-role norm bad has_template e f =
    rw (e, check_normalized, f)
      (elim (has_role_membership_escalation norm)
        as (λ b.
          (if b
            then some role_membership
            else if is_bare_role_membership_grant norm
            then some bare_grant
            else some (disallowed bad))
          ≢ none) [
            | true ↦ λ h. cc
            | false ↦
                elim (is_bare_role_membership_grant norm)
                  as (λ b. (if b then some bare_grant else some (disallowed bad)) ≢ none) [
                    | true ↦ λ h. cc
                    | false ↦ λ h. cc
                  ]
          ])

template-needed :
    (password has_template : Bool)
    → (password && not has_template) ≡ false
    → password ≡ true
    → has_template ≡ true
template-needed password has_template h p = ground arith

check_normalized-IsAllowed :
    (norm : Text) (has_template : Bool)
    → check_normalized norm has_template ≡ none
    → IsAllowed norm has_template
check_normalized-IsAllowed norm has_template h =
    elim (Option-cases (first_in norm deny_substrings)) [
      | inr (bad, e) ↦ absurd (some_ne_none (sym (refused-substring norm bad has_template e) ∙ h))
      | inl e ↦ elim (Option-cases (first_in norm deny_roles)) [
        | inr (bad, f) ↦ absurd (refused-role norm bad has_template e f h)
        | inl f ↦
            let (r, b, v, w) =
              tests-none _ _ _ _ (sym (check_normalized-tests norm has_template e f) ∙ h) in
            (
              first_in-none norm deny_substrings e,
              first_in-none norm deny_roles f,
              first_prefix-found norm allow_prefixes v,
              r,
              b,
              λ p. template-needed _ has_template w p,
            )
      ]
    ]

-- An accepted statement is not empty, has no semicolon but at its end, and is, without its comments, in
-- small letters and with single spaces, an allowed one.
pub validate_one-IsAllowed :
    (stmt : Text)
    → validate_one stmt ≡ none
    → (is_empty (trim_space stmt) ≡ false)
      × (contains_byte (body_of (trim_space stmt)) b';' ≡ false)
      × IsAllowed
          (normalize_managed_sql (body_of (trim_space stmt)))
          (contains_text (trim_space stmt) (codes "{{"))
unfolding validate_one
validate_one-IsAllowed stmt h =
    (ground arith, ground arith, check_normalized-IsAllowed _ _ (ground arith))

-- Every statement of an accepted list is accepted.
pub validate_from-each :
    (i : ℕ) (stmts : List Text)
    → validate_from i stmts ≡ none
    → (stmt : Text) → In stmt stmts
    → validate_one stmt ≡ none
unfolding validate_from
validate_from-each i [] h stmt m = absurd m
validate_from-each i (s ∷ stmts) h stmt m = elim (Option-cases (validate_one s)) [
  | inr (e, p) ↦ absurd (ground arith)
  | inl p ↦ elim m [
    | inl q ↦ ground arith
    | inr m ↦ validate_from-each (suc i) stmts (ground arith) stmt m
  ]
]
