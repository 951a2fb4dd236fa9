-- ===== src/Repos/DatabaseRoles/Managed.antt =====
-- The managed database roles that a repository holds.
use knxvault.Prelude.{
  ◌≡◌, ◌⊎◌, inl, inr, refl, ◌∙◌, ap, is_empty, Bool, true, false, ◌||◌, not, Option, none, some,
  List, [], ◌∷◌, Text, codes, str_eq, Text-discrete, lookup, In, arith, Option-cases, if◌then◌else◌,
  ◌==◌, ℕ,
}
use knxvault.Errors.{ok}
use knxvault.Secrets.Sql.{SqlError, validate_one, validate_statements}
use knxvault.Secrets.Sql.Allowed.{validate_from-each}
use knxvault.Secrets.DatabaseConfig.{
  mode_managed, validate_execution_mode, validate_admin_path, validate_map,
}
use knxvault.Repos.{Table, find}
use knxvault.Repos.Keyed.{lookup-Keyed}
use knxvault.Repos.Kept.{DatabaseRolesValid}
use knxvault.Repos.DatabaseRoles.{
  DatabaseRole, config_value, is_strict, accepted, managed_checks, checks, get,
}

-- The tests of managed_checks, and of checks.
abbrev five : Bool → Bool → Bool → Bool → Bool → Bool
five a b c d e =
    if a then false else if b then false else if not c then false else if not d then false else e

five-true :
    (a b c d e : Bool)
    → five a b c d e ≡ true
    → (a ≡ false) × (b ≡ false) × (c ≡ true) × (d ≡ true) × (e ≡ true)
five-true true b c d e h = absurd (cc)
five-true false true c d e h = absurd (cc)
five-true false false false d e h = absurd (cc)
five-true false false true false e h = absurd (cc)
five-true false false true true e h = (refl, refl, refl, refl, h)

accepted-none : (o : Option (ℕ × SqlError)) → accepted o ≡ true → o ≡ none
accepted-none none h = refl
accepted-none (some e) h = absurd (cc)

either : (a b : Bool) → (a || b) ≡ true → (a ≡ true) ⊎ (b ≡ true)
either true b h = inl refl
either false b h = inr h

empty-In : (stmts : List Text) (stmt : Text) → is_empty stmts ≡ true → In stmt stmts → ⊥
empty-In [] stmt h i = i
empty-In (s ∷ stmts) stmt h i = absurd (cc)

-- What a managed role is: it has a path to its credentials and statements to create a user, it is
-- strict, and every statement of it is accepted.
abbrev pub IsManaged : DatabaseRole → Type 0
IsManaged r =
    (is_empty r.admin_credentials_path ≡ false)
    × (is_empty r.creation_statements ≡ false)
    × (is_strict (config_value (codes "sql_strict") r.config) ≡ true)
    × ((stmt : Text)
        → In stmt r.creation_statements ⊎ In stmt r.revocation_statements
        → validate_one stmt ≡ none)

managed_checks-IsManaged : (r : DatabaseRole) → managed_checks r ≡ true → IsManaged r
unfolding managed_checks validate_statements
managed_checks-IsManaged r h =
    let (a, b, c, d, e) = five-true _ _ _ _ _ h in
    (
      a,
      b,
      c,
      λ stmt i. elim i [
        | inl j ↦ validate_from-each 0 r.creation_statements (accepted-none _ d) stmt j
        | inr j ↦ elim (either _ _ e) [
          | inl n ↦ absurd (empty-In r.revocation_statements stmt n j)
          | inr f ↦ validate_from-each 0 r.revocation_statements (accepted-none _ f) stmt j
        ]
      ],
    )

-- The last test of checks.
last-true :
    (a b c d e f m : Bool) (x : Bool)
    → (if a
        then false
        else if b
        then false
        else if c
        then false
        else if d
        then false
        else if e
        then false
        else if f
        then false
        else if m
        then x
        else true)
      ≡ true
    → m ≡ true
    → x ≡ true
last-true a b c d e f m x h p = ground arith

checked-managed :
    (url_password : Text → Bool) (r : DatabaseRole)
    → checks url_password r ≡ true
    → str_eq r.execution_mode mode_managed ≡ true
    → managed_checks r ≡ true
unfolding checks
checked-managed url_password r h m =
    last-true (is_empty r.name) (r.limits.ttl_seconds == 0) (is_empty r.username_prefix)
      (not (validate_execution_mode r.execution_mode))
      (not (validate_admin_path r.admin_credentials_path))
      (not (validate_map url_password r.config)) (str_eq r.execution_mode mode_managed)
      (managed_checks r) h m

-- A role that a repository with checked roles gives for a name has that name, and if it is in managed
-- mode it is a managed role: no statement that it runs was left unchecked.
pub get-IsManaged :
    (url_password : Text → Bool) (t : Table DatabaseRole) (name : Text) (role : DatabaseRole)
    → DatabaseRolesValid url_password t
    → get t name ≡ ok role
    → (name ≡ role.name) × (str_eq role.execution_mode mode_managed ≡ true → IsManaged role)
unfolding get find
get-IsManaged url_password t name role v h = elim (Option-cases (lookup Text-discrete name t)) [
  | inl e ↦ absurd (ground arith)
  | inr (r, e) ↦
      let same : r ≡ role = ground arith in
      let (p, g) = lookup-Keyed _ (checks url_password) name role t v (e ∙ ap some same) in
      (p, λ m. managed_checks-IsManaged role (checked-managed url_password role g m))
]
