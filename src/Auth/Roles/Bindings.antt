-- ===== src/Auth/Roles/Bindings.antt =====
-- Which service accounts a role takes, how their names are read, and what an unknown role gives.
use knxvault.Prelude.{
  is_empty, ◌≡◌, ◌≢◌, ◌⊎◌, ◌↔◌, inl, inr, refl, sym, ap, ◌∙◌, true, ◌||◌, Option, none, some, List,
  [], ◌∷◌, ◌++◌, Text, codes, Text-discrete, In, In_of-elem, elem_of-In, has_prefix,
  append_of-has_prefix, trim_prefix, arith, Bool-cases, Option-cases, if◌then◌else◌,
}
use knxvault.Errors.{ok}
use knxvault.Auth.Roles.{
  Role, ServiceAccountIdentity, takes, match_service_account_binding, split_colon, account_prefix,
  parse_service_account,
}

-- A bound list takes a text: it is empty, or holds the text or a star.
abbrev pub Takes : List Text → Text → Type 0
Takes bound t = (bound ≡ []) ⊎ (In t bound ⊎ In (codes "*") bound)

takes_iff : (bound : List Text) (t : Text) → (takes bound t ≡ true) ↔ Takes bound t
takes_iff bound t =
    let star = codes "*" in
    (
      λ h. ground (arith, In_of-elem Text-discrete t bound, In_of-elem Text-discrete star bound),
      λ h. ground (arith, elem_of-In Text-discrete t bound, elem_of-In Text-discrete star bound),
    )

-- A role takes a service account exactly when it binds names or namespaces, the account has both a
-- name and a namespace, and each list that the role binds has the account's or a star.
pub match_service_account_binding_iff :
    (role : Role) (id : ServiceAccountIdentity)
    → (match_service_account_binding (some role) id ≡ ok tt) ↔ (
        ((role.bound_names ≢ []) ⊎ (role.bound_namespaces ≢ []))
        × (id.namespace ≢ [])
        × (id.name ≢ [])
        × Takes role.bound_namespaces id.namespace
        × Takes role.bound_names id.name)
unfolding match_service_account_binding
match_service_account_binding_iff role id =
    let (from, to) = takes_iff role.bound_namespaces id.namespace in
    let (from', to') = takes_iff role.bound_names id.name in (λ h. ground arith, λ h. ground arith)

-- No byte of the text is a colon.
abbrev pub NoColon : Text → Type 0
NoColon [] = Unit
NoColon (c ∷ s) = (c ≢ b':') × NoColon s

split_colon_iff : (s a b : Text) → (split_colon s ≡ some (a, b)) ↔ ((s ≡ a ++ b':' ∷ b) × NoColon a)
unfolding split_colon
split_colon_iff [] [] b = (λ h. absurd (cc), λ h. absurd (ground arith))
split_colon_iff [] (x ∷ a) b = (λ h. absurd (cc), λ h. absurd (ground arith))
split_colon_iff (c ∷ s) [] b = (λ h. ground arith, λ h. ground arith)
split_colon_iff (c ∷ s) (x ∷ a) b =
    let (from, to) = split_colon_iff s a b in (λ h. ground arith, λ h. ground arith)

-- What parsing does with the text behind the prefix, split at its first colon.
abbrev read_parts : Text → Option (Text × Text) → Option ServiceAccountIdentity
read_parts username none = none
read_parts username (some (namespace, name)) =
    if is_empty namespace || is_empty name
    then none
    else some (record { namespace = namespace; name = name; username = username })

read_parts_iff :
    (username rest namespace name : Text)
    → (read_parts username (split_colon rest)
        ≡ some (record { namespace = namespace; name = name; username = username }))
      ↔ ((rest ≡ namespace ++ b':' ∷ name) × NoColon namespace × (namespace ≢ []) × (name ≢ []))
read_parts_iff username rest namespace name =
    let (from, to) = split_colon_iff rest namespace name in
    (
      λ h. elim (Option-cases (split_colon rest)) [
        | inl e ↦ absurd (ground arith)
        | inr (parts, e) ↦
            let same : split_colon rest ≡ some (namespace, name) = ground arith in
            let (a, b) = from same in (a, b, ground arith, ground arith)
      ],
      λ h. ground (arith, to (h.0, h.1)),
    )

parse-append :
    (rest : Text)
    → parse_service_account (account_prefix ++ rest)
      ≡ read_parts (account_prefix ++ rest) (split_colon rest)
unfolding parse_service_account has_prefix trim_prefix
parse-append rest = elim (Option-cases (split_colon rest)) [
  | inl q ↦ rw q refl
  | inr (parts, q) ↦ rw q refl
]

parse_prefixed :
    (username rest : Text)
    → username ≡ account_prefix ++ rest
    → parse_service_account username ≡ read_parts username (split_colon rest)
parse_prefixed username rest e = rw e (parse-append rest)

parse_prefix :
    (username : Text) (id : ServiceAccountIdentity)
    → parse_service_account username ≡ some id
    → has_prefix username account_prefix ≡ true
unfolding parse_service_account
parse_prefix username id h = elim (Bool-cases (has_prefix username account_prefix)) [
  | inl e ↦ e
  | inr e ↦ absurd (ground arith)
]

-- A username is read as a service account exactly when it is the prefix, a namespace with no colon,
-- a colon and a name, neither of them empty.
pub parse_service_account_iff :
    (username namespace name : Text)
    → (parse_service_account username
        ≡ some (record { namespace = namespace; name = name; username = username }))
      ↔ ((username ≡ account_prefix ++ (namespace ++ b':' ∷ name))
          × NoColon namespace
          × (namespace ≢ [])
          × (name ≢ []))
parse_service_account_iff username namespace name = (
  λ h.
      let (rest, e) = append_of-has_prefix username account_prefix (parse_prefix username _ h) in
      let (a, b, c, d) =
        (read_parts_iff username rest namespace name).0
          (sym (parse_prefixed username rest e) ∙ h) in
      (e ∙ ap (λ t. account_prefix ++ t) a, b, c, d),
  λ (e, b, c, d).
      parse_prefixed username (namespace ++ b':' ∷ name) e
      ∙ (read_parts_iff username (namespace ++ b':' ∷ name) namespace name).1 (refl, b, c, d),
)
