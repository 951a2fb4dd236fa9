-- ===== src/Auth/Roles.antt =====
-- internal/auth/role_binding.go, role_resolver.go and the table of roles in internal/auth/rbac.go:
-- which service accounts a role takes, and which policies it gives.
use knxvault.Prelude.{
  is_empty, ℕ, Bool, false, ◌&&◌, ◌||◌, not, Option, none, some, List, [], ◌∷◌, ◌++◌, Text, codes,
  Text-discrete, lookup, elem, has_prefix, trim_prefix, ◌==◌, if◌then◌else◌,
}
use knxvault.Errors.{Result, ok, fail, forbidden}
use knxvault.Secrets.Paths.{trim_space}
pub mod Bindings
pub mod Tests

-- OIDCConfig
pub record OidcConfig : Type 0 where
  pub issuer : Text
  pub audience : Text
  pub jwks_url : Text
  pub max_ttl : ℕ

-- Role
pub record Role : Type 0 where
  pub name : Text
  pub policies : List Text
  pub policy_groups : List Text
  pub bound_names : List Text
  pub bound_namespaces : List Text
  pub auth_method : Text
  pub oidc : Option OidcConfig
  pub require_mfa : Bool

-- Role.Validate, as the test that passes.
unfoldable pub validate_role : Role → Bool
validate_role r = not (is_empty r.name) && not (is_empty r.policies)

-- ServiceAccountIdentity
pub record ServiceAccountIdentity : Type 0 where
  pub namespace : Text
  pub name : Text
  pub username : Text

-- containsString
abbrev pub contains_string : List Text → Text → Bool
contains_string items want = elem Text-discrete want items

-- A list that is empty, that holds the text, or that holds a star.
abbrev pub takes : List Text → Text → Bool
takes bound t = is_empty bound || (contains_string bound t || contains_string bound (codes "*"))

-- MatchServiceAccountBinding; `none` is a nil role.
unfoldable pub match_service_account_binding :
    Option Role → ServiceAccountIdentity → Result (Unit {0})
match_service_account_binding none id = ok tt
match_service_account_binding (some role) id =
    if is_empty role.bound_names && is_empty role.bound_namespaces
    then fail forbidden (codes "kubernetes role requires service account bindings")
    else if is_empty id.namespace || is_empty id.name
    then fail forbidden (codes "service account identity required")
    else if not (takes role.bound_namespaces id.namespace)
    then fail forbidden (codes "service account namespace not bound to role")
    else if not (takes role.bound_names id.name)
    then fail forbidden (codes "service account name not bound to role")
    else ok tt

-- strings.SplitN(s, ":", 2), where there are two parts.
unfoldable pub split_colon : Text → Option (Text × Text)
split_colon [] = none
split_colon (c ∷ s) =
    let rest = split_colon s in
    if c == b':'
    then some ([], s)
    else elim rest [ none ↦ none | some parts ↦ some (c ∷ parts.0, parts.1) ]

abbrev pub account_prefix : Text
account_prefix = codes "system:serviceaccount:"

-- ParseServiceAccountUsername
unfoldable pub parse_service_account : Text → Option ServiceAccountIdentity
unfolding split_colon has_prefix trim_prefix
parse_service_account username =
    if not (has_prefix username account_prefix)
    then none
    else elim (split_colon (trim_prefix username account_prefix)) [
      | none ↦ none
      | some parts ↦
          if is_empty parts.0 || is_empty parts.1
          then none
          else some (record { namespace = parts.0; name = parts.1; username = username })
    ]

-- RolePolicies
abbrev pub role_policies : List (Text × List Text)
role_policies =
    (codes "admin", codes "admin" ∷ [])
    ∷ (codes "pki-admin", codes "pki-admin" ∷ [])
    ∷ (codes "secrets-admin", codes "secrets-admin" ∷ [])
    ∷ (codes "secrets-reader", codes "secrets-reader" ∷ [])
    ∷ (codes "audit-reader", codes "audit-reader" ∷ [])
    ∷ (codes "policy-admin", codes "policy-admin" ∷ [])
    ∷ (codes "inject-reader", codes "inject-reader" ∷ [])
    ∷ (codes "default", codes "secrets-reader" ∷ [])
    ∷ []

-- PoliciesForRole
unfoldable pub policies_for_role : Text → List Text
policies_for_role role = elim (lookup Text-discrete (trim_space role) role_policies) [
  | some policies ↦ policies
  | none ↦ codes "secrets-reader" ∷ []
]

-- The loop of flattenRolePolicies.
unfoldable pub flatten_from : List Text → List Text → List Text
flatten_from seen [] = []
flatten_from seen (name ∷ names) =
    let skipped = flatten_from seen names in
    let rest = flatten_from (name ∷ seen) names in
    if is_empty name || elem Text-discrete name seen then skipped else name ∷ rest

-- flattenRolePolicies
unfoldable pub flatten_role_policies : List Text → List Text → List Text
unfolding flatten_from
flatten_role_policies policies groups =
    if is_empty groups then policies else flatten_from [] (policies ++ groups)

-- The resolver, over what the repository of roles gives: `none` where it gives an error.
module _ (stored : Text → Option Role) where
  -- GetRole
  unfoldable pub get_role : Text → Option Role
  unfolding policies_for_role
  get_role name = elim (stored name) [
    | some role ↦ some role
    | none ↦
        if is_empty (policies_for_role name)
        then none
        else some (record {
          name = name;
          policies = policies_for_role name;
          policy_groups = [];
          bound_names = [];
          bound_namespaces = [];
          auth_method = [];
          oidc = none;
          require_mfa = false;
        })
  ]

  -- RepositoryRoleResolver.PoliciesForRole
  unfoldable pub resolve_role_policies : Text → List Text
  unfolding flatten_role_policies get_role
  resolve_role_policies role = elim (get_role role) [
    | some r ↦ flatten_role_policies r.policies r.policy_groups
    | none ↦ policies_for_role role
  ]
