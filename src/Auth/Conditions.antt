-- ===== src/Auth/Conditions.antt =====
-- internal/auth/evaluator.go: the conditions of a policy against a request, and PolicyMatches.
use knxvault.Prelude.{
  is_empty, ℕ, Bool, true, false, ◌&&◌, ◌||◌, not, Option, none, some, List, [], ◌∷◌, Text, codes,
  str_eq, Text-discrete, has_prefix, lookup, ltb, ◌==◌, if◌then◌else◌,
}
use knxvault.Auth.Policy.{Value, nil, str, str_list, any_list, Policy, match_resource, match_action}
pub mod Fit

-- What the evaluator takes from the packages net and time, and the clock. A time is a number of
-- nanoseconds since the zero time of Go, which is 0.
pub record Env : Type 1 where
  pub Ip : Type 0
  pub Network : Type 0
  pub parse_ip : Text → Option Ip
  pub parse_cidr : Text → Option Network
  pub contains : Network → Ip → Bool
  pub parse_rfc3339 : Text → Option ℕ
  pub clock : ℕ

pub record RequestContext : Type 0 where
  pub client_ip : Text
  pub namespace : Text
  pub resource : Text
  pub action : Text
  pub agent_id : Text
  pub now : ℕ
  pub cluster : Text
  pub environment : Text
  pub request_path : Text
  pub request_id : Text
  pub resource_labels : List (Text × Text)

-- strings.TrimSpace(v) == "", for the white space of ASCII.
unfoldable pub is_blank : Text → Bool
is_blank [] = true
is_blank (c ∷ s) = (c == 32 || (not (ltb c 9) && ltb c 14)) && is_blank s

-- v, ok := conditions[key].(string); ok && v != ""
unfoldable pub string_at : Text → List (Text × Value) → Option Text
string_at key conditions = elim (lookup Text-discrete key conditions) [
  | none ↦ none
  | some v ↦ elim v [ str s ↦ if is_empty s then none else some s | _ ↦ none ]
]

-- labels[key], which is "" where the key is missing.
unfoldable pub label_at : Text → List (Text × Text) → Text
label_at key labels = elim (lookup Text-discrete key labels) [ none ↦ [] | some v ↦ v ]

-- A condition that is not set holds.
abbrev pub holds : Option Text → (Text → Bool) → Bool
holds none test = true
holds (some v) test = test v

abbrev pub parsed : Option ℕ → (ℕ → Bool) → Bool
parsed none test = false
parsed (some t) test = test t

abbrev pub some_list : List Text → List (Option Text)
some_list [] = []
some_list (s ∷ ss) = some s ∷ some_list ss

module _ (env : Env) where
  open env use {Ip, Network, parse_ip, parse_cidr, contains, parse_rfc3339, clock}

  -- The body of the loop of matchIPCIDR.
  unfoldable pub entry_matches : Option Text → Text → Ip → Bool
  entry_matches none client_ip ip = false
  entry_matches (some pattern) client_ip ip =
      if is_empty pattern then false else elim (parse_cidr pattern) [
        | none ↦ str_eq pattern client_ip
        | some network ↦ contains network ip
      ]

  unfoldable pub any_entry : List (Option Text) → Text → Ip → Bool
  unfolding entry_matches
  any_entry [] client_ip ip = false
  any_entry (raw ∷ cidrs) client_ip ip =
      entry_matches raw client_ip ip || any_entry cidrs client_ip ip

  -- matchIPCIDR
  unfoldable pub match_ip_cidr : List (Option Text) → Text → Bool
  match_ip_cidr cidrs client_ip =
      if is_empty client_ip
      then false
      else elim (parse_ip client_ip) [ none ↦ false | some ip ↦ any_entry cidrs client_ip ip ]

  -- matchIPCIDRAny
  unfoldable pub match_ip_cidr_any : Value → Text → Bool
  unfolding match_ip_cidr
  match_ip_cidr_any (str v) client_ip =
      if is_blank v then false else match_ip_cidr (some v ∷ []) client_ip
  match_ip_cidr_any (any_list v) client_ip = not (is_empty v) && match_ip_cidr v client_ip
  match_ip_cidr_any (str_list v) client_ip =
      if is_empty v then false else match_ip_cidr (some_list v) client_ip
  match_ip_cidr_any _ client_ip = false

  -- The test of ip_cidr: not set, nil, or matched.
  unfoldable pub ip_holds : Option Value → Text → Bool
  unfolding match_ip_cidr_any
  ip_holds none client_ip = true
  ip_holds (some nil) client_ip = true
  ip_holds (some raw) client_ip = match_ip_cidr_any raw client_ip

  -- The label conditions.
  unfoldable pub label_holds : List (Text × Value) → List (Text × Text) → Text → Bool
  label_holds conditions labels key = elim (string_at (codes "resource_label_value") conditions) [
    | none ↦ false
    | some expected ↦ str_eq (label_at key labels) expected
  ]

  -- The conditions time_after and time_before.
  unfoldable pub window_holds : List (Text × Value) → ℕ → Bool
  window_holds conditions now =
      holds (string_at (codes "time_after") conditions)
        (λ after. parsed (parse_rfc3339 after) (λ t. not (ltb now t)))
      && holds (string_at (codes "time_before") conditions)
          (λ before. parsed (parse_rfc3339 before) (λ t. ltb now t))

  -- The conditions on the resource and on who asks for it.
  unfoldable pub scope_holds : List (Text × Value) → RequestContext → Bool
  scope_holds conditions req =
      holds (string_at (codes "path_prefix") conditions) (λ p. has_prefix req.resource p)
      && (holds (string_at (codes "namespace") conditions) (λ ns. str_eq req.namespace ns)
          && (holds (string_at (codes "agent_id") conditions) (λ a. str_eq req.agent_id a)
              && (holds (string_at (codes "cluster") conditions) (λ c. str_eq req.cluster c)
                  && (holds (string_at (codes "environment") conditions)
                        (λ e. str_eq req.environment e)
                      && holds (string_at (codes "request_path") conditions)
                          (λ p. str_eq req.request_path p || has_prefix req.request_path p)))))

  -- The conditions resource_label and owner_match.
  unfoldable pub labels_hold : List (Text × Value) → List (Text × Text) → Bool
  labels_hold conditions labels =
      holds (string_at (codes "resource_label") conditions)
        (λ key. label_holds conditions labels key)
      && holds (string_at (codes "owner_match") conditions)
          (λ owner. str_eq (label_at (codes "owner") labels) owner)

  -- The tests of ConditionsMatch, in the order of the code: each early return is a conjunct.
  unfoldable pub tests_hold : List (Text × Value) → RequestContext → ℕ → Bool
  tests_hold conditions req now =
      ip_holds (lookup Text-discrete (codes "ip_cidr") conditions) req.client_ip
      && (window_holds conditions now
          && (scope_holds conditions req && labels_hold conditions req.resource_labels))

  -- ConditionsMatch
  unfoldable pub conditions_match : List (Text × Value) → RequestContext → Bool
  unfolding tests_hold
  conditions_match conditions req =
      if is_empty conditions
      then true
      else tests_hold conditions req (if req.now == 0 then clock else req.now)

  -- The inner loop of policyMatchesResourceAction.
  unfoldable pub any_action : List Text → Text → Bool
  any_action [] action = false
  any_action (p ∷ ps) action = match_action p action || any_action ps action

  -- policyMatchesResourceAction
  unfoldable pub any_resource : List Text → List Text → Text → Text → Bool
  any_resource [] actions resource action = false
  any_resource (r ∷ rs) actions resource action =
      (if match_resource r resource then any_action actions action else false)
      || any_resource rs actions resource action

  unfoldable pub policy_matches_resource_action : Policy → Text → Text → Bool
  policy_matches_resource_action policy resource action =
      any_resource policy.resources
        (if is_empty policy.capabilities then policy.actions else policy.capabilities) resource
        action

  -- PolicyMatches
  unfoldable pub policy_matches : Policy → Text → Text → RequestContext → Bool
  policy_matches policy resource action req =
      if policy_matches_resource_action policy resource action
      then conditions_match policy.conditions (record req { resource = resource; action = action })
      else false
