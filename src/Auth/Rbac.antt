-- ===== src/Auth/Rbac.antt =====
-- internal/auth/rbac.go, authz.go and capabilities.go: the policies that are loaded, the expansion
-- of includes, and the decision.
use knxvault.Prelude.{
  is_empty, ℕ, zero, suc, ◌+◌, Bool, true, false, Option, none, some, List, [], ◌∷◌, ◌++◌, Text,
  codes, str_eq, Text-discrete, lookup, insert, delete, elem, length, if◌then◌else◌,
}
use knxvault.Auth.Policy.{Policy, effect_allow, effect_deny}
use knxvault.Auth.Conditions.{Env, RequestContext, policy_matches}
pub mod Unseen
pub mod Good
pub mod Resolve
pub mod Fuel
pub mod Decision
pub mod Authorize
pub mod Reload
pub mod Tests

-- RBAC.policies
abbrev pub Policies : Type 0
Policies = List (Text × Policy)

abbrev built_in : Text → List Text → List Text → Text × Policy
built_in name resources actions = (
  name,
  record {
    id = [];
    name = name;
    effect = effect_allow;
    resources = resources;
    actions = actions;
    capabilities = [];
    includes = [];
    conditions = [];
  },
)

-- NewRBAC
unfoldable pub new_rbac : Policies
new_rbac =
    built_in (codes "admin") (codes "*" ∷ []) (codes "*" ∷ [])
    ∷ built_in (codes "pki-admin") (codes "pki/*" ∷ []) (codes "*" ∷ [])
    ∷ built_in (codes "secrets-admin") (codes "secrets/*" ∷ []) (codes "*" ∷ [])
    ∷ built_in (codes "secrets-reader") (codes "secrets/*" ∷ []) (codes "read" ∷ [])
    ∷ built_in (codes "audit-reader") (codes "audit/*" ∷ []) (codes "read" ∷ [])
    ∷ built_in (codes "policy-admin") (codes "sys/policies" ∷ codes "sys/roles" ∷ [])
        (codes "*" ∷ [])
    ∷ built_in (codes "inject-reader") (codes "inject/*" ∷ []) (codes "read" ∷ [])
    ∷ built_in (codes "agent-delegator") (codes "auth/agent/*" ∷ []) (codes "write" ∷ [])
    ∷ []

-- UpsertPolicy
unfoldable pub upsert_policy : Policy → Policies → Policies
upsert_policy policy policies = insert Text-discrete policy.name policy policies

-- DeletePolicy
unfoldable pub delete_policy : Text → Policies → Policies
delete_policy name policies = delete Text-discrete name policies

-- The loop of LoadPolicies.
unfoldable pub load_from : Policies → List Policy → Policies
load_from loaded [] = loaded
load_from loaded (p ∷ ps) = load_from (insert Text-discrete p.name p loaded) ps

-- LoadPolicies
unfoldable pub load_policies : List Policy → Policies
unfolding load_from
load_policies policies = load_from [] policies

-- The loop of ReloadFromPersisted; `none` is a nil pointer.
unfoldable pub overlay : Policies → List (Option Policy) → Policies
overlay fresh [] = fresh
overlay fresh (none ∷ ps) = overlay fresh ps
overlay fresh (some p ∷ ps) = overlay (upsert_policy p fresh) ps

-- ReloadFromPersisted
unfoldable pub reload_from_persisted : List (Option Policy) → Policies
unfolding overlay
reload_from_persisted policies = overlay new_rbac policies

-- NormalizeCapabilities
unfoldable pub normalize_capabilities : List Text → List Text → List Text
normalize_capabilities capabilities actions =
    if is_empty capabilities then actions else capabilities

-- What `walk` changes: the names seen, and the names put out.
pub record Walk : Type 0 where
  pub seen : List Text
  pub out : List Text

-- The closure `walk` of ResolvePolicyNames, over the includes that a policy map gives. The fuel
-- bounds how deep the calls nest.
module _ (policies : Policies) where
  -- The Includes of the policy of a name.
  unfoldable pub includes_of : Text → Option (List Text)
  includes_of name = elim (lookup Text-discrete name policies) [
    | none ↦ none
    | some p ↦ some p.includes
  ]

  -- A name that was not seen: what is put out, with and without a loaded policy.
  unfoldable pub visit_new : (List Text → Walk → Walk) → Text → Walk → Option (List Text) → Walk
  visit_new inner name w none = record w { out = w.out ++ name ∷ [] }
  visit_new inner name w (some included) =
      let after = inner included w in record after { out = after.out ++ name ∷ [] }

  -- The body of the loop, over a call of `walk` on the includes.
  unfoldable pub visit : (List Text → Walk → Walk) → Text → Walk → Walk
  unfolding visit_new
  visit inner name w =
      if elem Text-discrete name w.seen
      then w
      else visit_new inner name (record w { seen = name ∷ w.seen }) (includes_of name)

  unfoldable pub each : (List Text → Walk → Walk) → List Text → Walk → Walk
  each inner [] w = w
  each inner (name ∷ batch) w = each inner batch (visit inner name w)

  unfoldable pub walk : ℕ → List Text → Walk → Walk
  unfolding each visit includes_of
  walk zero batch w = w
  walk (suc fuel) batch w = each (walk fuel) batch w

  -- ResolvePolicyNames
  unfoldable pub resolve_policy_names : List Text → List Text
  unfolding walk
  resolve_policy_names names =
      (walk (suc (length policies)) names (record { seen = []; out = [] })).out

pub data Reason : Type 0 where
  explicit_deny default_deny : Reason
  allowed_by : Text → Reason

pub record AuthzResult : Type 0 where
  pub allowed : Bool
  pub matched_policy : Text
  pub reason : Reason
  pub denied_by : Text

module _ (env : Env) (policies : Policies) (resource action : Text) (req : RequestContext) where
  -- The policy of a name, with its actions normalised, matches the request.
  unfoldable pub applies : Policy → Bool
  applies p =
      policy_matches env (record p { actions = normalize_capabilities p.capabilities p.actions })
        resource action req

  -- The loop of AuthorizeDetailed; the last argument is `matchedAllow`, `none` while not allowed.
  unfoldable pub authorize_loop : List Text → Option Text → AuthzResult
  authorize_loop [] none = record {
    allowed = false;
    matched_policy = [];
    reason = default_deny;
    denied_by = [];
  }
  authorize_loop [] (some name) = record {
    allowed = true;
    matched_policy = name;
    reason = allowed_by name;
    denied_by = [];
  }
  authorize_loop (name ∷ names) matched = elim (lookup Text-discrete name policies) [
    | none ↦ authorize_loop names matched
    | some p ↦ elim (applies p) [
      | false ↦ authorize_loop names matched
      | true ↦ elim (str_eq p.effect effect_deny) [
        | true ↦ record {
          allowed = false;
          matched_policy = p.name;
          reason = explicit_deny;
          denied_by = p.name;
        }
        | false ↦ authorize_loop names (some p.name)
      ]
    ]
  ]

  -- AuthorizeDetailed
  unfoldable pub authorize_detailed : List Text → AuthzResult
  unfolding authorize_loop
  authorize_detailed names = authorize_loop names none

  -- Authorize
  unfoldable pub authorize : List Text → Bool
  unfolding authorize_detailed
  authorize names = (authorize_detailed (resolve_policy_names policies names)).allowed
