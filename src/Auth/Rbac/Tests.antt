-- ===== src/Auth/Rbac/Tests.antt =====
-- Tests of the decision on a small set of policies that include each other in a cycle.
use knxvault.Prelude.{
  ◌≡◌, ◌≢◌, ◌↔◌, refl, true, false, none, some, List, [], ◌∷◌, Text, codes, Text-discrete, lookup,
  In, arith,
}
use knxvault.Auth.Policy.{Policy, effect_allow, effect_deny}
use knxvault.Auth.Conditions.{Env, RequestContext}
use knxvault.Auth.Rbac.{load_policies, delete_policy, walk, resolve_policy_names, authorize}
use knxvault.Auth.Rbac.Resolve.{Reaches, fresh, resolve_policy_names_iff}
use knxvault.Auth.Rbac.Fuel.{resolve_policy_names-depth}
use knxvault.Auth.Rbac.Decision.{Active}
use knxvault.Auth.Rbac.Authorize.{authorize_iff}

abbrev env : Env
env = record {
  Ip = Text;
  Network = Text;
  parse_ip = λ t. some t;
  parse_cidr = λ t. none;
  contains = λ n ip. false;
  parse_rfc3339 = λ t. none;
  clock = 1;
}

abbrev request : RequestContext
request = record {
  client_ip = [];
  namespace = [];
  resource = [];
  action = [];
  agent_id = [];
  now = 1;
  cluster = [];
  environment = [];
  request_path = [];
  request_id = [];
  resource_labels = [];
}

abbrev policy : Text → Text → Text → List Text → Policy
policy name effect resource included = record {
  id = [];
  name = name;
  effect = effect;
  resources = resource ∷ [];
  actions = codes "read" ∷ [];
  capabilities = [];
  includes = included;
  conditions = [];
}

-- `team` includes `ban`, which includes `team`.
abbrev loaded : List Policy
loaded =
    policy (codes "team") effect_allow (codes "app/*") (codes "ban" ∷ [])
    ∷ policy (codes "ban") effect_deny (codes "app/keys") (codes "team" ∷ [])
    ∷ []

abbrev names : List Text
names = codes "team" ∷ []

abbrev resource : Text
resource = codes "app/web"

abbrev action : Text
action = codes "read"

resolve_policy_names_test :
    resolve_policy_names (load_policies loaded) names ≡ codes "ban" ∷ codes "team" ∷ []
unfolding resolve_policy_names knxvault.Prelude.elem lookup load_policies knxvault.Prelude.insert
    Text-discrete
resolve_policy_names_test = refl

resolve_policy_names_iff_example :
    In (codes "ban") (resolve_policy_names (load_policies loaded) names)
    ↔ Reaches (load_policies loaded) names (codes "ban")
resolve_policy_names_iff_example =
    resolve_policy_names_iff (load_policies loaded) names (codes "ban")

resolve_policy_names-depth_example :
    (walk (load_policies loaded) 9 names (fresh (load_policies loaded))).out
    ≡ resolve_policy_names (load_policies loaded) names
unfolding load_policies knxvault.Prelude.insert Text-discrete
resolve_policy_names-depth_example =
    resolve_policy_names-depth (load_policies loaded) names 9 (omega arith)

authorize_iff_example :
    (authorize env (load_policies loaded) resource action request names ≡ true) ↔ (
      ((name : Text) × (p : Policy) × Reaches (load_policies loaded) names name
        × Active env (load_policies loaded) resource action request name p
        × (p.effect ≢ effect_deny))
      × ((name : Text) (p : Policy)
          → Reaches (load_policies loaded) names name
          → Active env (load_policies loaded) resource action request name p
          → p.effect ≢ effect_deny))
authorize_iff_example = authorize_iff env (load_policies loaded) resource action request names

delete_policy_test :
    lookup Text-discrete (codes "ban") (delete_policy (codes "ban") (load_policies loaded)) ≡ none
unfolding delete_policy load_policies lookup knxvault.Prelude.delete knxvault.Prelude.insert
    Text-discrete
delete_policy_test = refl
