-- ===== src/Auth/Rbac/Authorize.antt =====
-- Authorize: the decision over the policies that the given names reach.
use knxvault.Prelude.{◌≡◌, ◌≢◌, ◌↔◌, true, List, Text}
use knxvault.Auth.Policy.{Policy, effect_deny}
use knxvault.Auth.Conditions.{Env, RequestContext}
use knxvault.Auth.Rbac.{Policies, resolve_policy_names, authorize}
use knxvault.Auth.Rbac.Resolve.{Reaches, resolve_policy_names_iff}
use knxvault.Auth.Rbac.Decision.{Active, authorize_detailed_iff}

module _ (env : Env) (policies : Policies) (resource action : Text) (req : RequestContext) where
  -- Authorize allows a request exactly when some name that is reached from the given ones through
  -- includes is that of a matching policy which is no deny policy, and no name that is reached is
  -- that of a matching deny policy.
  pub authorize_iff :
      (names : List Text)
      → (authorize env policies resource action req names ≡ true) ↔ (
          ((name : Text) × (p : Policy) × Reaches policies names name
            × Active env policies resource action req name p
            × (p.effect ≢ effect_deny))
          × ((name : Text) (p : Policy)
              → Reaches policies names name
              → Active env policies resource action req name p
              → p.effect ≢ effect_deny))
  unfolding authorize
  authorize_iff names =
      let resolved = resolve_policy_names policies names in
      let decided = authorize_detailed_iff env policies resource action req resolved in
      let reached = resolve_policy_names_iff policies names in
      (
        λ h.
            let (granted, free) = decided.0 h in
            let (name, p, i, a, ne) = granted in
            ((name, p, (reached name).0 i, a, ne), λ n q r b d. free (n, q, (reached n).1 r, b, d)),
        λ h.
            let (granted, free) = h in
            let (name, p, r, a, ne) = granted in
            decided.1 (
              (name, p, (reached name).1 r, a, ne),
              λ d. free d.0 d.1 ((reached d.0).0 d.2) d.3 d.4,
            ),
      )
