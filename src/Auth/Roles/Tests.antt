-- ===== src/Auth/Roles/Tests.antt =====
-- Tests of the bindings of a role, and of a role that nobody stored.
use knxvault.Prelude.{◌≡◌, refl, none, some, [], ◌∷◌, codes, true, false}
use knxvault.Errors.{ok}
use knxvault.Auth.Roles.{
  Role, ServiceAccountIdentity, match_service_account_binding, flatten_role_policies,
  resolve_role_policies, validate_role,
}

abbrev role : Role
role = record {
  name = codes "r";
  policies = codes "p" ∷ [];
  policy_groups = codes "g" ∷ codes "p" ∷ [];
  bound_names = codes "*" ∷ [];
  bound_namespaces = codes "web" ∷ [];
  auth_method = codes "kubernetes";
  oidc = none;
  require_mfa = false;
}

abbrev account : ServiceAccountIdentity
account = record { namespace = codes "web"; name = codes "api"; username = [] }

binding_test : match_service_account_binding (some role) account ≡ ok tt
unfolding match_service_account_binding knxvault.Prelude.elem knxvault.Prelude.Text-discrete
binding_test = refl

flatten_test : flatten_role_policies role.policies role.policy_groups ≡ codes "p" ∷ codes "g" ∷ []
unfolding flatten_role_policies knxvault.Prelude.elem knxvault.Prelude.Text-discrete
flatten_test = refl

-- A role that the repository does not give is still a role, with the policy of a reader.
unknown_role_test :
    resolve_role_policies (λ name. none) (codes "no-such-role") ≡ codes "secrets-reader" ∷ []
unfolding resolve_role_policies knxvault.Prelude.lookup knxvault.Prelude.Text-discrete
    knxvault.Secrets.Paths.trim_space
unknown_role_test = refl

validate_role_test : validate_role role ≡ true
unfolding validate_role
validate_role_test = refl
