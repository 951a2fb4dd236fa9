-- ===== src/Repos/Identities.antt =====
-- MachineIdentity of internal/domain/auth/machine_identity.go and its repository,
-- internal/repository/memory/machine_identity_repository.go.
use knxvault.Prelude.{
  is_empty, ℕ, Bool, true, false, ◌||◌, List, ◌∷◌, ◌++◌, Text, codes, str_eq, Text-discrete,
  if◌then◌else◌,
}
use knxvault.Errors.{Result}
use knxvault.Secrets.Engine.Listing.{text_lt}
use knxvault.Repos.{Table, Outcome, put, find, modify, values, sort_by}

abbrev pub type_k8s_sa : Text
type_k8s_sa = codes "k8s_sa"

abbrev pub type_oidc : Text
type_oidc = codes "oidc"

abbrev pub type_api_key : Text
type_api_key = codes "api_key"

abbrev pub type_agent : Text
type_agent = codes "agent"

-- MachineIdentity
pub record MachineIdentity : Type 0 where
  pub id : Text
  pub type : Text
  pub bound_namespace : Text
  pub bound_name : Text
  pub policies : List Text
  pub max_ttl : ℕ
  pub last_seen : ℕ
  pub revoked : Bool
  pub parent_identity_id : Text

-- Validate, as the test that passes.
unfoldable pub validate : MachineIdentity → Bool
unfolding Text-discrete
validate m =
    if is_empty m.id
    then false
    else if is_empty m.type
    then false
    else str_eq m.type type_k8s_sa
      || (str_eq m.type type_oidc || (str_eq m.type type_api_key || str_eq m.type type_agent))

-- NHIKey
unfoldable pub nhi_key : Text → Text → Text → Text → Text
unfolding Text-discrete
nhi_key typ namespace name subject =
    if str_eq typ type_k8s_sa
    then codes "k8s_sa:" ++ (namespace ++ b':' ∷ name)
    else if str_eq typ type_oidc
    then codes "oidc:" ++ subject
    else typ ++ b':' ∷ subject

-- Save
unfoldable pub save :
    Table MachineIdentity → MachineIdentity → Outcome (Table MachineIdentity) (Unit {0})
unfolding validate put
save t m = put (validate m) (codes "invalid machine identity") m.id m t

-- Get
unfoldable pub get : Table MachineIdentity → Text → Result MachineIdentity
unfolding find
get t id = find (codes "machine identity not found") id t

-- List
unfoldable pub list : Table MachineIdentity → List MachineIdentity
unfolding sort_by values text_lt
list t = sort_by (λ a b. text_lt a.id b.id) (values t)

abbrev pub revoked_of : MachineIdentity → MachineIdentity
revoked_of m = record m { revoked = true }

-- Revoke
unfoldable pub revoke : Table MachineIdentity → Text → Outcome (Table MachineIdentity) (Unit {0})
unfolding modify
revoke t id = modify (codes "machine identity not found") revoked_of id t
