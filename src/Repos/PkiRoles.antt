-- ===== src/Repos/PkiRoles.antt =====
-- Role of internal/domain/pki/role.go and its repository,
-- internal/repository/memory/pki_role_repository.go.
use knxvault.Prelude.{
  is_empty, ℕ, Bool, true, false, ◌&&◌, ◌||◌, not, List, [], ◌∷◌, Text, codes, str_eq,
  Text-discrete, has_suffix, if◌then◌else◌,
}
use knxvault.Errors.{Result}
use knxvault.Secrets.Paths.{trim_space, to_lower}
use knxvault.Secrets.Engine.Listing.{text_lt}
use knxvault.Repos.{Table, Outcome, put, find, values, sort_by}
pub mod Domains

-- Role
pub record PkiRole : Type 0 where
  pub name : Text
  pub ca_name : Text
  pub allowed_domains : List Text
  pub max_ttl_seconds : ℕ
  pub key_usage : Text
  pub allow_subdomains : Bool

-- normalizeAllowedDomains
unfoldable pub normalize_allowed_domains : List Text → List Text
unfolding trim_space
normalize_allowed_domains [] = []
normalize_allowed_domains (d ∷ domains) =
    let rest = normalize_allowed_domains domains in
    if is_empty (trim_space d) then rest else trim_space d ∷ rest

-- The key usages that Validate takes.
unfoldable pub known_usage : Text → Bool
unfolding Text-discrete
known_usage usage =
    is_empty usage
    || (str_eq usage (codes "server")
        || (str_eq usage (codes "client") || str_eq usage (codes "code_signing")))

-- The assignment of Validate to the key usage.
unfoldable pub with_usage : PkiRole → PkiRole
with_usage r = record r { key_usage = if is_empty r.key_usage then codes "server" else r.key_usage }

-- Validate, as the test that passes.
unfoldable pub validate : PkiRole → Bool
unfolding known_usage normalize_allowed_domains
validate r =
    if is_empty r.name
    then false
    else if is_empty r.ca_name
    then false
    else if not (known_usage r.key_usage)
    then false
    else not (is_empty (normalize_allowed_domains r.allowed_domains))

-- The loop of AllowsAnyDomain.
unfoldable pub any_star : List Text → Bool
unfolding Text-discrete trim_space
any_star [] = false
any_star (d ∷ domains) = str_eq (trim_space d) (codes "*") || any_star domains

-- AllowsAnyDomain
unfoldable pub allows_any_domain : PkiRole → Bool
unfolding any_star
allows_any_domain r = any_star r.allowed_domains

-- Whether an allowed domain, lowered, takes a name.
unfoldable pub domain_takes : Bool → Text → Text → Bool
unfolding Text-discrete has_suffix
domain_takes subdomains name allowed =
    if is_empty allowed || str_eq allowed (codes "*")
    then false
    else if str_eq allowed name
    then true
    else subdomains && has_suffix name (b'.' ∷ allowed)

-- The loop of AllowedDomain.
unfoldable pub any_takes : Bool → Text → List Text → Bool
unfolding domain_takes to_lower trim_space
any_takes subdomains name [] = false
any_takes subdomains name (d ∷ domains) =
    domain_takes subdomains name (to_lower (trim_space d)) || any_takes subdomains name domains

-- AllowedDomain
unfoldable pub allowed_domain : PkiRole → Text → Bool
unfolding any_takes allows_any_domain to_lower trim_space
allowed_domain r given =
    let name = to_lower (trim_space given) in
    if is_empty name
    then false
    else if allows_any_domain r
    then true
    else any_takes r.allow_subdomains name r.allowed_domains

-- Save; Validate sets the key usage of the role that is stored.
unfoldable pub save : Table PkiRole → PkiRole → Outcome (Table PkiRole) (Unit {0})
unfolding validate with_usage put
save t role = put (validate role) (codes "invalid pki role") role.name (with_usage role) t

-- Get
unfoldable pub get : Table PkiRole → Text → Result PkiRole
unfolding find
get t name = find (codes "pki role not found") name t

-- List
unfoldable pub list : Table PkiRole → List PkiRole
unfolding sort_by values text_lt
list t = sort_by (λ a b. text_lt a.name b.name) (values t)

-- Clear
unfoldable pub clear : Table PkiRole → Table PkiRole
clear t = []
