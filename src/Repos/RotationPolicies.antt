-- ===== src/Repos/RotationPolicies.antt =====
-- RotationPolicy of internal/domain/secrets/rotation_policy.go and its repository,
-- internal/repository/memory/rotation_policy_repository.go.
use knxvault.Prelude.{
  is_empty, ℕ, ◌+◌, ◌-◌, ◌*◌, ◌%◌, Bool, true, false, ◌&&◌, ◌||◌, not, List, Text, codes, str_eq,
  Text-discrete, ltb, leb, ◌==◌, if◌then◌else◌,
}
use knxvault.Errors.{Result}
use knxvault.Secrets.Ttl.{word, sign, second}
use knxvault.Secrets.Engine.Listing.{text_lt}
use knxvault.Repos.{Table, Outcome, put, find, remove, values, sort_by}
pub mod Due

abbrev pub generator_random_password : Text
generator_random_password = codes "random_password"

abbrev pub generator_script_ref : Text
generator_script_ref = codes "script_ref"

-- RotationPolicy
pub record RotationPolicy : Type 0 where
  pub path : Text
  pub interval : ℕ
  pub generator : Text
  pub script_ref : Text
  pub last_rotated_at : ℕ
  pub enabled : Bool

-- Validate, as the test that passes.
unfoldable pub validate : RotationPolicy → Bool
unfolding Text-discrete
validate p =
    if is_empty p.path
    then false
    else if p.interval == 0
    then false
    else if not
        (str_eq p.generator generator_random_password || str_eq p.generator generator_script_ref)
    then false
    else not (str_eq p.generator generator_script_ref && is_empty p.script_ref)

-- Whether the time between two times is at least a product of numbers of 64 bits with a sign. The
-- product wraps around, and the difference of two times stays within the numbers of that kind.
unfoldable pub apart : ℕ → ℕ → ℕ → Bool
apart now last product =
    let wrapped = product % word in
    if ltb wrapped sign
    then leb (last + wrapped) now
    else wrapped == sign || leb last (now + (word - wrapped))

-- Due
unfoldable pub due : RotationPolicy → ℕ → Bool
unfolding apart
due p now =
    if not p.enabled
    then false
    else if p.last_rotated_at == 0
    then true
    else apart now p.last_rotated_at (p.interval * second)

-- Save
unfoldable pub save :
    Table RotationPolicy → RotationPolicy → Outcome (Table RotationPolicy) (Unit {0})
unfolding validate put
save t policy = put (validate policy) (codes "invalid rotation policy") policy.path policy t

-- Get
unfoldable pub get : Table RotationPolicy → Text → Result RotationPolicy
unfolding find
get t path = find (codes "rotation policy not found") path t

-- List
unfoldable pub list : Table RotationPolicy → List RotationPolicy
unfolding sort_by values text_lt
list t = sort_by (λ a b. text_lt a.path b.path) (values t)

-- Delete
unfoldable pub delete : Table RotationPolicy → Text → Outcome (Table RotationPolicy) (Unit {0})
unfolding remove
delete t path = remove (codes "rotation policy not found") path t
