-- ===== src/Auth/Policy.antt =====
-- internal/domain/auth/policy.go: policies, roles and how a pattern matches a resource or action.
use knxvault.Prelude.{
  is_empty, Bool, true, ◌&&◌, ◌||◌, not, Option, none, some, List, [], ◌∷◌, ◌++◌, Text, codes,
  str_eq, has_prefix, has_suffix, trim_suffix, contains_byte, contains_any, count_pair, ltb,
  if◌then◌else◌,
}
use knxvault.Auth.Glob.{star, question, slash, glob_match}
pub mod Patterns
pub mod Tests

-- What a map[string]any of a policy can hold: nil, a string, a list of strings, a list of any
-- values (each a string or not), or a value of another type.
pub data Value : Type 0 where
  nil : Value
  str : Text → Value
  str_list : List Text → Value
  any_list : List (Option Text) → Value
  other : Value

abbrev pub effect_allow : Text
effect_allow = codes "allow"

abbrev pub effect_deny : Text
effect_deny = codes "deny"

-- Policy. The identifier is a text, as it is printed.
pub record Policy : Type 0 where
  pub id : Text
  pub name : Text
  pub effect : Text
  pub resources : List Text
  pub actions : List Text
  pub capabilities : List Text
  pub includes : List Text
  pub conditions : List (Text × Value)

pub data PolicyError : Type 0 where
  name_required invalid_effect resources_required capabilities_required : PolicyError
  ambiguous_glob : Text → PolicyError

-- The loop of Validate over the resources.
unfoldable pub check_globs : List Text → Option PolicyError
check_globs [] = none
check_globs (r ∷ rs) =
    if contains_any r star question && ltb 1 (count_pair r star star)
    then some (ambiguous_glob r)
    else check_globs rs

-- Policy.Validate
unfoldable pub validate : Policy → Option PolicyError
unfolding check_globs
validate p =
    if is_empty p.name
    then some name_required
    else if not (str_eq p.effect effect_allow) && not (str_eq p.effect effect_deny)
    then some invalid_effect
    else if is_empty p.resources
    then some resources_required
    else if is_empty p.capabilities && is_empty p.actions
    then some capabilities_required
    else check_globs p.resources

abbrev pub match_all : Text → Bool
match_all pattern = str_eq pattern (star ∷ []) || str_eq pattern (star ∷ slash ∷ star ∷ [])

abbrev pub slash_star : Text
slash_star = slash ∷ star ∷ []

-- resource == prefix || strings.HasPrefix(resource, prefix+"/")
unfoldable pub under : Text → Text → Bool
under prefix resource = str_eq resource prefix || has_prefix resource (prefix ++ slash ∷ [])

-- matchResourceGlob
unfoldable pub match_resource_glob : Text → Text → Bool
match_resource_glob pattern resource =
    if match_all pattern then true else glob_match pattern resource

-- MatchResource
unfoldable pub match_resource : Text → Text → Bool
unfolding under match_resource_glob
match_resource pattern resource =
    if match_all pattern
    then true
    else if has_suffix pattern slash_star
        && (not (contains_byte (trim_suffix pattern slash_star) star)
            && not (contains_byte pattern question))
    then under (trim_suffix pattern slash_star) resource
    else if contains_any pattern star question
    then match_resource_glob pattern resource
    else str_eq pattern resource

-- MatchAction
unfoldable pub match_action : Text → Text → Bool
match_action pattern action = str_eq pattern (star ∷ []) || str_eq pattern action

-- MatchResourceLegacy of internal/auth/glob.go
unfoldable pub match_resource_legacy : Text → Text → Bool
unfolding under
match_resource_legacy pattern resource =
    if match_all pattern
    then true
    else if has_suffix pattern slash_star
    then under (trim_suffix pattern slash_star) resource
    else str_eq pattern resource
