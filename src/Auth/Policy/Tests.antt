-- ===== src/Auth/Policy/Tests.antt =====
-- Tests of the matchers and of the conditions on concrete patterns and requests.
use knxvault.Prelude.{
  ◌≡◌, ◌↔◌, refl, true, false, some, List, [], ◌∷◌, Text, codes, Text-discrete, lookup, In, length,
  arith,
}
use knxvault.Auth.Glob.{glob_match, match_glob}
use knxvault.Auth.Glob.Relation.{Matches}
use knxvault.Auth.Glob.Loops.{NoSlash}
use knxvault.Auth.Glob.Decides.{AnyText, match_glob-Matches, glob_match-Matches}
use knxvault.Auth.Glob.Literal.{IsPlain}
use knxvault.Auth.Policy.{
  Value, str, any_list, validate, ambiguous_glob, effect_allow, match_resource_legacy,
}
use knxvault.Auth.Conditions.{Env, RequestContext, string_at, conditions_match}
use knxvault.Auth.Conditions.Fit.{Covers, entries, conditions_match-Covers}

abbrev pattern : Text
pattern = codes "pki/*/issue"

abbrev resource : Text
resource = codes "pki/web/issue"

match_glob_test : match_glob pattern resource ≡ true
unfolding match_glob knxvault.Auth.Glob.same_byte knxvault.Auth.Glob.at_end
match_glob_test = refl

match_glob-Matches_example : (match_glob pattern resource ≡ true) ↔ Matches NoSlash pattern resource
match_glob-Matches_example = match_glob-Matches pattern resource

glob_match-Matches_example : (glob_match pattern resource ≡ true) ↔ Matches AnyText pattern resource
glob_match-Matches_example = glob_match-Matches pattern resource

abbrev base : Text
base = codes "pki/"

plain : IsPlain base
plain = ground arith

-- Addresses and networks are texts, a network contains every address, and the time of a text is
-- its number of bytes.
abbrev env : Env
env = record {
  Ip = Text;
  Network = Text;
  parse_ip = λ t. some t;
  parse_cidr = λ t. some t;
  contains = λ n ip. true;
  parse_rfc3339 = λ t. some (length t);
  clock = 7;
}

abbrev request : RequestContext
request = record {
  client_ip = codes "10.0.0.1";
  namespace = [];
  resource = [];
  action = [];
  agent_id = [];
  now = 0;
  cluster = [];
  environment = [];
  request_path = [];
  request_id = [];
  resource_labels = [];
}

abbrev from_net : List (Text × Value)
from_net = (codes "ip_cidr", any_list (some (codes "10.0.0.0/8") ∷ [])) ∷ []

conditions_match_test : conditions_match env from_net request ≡ true
unfolding conditions_match knxvault.Auth.Conditions.ip_holds lookup Text-discrete
    knxvault.Auth.Conditions.any_entry knxvault.Auth.Conditions.window_holds string_at
    knxvault.Auth.Conditions.scope_holds knxvault.Auth.Conditions.labels_hold
conditions_match_test = refl

conditions_match-Covers_example :
    (ip : Text) × (some request.client_ip ≡ some ip)
    × ((p : Text) × In (some p) (entries (any_list (some (codes "10.0.0.0/8") ∷ [])))
        × Covers env request.client_ip ip p)
unfolding lookup Text-discrete
conditions_match-Covers_example =
    conditions_match-Covers env from_net request (any_list (some (codes "10.0.0.0/8") ∷ [])) refl
      (λ e. cc) conditions_match_test

abbrev window : List (Text × Value)
window =
    (codes "time_after", str (codes "five")) ∷ (codes "time_before", str (codes "at eight")) ∷ []

window_test : conditions_match env window request ≡ true
unfolding conditions_match knxvault.Auth.Conditions.ip_holds lookup Text-discrete
    knxvault.Auth.Conditions.window_holds string_at knxvault.Auth.Conditions.scope_holds
    knxvault.Auth.Conditions.labels_hold
window_test = refl

-- Two wildcards of two stars are ambiguous.
validate_test :
    validate (record {
      id = [];
      name = codes "p";
      effect = effect_allow;
      resources = codes "**/a/**" ∷ [];
      actions = codes "read" ∷ [];
      capabilities = [];
      includes = [];
      conditions = [];
    })
    ≡ some (ambiguous_glob (codes "**/a/**"))
unfolding validate Text-discrete knxvault.Prelude.contains_any knxvault.Prelude.count_pair
validate_test = refl

-- The legacy matcher takes a star inside a pattern literally.
match_resource_legacy_test : match_resource_legacy pattern resource ≡ false
unfolding match_resource_legacy Text-discrete knxvault.Prelude.has_suffix
match_resource_legacy_test = refl
