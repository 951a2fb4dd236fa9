-- ===== src/Repos/Policies.antt =====
-- The repository of policies, internal/repository/memory/policy_repository.go.
use knxvault.Prelude.{
  [], Bool, true, false, none, some, List, Text, codes, str_eq, Text-discrete, insert,
  if◌then◌else◌, not,
}
use knxvault.Errors.{Result, ok, fail, validation}
use knxvault.Auth.Policy.{Policy, validate}
use knxvault.Secrets.Engine.Listing.{text_lt}
use knxvault.Repos.{Table, Outcome, nil_uuid, find, remove, values, sort_by}

-- Whether Validate returns no error.
unfoldable pub accepts : Policy → Bool
unfolding validate
accepts policy = elim (validate policy) [ none ↦ true | some _ ↦ false ]

-- The assignment of Save to the identifier; the identifier that uuid.New gives is an argument.
unfoldable pub with_id : Text → Policy → Policy
unfolding Text-discrete
with_id new_id policy = record policy {
  id = if str_eq policy.id nil_uuid then new_id else policy.id;
}

-- Save. It also leaves the identifier in the policy that it was given, so it returns the policy.
unfoldable pub save : Text → Table Policy → Policy → Outcome (Table Policy) Policy
unfolding accepts with_id
save new_id t policy =
    if not (accepts policy)
    then (t, fail validation (codes "invalid policy"))
    else (insert Text-discrete policy.name (with_id new_id policy) t, ok (with_id new_id policy))

-- GetByName
unfoldable pub get_by_name : Table Policy → Text → Result Policy
unfolding find
get_by_name t name = find (codes "policy not found") name t

-- List
unfoldable pub list : Table Policy → List Policy
unfolding sort_by values text_lt
list t = sort_by (λ a b. text_lt a.name b.name) (values t)

-- Delete
unfoldable pub delete : Table Policy → Text → Outcome (Table Policy) (Unit {0})
unfolding remove
delete t name = remove (codes "policy not found") name t

-- Clear
unfoldable pub clear : Table Policy → Table Policy
clear t = []
