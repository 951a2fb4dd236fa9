-- ===== src/Auth/Rbac/Reload.antt =====
-- What is loaded after LoadPolicies and ReloadFromPersisted.
use knxvault.Prelude.{
  ◌≡◌, refl, Option, none, some, List, [], ◌∷◌, Text, Text-discrete, lookup, insert, lookup-insert,
  arith, str_eq, if◌then◌else◌,
}
use knxvault.Auth.Policy.{Policy}
use knxvault.Auth.Rbac.{
  Policies, new_rbac, upsert_policy, load_from, load_policies, overlay, reload_from_persisted,
}

-- The last policy of a name in a list.
abbrev pub last_named : Text → List Policy → Option Policy
last_named name [] = none
last_named name (p ∷ ps) = elim (last_named name ps) [
  | some q ↦ some q
  | none ↦ if str_eq p.name name then some p else none
]

-- The policies behind the pointers that are not nil.
abbrev pub present : List (Option Policy) → List Policy
present [] = []
present (none ∷ ps) = present ps
present (some p ∷ ps) = p ∷ present ps

abbrev pub or_else : Option Policy → Option Policy → Option Policy
or_else (some p) q = some p
or_else none q = q

load_from-lookup :
    (ps : List Policy) (loaded : Policies) (name : Text)
    → lookup Text-discrete name (load_from loaded ps)
      ≡ or_else (last_named name ps) (lookup Text-discrete name loaded)
unfolding load_from
load_from-lookup [] loaded name = refl
load_from-lookup (p ∷ ps) loaded name = ground (
  arith,
  load_from-lookup ps (insert Text-discrete p.name p loaded) name,
  lookup-insert Text-discrete p.name name p loaded,
)

overlay-load_from :
    (ps : List (Option Policy)) (fresh : Policies) → overlay fresh ps ≡ load_from fresh (present ps)
unfolding overlay load_from upsert_policy
overlay-load_from [] fresh = refl
overlay-load_from (none ∷ ps) fresh = overlay-load_from ps fresh
overlay-load_from (some p ∷ ps) fresh = overlay-load_from ps (insert Text-discrete p.name p fresh)

-- After LoadPolicies a name has the last policy of that name in the list, and no other name is
-- loaded.
pub load_policies-lookup :
    (ps : List Policy) (name : Text)
    → lookup Text-discrete name (load_policies ps) ≡ last_named name ps
unfolding load_policies lookup
load_policies-lookup ps name = ground (arith, load_from-lookup ps [] name)

-- After ReloadFromPersisted a name has the last persisted policy of that name, and where none is
-- persisted the built-in one, if there is one.
pub reload_from_persisted-lookup :
    (ps : List (Option Policy)) (name : Text)
    → lookup Text-discrete name (reload_from_persisted ps)
      ≡ or_else (last_named name (present ps)) (lookup Text-discrete name new_rbac)
unfolding reload_from_persisted
reload_from_persisted-lookup ps name =
    rw (overlay-load_from ps new_rbac) (load_from-lookup (present ps) new_rbac name)
