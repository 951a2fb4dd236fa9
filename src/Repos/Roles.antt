-- ===== src/Repos/Roles.antt =====
-- The repository of roles, internal/repository/memory/role_repository.go.
use knxvault.Prelude.{[], List, Text, codes}
use knxvault.Errors.{Result}
use knxvault.Auth.Roles.{Role, validate_role}
use knxvault.Secrets.Engine.Listing.{text_lt}
use knxvault.Repos.{Table, Outcome, put, find, remove, values, sort_by}

-- Save
unfoldable pub save : Table Role → Role → Outcome (Table Role) (Unit {0})
unfolding validate_role put
save t role = put (validate_role role) (codes "invalid role") role.name role t

-- Get
unfoldable pub get : Table Role → Text → Result Role
unfolding find
get t name = find (codes "role not found") name t

-- List
unfoldable pub list : Table Role → List Role
unfolding sort_by values text_lt
list t = sort_by (λ a b. text_lt a.name b.name) (values t)

-- Delete
unfoldable pub delete : Table Role → Text → Outcome (Table Role) (Unit {0})
unfolding remove
delete t name = remove (codes "role not found") name t

-- Clear
unfoldable pub clear : Table Role → Table Role
clear t = []
