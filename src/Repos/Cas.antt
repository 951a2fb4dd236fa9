-- ===== src/Repos/Cas.antt =====
-- CA of internal/domain/pki/ca.go and its repository, internal/repository/memory/ca_repository.go.
use knxvault.Prelude.{
  is_empty, ℕ, Bool, true, false, ◌&&◌, ◌||◌, not, Option, none, some, List, [], ◌∷◌, Text, codes,
  str_eq, Text-discrete, insert, ltb, if◌then◌else◌,
}
use knxvault.Errors.{Result, ok, fail, validation, not_found}
use knxvault.Repos.{Table, Outcome, nil_uuid, find, values, sort_by}
pub mod Names

abbrev pub type_root : Text
type_root = codes "root"

abbrev pub type_intermediate : Text
type_intermediate = codes "intermediate"

abbrev pub status_active : Text
status_active = codes "active"

-- DistinguishedName
pub record DistinguishedName : Type 0 where
  pub common_name : Text
  pub organization : Text
  pub organizational_unit : Text
  pub country : Text

-- CA
pub record Ca : Type 0 where
  pub id : Text
  pub parent_id : Option Text
  pub name : Text
  pub type : Text
  pub subject : DistinguishedName
  pub serial : Text
  pub cert_pem : Text
  pub private_key_enc : List ℕ
  pub dek_enc : List ℕ
  pub status : Text
  pub created_at : ℕ
  pub expires_at : ℕ
  pub crl_next_update : Option ℕ

abbrev has_parent : Option Text → Bool
has_parent none = false
has_parent (some _) = true

-- Whether a parent is missing, or is the identifier that stands for none.
abbrev lacks_parent : Option Text → Bool
lacks_parent none = true
lacks_parent (some parent) = str_eq parent nil_uuid

-- CA.Validate, as the test that passes.
unfoldable pub validate : Ca → Bool
unfolding Text-discrete
validate c =
    if str_eq c.id nil_uuid
    then false
    else if is_empty c.name
    then false
    else if not (str_eq c.type type_root || str_eq c.type type_intermediate)
    then false
    else if str_eq c.type type_root && has_parent c.parent_id
    then false
    else if str_eq c.type type_intermediate && lacks_parent c.parent_id
    then false
    else if is_empty c.cert_pem
    then false
    else not (is_empty c.private_key_enc || is_empty c.dek_enc)

-- The loop of Save: whether another CA has the name.
unfoldable pub name_taken : Ca → List Ca → Bool
unfolding Text-discrete
name_taken ca [] = false
name_taken ca (existing ∷ cas) =
    not (str_eq existing.id ca.id) && str_eq existing.name ca.name || name_taken ca cas

-- Save
unfoldable pub save : Table Ca → Ca → Outcome (Table Ca) (Unit {0})
unfolding validate name_taken values
save t ca =
    if not (validate ca)
    then (t, fail validation (codes "invalid ca"))
    else if name_taken ca (values t)
    then (t, fail validation (codes "ca name already exists"))
    else (insert Text-discrete ca.id ca t, ok tt)

-- GetByID
unfoldable pub get_by_id : Table Ca → Text → Result Ca
unfolding find
get_by_id t id = find (codes "ca not found") id t

-- The loop of GetByName.
unfoldable pub first_named : Text → List Ca → Result Ca
unfolding Text-discrete
first_named name [] = fail not_found (codes "ca not found")
first_named name (ca ∷ cas) = if str_eq ca.name name then ok ca else first_named name cas

-- GetByName
unfoldable pub get_by_name : Table Ca → Text → Result Ca
unfolding first_named values
get_by_name t name = first_named name (values t)

-- List
unfoldable pub list : Table Ca → List Ca
unfolding sort_by values
list t = sort_by (λ a b. ltb a.created_at b.created_at) (values t)

-- Clear
unfoldable pub clear : Table Ca → Table Ca
clear t = []
