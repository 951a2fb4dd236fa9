-- ===== src/Repos/IssuedCerts.antt =====
-- IssuedCertificate of internal/domain/pki/issued_cert.go and its repository,
-- internal/repository/memory/issued_cert_repository.go.
use knxvault.Prelude.{
  [], is_empty, ℕ, ◌+◌, Bool, true, false, ◌||◌, not, Option, List, ◌∷◌, ◌++◌, Text, codes, str_eq,
  Text-discrete, ltb, leb, ◌==◌, if◌then◌else◌,
}
use knxvault.Errors.{Result}
use knxvault.Secrets.Engine.Listing.{text_lt}
use knxvault.Repos.{
  Table, Outcome, nil_uuid, put, find, values, select, sort_by, cut, limit_or_default,
}
pub mod Expiring

-- IssuedCertificate
pub record IssuedCertificate : Type 0 where
  pub id : Text
  pub ca_id : Text
  pub role : Text
  pub serial : Text
  pub common_name : Text
  pub dns_names : List Text
  pub ttl_seconds : ℕ
  pub issued_at : ℕ
  pub expires_at : ℕ
  pub auto_renew : Bool
  pub renewed_from_serial : Option Text

-- Validate, as the test that passes.
unfoldable pub validate : IssuedCertificate → Bool
unfolding Text-discrete
validate c =
    if str_eq c.id nil_uuid
    then false
    else if str_eq c.ca_id nil_uuid
    then false
    else if is_empty c.role || (is_empty c.serial || is_empty c.common_name)
    then false
    else if c.ttl_seconds == 0
    then false
    else not (c.expires_at == 0)

-- NeedsRenewal
unfoldable pub needs_renewal : IssuedCertificate → ℕ → ℕ → Bool
needs_renewal c now grace = if not c.auto_renew then false else leb c.expires_at (now + grace)

-- certKey
unfoldable pub cert_key : Text → Text → Text
cert_key ca_id serial = ca_id ++ b':' ∷ serial

-- Save
unfoldable pub save :
    Table IssuedCertificate → IssuedCertificate → Outcome (Table IssuedCertificate) (Unit {0})
unfolding validate put cert_key
save t cert =
    put (validate cert) (codes "invalid issued certificate") (cert_key cert.ca_id cert.serial) cert
      t

-- GetBySerial
unfoldable pub get_by_serial : Table IssuedCertificate → Text → Text → Result IssuedCertificate
unfolding find cert_key
get_by_serial t ca_id serial = find (codes "issued certificate not found") (cert_key ca_id serial) t

-- The comparison of List.
unfoldable pub stands_before : IssuedCertificate → IssuedCertificate → Bool
unfolding text_lt Text-discrete
stands_before a b =
    if str_eq a.ca_id b.ca_id then text_lt a.serial b.serial else text_lt a.ca_id b.ca_id

-- List
unfoldable pub list : Table IssuedCertificate → List IssuedCertificate
unfolding sort_by values stands_before
list t = sort_by stands_before (values t)

-- The tests of the loop of ListExpiring.
unfoldable pub expiring : ℕ → IssuedCertificate → Bool
expiring before cert =
    if not cert.auto_renew then false else if ltb before cert.expires_at then false else true

abbrev pub ends_sooner : IssuedCertificate → IssuedCertificate → Bool
ends_sooner a b = ltb a.expires_at b.expires_at

-- ListExpiring
unfoldable pub list_expiring : Table IssuedCertificate → ℕ → ℕ → List IssuedCertificate
unfolding sort_by values select expiring cut
list_expiring t before limit =
    cut (limit_or_default limit) (sort_by ends_sooner (select (expiring before) (values t)))

-- Clear
unfoldable pub clear : Table IssuedCertificate → Table IssuedCertificate
clear t = []
