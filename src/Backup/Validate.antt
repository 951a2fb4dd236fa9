-- ===== src/Backup/Validate.antt =====
-- ValidateSnapshot of internal/backup/import.go and ValidateRecordChain of internal/audit/chain.go. An
-- error of fmt.Errorf is an internal error with its text.
use knxvault.Prelude.{
  is_empty, Bool, true, false, ◌||◌, not, Option, none, some, List, [], ◌∷◌, ◌++◌, Text, codes,
  str_eq, Text-discrete, elem, ◌==◌, if◌then◌else◌,
}
use knxvault.Errors.{Result, ok, fail, internal, and_then}
use knxvault.Audit.Chain.{AuditEnv, compute_hash}
use knxvault.Repos.{nil_uuid}
use knxvault.Repos.IssuedCerts.{cert_key}
use knxvault.Backup.Snapshot.{
  format_version, CaRecord, PolicyRecord, RoleRecord, PkiRoleRecord, IssuedCertRecord, AuditRecord,
  Snapshot,
}

abbrev pub refuse : {A : Type 0} → Text → Result A
refuse message = fail internal message

-- The loop over the authorities: the identifiers and the names that it has seen.
unfoldable pub check_cas : List Text → List Text → List CaRecord → Result (List Text × List Text)
unfolding Text-discrete elem
check_cas seen names [] = ok (seen, names)
check_cas seen names (ca ∷ cas) =
    let rest = check_cas (ca.id ∷ seen) (ca.name ∷ names) cas in
    if str_eq ca.id nil_uuid
    then refuse (codes "ca id is required")
    else if elem Text-discrete ca.id seen
    then refuse (codes "duplicate ca id " ++ ca.id)
    else if is_empty ca.name
    then refuse (codes "ca name is required")
    else if elem Text-discrete ca.name names
    then refuse (codes "duplicate ca name " ++ ca.name)
    else rest

-- Whether a parent, where there is one, was seen.
abbrev pub parent_known : List Text → Option Text → Bool
parent_known seen none = true
parent_known seen (some parent) = elem Text-discrete parent seen

-- The loop over the parents.
unfoldable pub check_parents : List Text → List CaRecord → Result (Unit {0})
check_parents seen [] = ok tt
check_parents seen (ca ∷ cas) =
    if not (parent_known seen ca.parent_id)
    then refuse (codes "ca " ++ (ca.name ++ codes " references unknown parent"))
    else check_parents seen cas

-- The loop over the policies: their names.
unfoldable pub check_policies : List Text → List PolicyRecord → Result (List Text)
check_policies names [] = ok names
check_policies names (policy ∷ policies) =
    if is_empty policy.name
    then refuse (codes "policy name is required")
    else check_policies (policy.name ∷ names) policies

-- The loop over the policies of one role.
unfoldable pub check_role_policies : List Text → Text → List Text → Result (Unit {0})
unfolding elem Text-discrete
check_role_policies names role [] = ok tt
check_role_policies names role (policy ∷ policies) =
    if not (elem Text-discrete policy names)
    then refuse (codes "role " ++ (role ++ (codes " references unknown policy " ++ policy)))
    else check_role_policies names role policies

-- The loop over the roles.
unfoldable pub check_roles : List Text → List RoleRecord → Result (Unit {0})
unfolding check_role_policies
check_roles names [] = ok tt
check_roles names (role ∷ roles) =
    if is_empty role.name
    then refuse (codes "role name is required")
    else and_then (check_role_policies names role.name role.policies) (λ _. check_roles names roles)

-- The loop over the PKI roles.
unfoldable pub check_pki_roles : List Text → List PkiRoleRecord → Result (Unit {0})
unfolding elem Text-discrete
check_pki_roles names [] = ok tt
check_pki_roles names (role ∷ roles) =
    if is_empty role.name
    then refuse (codes "pki role name is required")
    else if is_empty role.ca_name
    then refuse (codes "pki role " ++ (role.name ++ codes " ca_name is required"))
    else if not (elem Text-discrete role.ca_name names)
    then refuse
        (codes "pki role " ++ (role.name ++ (codes " references unknown ca " ++ role.ca_name)))
    else check_pki_roles names roles

-- The loop over the issued certificates.
unfoldable pub check_issued : List Text → List Text → List IssuedCertRecord → Result (Unit {0})
unfolding elem Text-discrete cert_key
check_issued seen serials [] = ok tt
check_issued seen serials (cert ∷ certs) =
    let key = cert_key cert.ca_id cert.serial in
    if str_eq cert.ca_id nil_uuid
    then refuse (codes "issued cert " ++ (cert.serial ++ codes " ca_id is required"))
    else if not (elem Text-discrete cert.ca_id seen)
    then refuse (codes "issued cert " ++ (cert.serial ++ codes " references unknown ca"))
    else if elem Text-discrete key serials
    then refuse (codes "duplicate issued cert serial " ++ cert.serial)
    else check_issued seen (key ∷ serials) certs

-- Whether a record has a hash.
unfoldable pub has_hash : List AuditRecord → Bool
has_hash [] = false
has_hash (rec ∷ records) = not (is_empty rec.hash) || has_hash records

module _ (env : AuditEnv) where
  -- ValidateRecordChain, behind a hash.
  unfoldable pub validate_record_chain : Text → List AuditRecord → Bool
  unfolding compute_hash Text-discrete
  validate_record_chain prev [] = true
  validate_record_chain prev (r ∷ records) =
      if not (
        str_eq r.hash
          (compute_hash env prev r.actor r.action r.resource r.status r.details r.timestamp))
      then false
      else validate_record_chain r.hash records

  -- validateAuditRecords
  unfoldable pub validate_audit_records : List AuditRecord → Result (Unit {0})
  unfolding has_hash validate_record_chain
  validate_audit_records records =
      if is_empty records
      then ok tt
      else if not (has_hash records)
      then ok tt
      else if not (validate_record_chain [] records)
      then refuse (codes "audit chain: audit record hash mismatch")
      else ok tt

  -- ValidateSnapshot
  unfoldable pub validate_snapshot : Snapshot → Result (Unit {0})
  unfolding check_cas check_parents check_policies check_roles check_pki_roles check_issued
      validate_audit_records
  validate_snapshot s =
      if not (s.version == format_version)
      then refuse (codes "unsupported backup version")
      else and_then (check_cas [] [] s.cas) (λ seen. and_then (check_parents seen.0 s.cas) (λ _.
        and_then (check_policies [] s.policies) (λ names. and_then (check_roles names s.roles) (λ _.
          and_then (check_pki_roles seen.1 s.pki_roles) (λ _.
            and_then (check_issued seen.0 [] s.issued) (λ _. validate_audit_records s.audit))))))
