-- ===== src/Repos/Kept.antt =====
-- The invariants of the repositories that are maps of checked records, and that their operations keep
-- them. The key of a record, and the check it passes, are those of the repository.
use knxvault.Prelude.{
  ℕ, is_empty, ◌≡◌, inl, inr, refl, Bool, true, some, Text, Text-discrete, lookup, arith,
  Bool-cases, Option-cases,
}
use knxvault.Auth.Policy.{Policy}
use knxvault.Auth.Policy as Policy
use knxvault.Auth.Roles.{Role, validate_role}
use knxvault.Secrets.Leases.{Lease, Leases}
use knxvault.Secrets.Leases as Leases
use knxvault.Repos.{Table}
use knxvault.Repos.Keyed.{Keyed, insert-Keyed, lookup-Keyed, put-Keyed, remove-Keyed, modify-Keyed}
use knxvault.Repos.PkiRoles.{PkiRole}
use knxvault.Repos.PkiRoles as PkiRoles
use knxvault.Repos.IssuedCerts.{IssuedCertificate}
use knxvault.Repos.IssuedCerts as IssuedCerts
use knxvault.Repos.Policies as Policies
use knxvault.Repos.Roles as Roles
use knxvault.Repos.DatabaseRoles.{DatabaseRole}
use knxvault.Repos.DatabaseRoles as DatabaseRoles
use knxvault.Repos.SshRoles.{SshRole}
use knxvault.Repos.SshRoles as SshRoles
use knxvault.Repos.RotationPolicies.{RotationPolicy}
use knxvault.Repos.RotationPolicies as RotationPolicies
use knxvault.Repos.Identities.{MachineIdentity}
use knxvault.Repos.Identities as Identities
use knxvault.Repos.Tokens.{ClientToken}
use knxvault.Repos.Tokens as Tokens

abbrev pub PkiRolesValid : Table PkiRole → Type 0
PkiRolesValid = Keyed (λ r. r.name) PkiRoles.validate

abbrev pub IssuedValid : Table IssuedCertificate → Type 0
IssuedValid = Keyed (λ c. IssuedCerts.cert_key c.ca_id c.serial) IssuedCerts.validate

abbrev pub LeasesValid : Leases → Type 0
LeasesValid = Keyed (λ l. l.id) Leases.validate

abbrev pub PoliciesValid : Table Policy → Type 0
PoliciesValid = Keyed (λ p. p.name) Policies.accepts

abbrev pub RolesValid : Table Role → Type 0
RolesValid = Keyed (λ r. r.name) validate_role

abbrev pub DatabaseRolesValid : (Text → Bool) → Table DatabaseRole → Type 0
DatabaseRolesValid url_password = Keyed (λ r. r.name) (DatabaseRoles.checks url_password)

abbrev pub SshRolesValid : Table SshRole → Type 0
SshRolesValid = Keyed (λ r. r.name) SshRoles.checks

abbrev pub RotationsValid : Table RotationPolicy → Type 0
RotationsValid = Keyed (λ p. p.path) RotationPolicies.validate

abbrev pub IdentitiesValid : Table MachineIdentity → Type 0
IdentitiesValid = Keyed (λ m. m.id) Identities.validate

abbrev pub TokensValid : Table ClientToken → Type 0
TokensValid = Keyed (λ t. t.id) Tokens.has_id

-- The key usage that Validate fills in is one that it takes.
with_usage-validate :
    (r : PkiRole) → PkiRoles.validate r ≡ true → PkiRoles.validate (PkiRoles.with_usage r) ≡ true
unfolding PkiRoles.validate PkiRoles.with_usage PkiRoles.known_usage Text-discrete
with_usage-validate r h = elim (Bool-cases (is_empty r.key_usage)) [
  | inl e ↦ ground arith
  | inr e ↦ ground arith
]

pub save-PkiRolesValid :
    (t : Table PkiRole) (r : PkiRole) → PkiRolesValid t → PkiRolesValid (PkiRoles.save t r).0
unfolding PkiRoles.save PkiRoles.with_usage
save-PkiRolesValid t r v =
    put-Keyed _ PkiRoles.validate (PkiRoles.validate r) _ (PkiRoles.with_usage r) t
      (with_usage-validate r) v

pub save-IssuedValid :
    (t : Table IssuedCertificate) (c : IssuedCertificate)
    → IssuedValid t
    → IssuedValid (IssuedCerts.save t c).0
unfolding IssuedCerts.save
save-IssuedValid t c v = put-Keyed _ IssuedCerts.validate (IssuedCerts.validate c) _ c t (λ e. e) v

pub save-LeasesValid : (s : Leases) (l : Lease) → LeasesValid s → LeasesValid (Leases.save s l).0
unfolding Leases.save
save-LeasesValid s l v = elim (Bool-cases (Leases.validate l)) [
  | inl e ↦ rw (e, Leases.save) (insert-Keyed _ Leases.validate l s e v)
  | inr e ↦ rw (e, Leases.save) v
]

pub revoke-LeasesValid :
    (s : Leases) (id : Text) (time : ℕ) → LeasesValid s → LeasesValid (Leases.revoke s id time).0
unfolding Leases.revoke Leases.validate
revoke-LeasesValid s id time v = elim (Option-cases (lookup Text-discrete id s)) [
  | inl e ↦ rw (e, Leases.revoke) v
  | inr (l, e) ↦
      let (p, g) = lookup-Keyed _ Leases.validate id l s v e in
      rw (e, Leases.revoke, p)
        (insert-Keyed _ Leases.validate (record l { revoked_at = some time }) s g v)
]

pub save-PoliciesValid :
    (new_id : Text) (t : Table Policy) (p : Policy)
    → PoliciesValid t
    → PoliciesValid (Policies.save new_id t p).0
unfolding Policies.save Policies.with_id Policies.accepts Policy.validate
save-PoliciesValid new_id t p v = elim (Bool-cases (Policies.accepts p)) [
  | inl e ↦
      rw (e, Policies.save) (insert-Keyed _ Policies.accepts (Policies.with_id new_id p) t e v)
  | inr e ↦ rw (e, Policies.save) v
]

pub delete-PoliciesValid :
    (t : Table Policy) (name : Text) → PoliciesValid t → PoliciesValid (Policies.delete t name).0
unfolding Policies.delete
delete-PoliciesValid t name v = remove-Keyed _ Policies.accepts _ name t v

pub save-RolesValid : (t : Table Role) (r : Role) → RolesValid t → RolesValid (Roles.save t r).0
unfolding Roles.save
save-RolesValid t r v = put-Keyed _ validate_role (validate_role r) _ r t (λ e. e) v

pub delete-RolesValid :
    (t : Table Role) (name : Text) → RolesValid t → RolesValid (Roles.delete t name).0
unfolding Roles.delete
delete-RolesValid t name v = remove-Keyed _ validate_role _ name t v

pub save-DatabaseRolesValid :
    (url_password : Text → Bool) (t : Table DatabaseRole) (r : DatabaseRole)
    → DatabaseRolesValid url_password t
    → DatabaseRolesValid url_password (DatabaseRoles.save url_password t r).0
unfolding DatabaseRoles.save DatabaseRoles.validate DatabaseRoles.normalize_database_role
save-DatabaseRolesValid url_password t r v =
    put-Keyed _ (DatabaseRoles.checks url_password) (DatabaseRoles.validate url_password r) _
      (DatabaseRoles.normalize_database_role r) t (λ e. e) v

pub delete-DatabaseRolesValid :
    (url_password : Text → Bool) (t : Table DatabaseRole) (name : Text)
    → DatabaseRolesValid url_password t
    → DatabaseRolesValid url_password (DatabaseRoles.delete t name).0
unfolding DatabaseRoles.delete
delete-DatabaseRolesValid url_password t name v =
    remove-Keyed _ (DatabaseRoles.checks url_password) _ name t v

pub save-SshRolesValid :
    (t : Table SshRole) (r : SshRole) → SshRolesValid t → SshRolesValid (SshRoles.save t r).0
unfolding SshRoles.save SshRoles.validate SshRoles.normalize_ssh_role
save-SshRolesValid t r v =
    put-Keyed _ SshRoles.checks (SshRoles.validate r) _ (SshRoles.normalize_ssh_role r) t (λ e. e) v

pub delete-SshRolesValid :
    (t : Table SshRole) (name : Text) → SshRolesValid t → SshRolesValid (SshRoles.delete t name).0
unfolding SshRoles.delete
delete-SshRolesValid t name v = remove-Keyed _ SshRoles.checks _ name t v

pub save-RotationsValid :
    (t : Table RotationPolicy) (p : RotationPolicy)
    → RotationsValid t
    → RotationsValid (RotationPolicies.save t p).0
unfolding RotationPolicies.save
save-RotationsValid t p v =
    put-Keyed _ RotationPolicies.validate (RotationPolicies.validate p) _ p t (λ e. e) v

pub delete-RotationsValid :
    (t : Table RotationPolicy) (path : Text)
    → RotationsValid t
    → RotationsValid (RotationPolicies.delete t path).0
unfolding RotationPolicies.delete
delete-RotationsValid t path v = remove-Keyed _ RotationPolicies.validate _ path t v

pub save-IdentitiesValid :
    (t : Table MachineIdentity) (m : MachineIdentity)
    → IdentitiesValid t
    → IdentitiesValid (Identities.save t m).0
unfolding Identities.save
save-IdentitiesValid t m v =
    put-Keyed _ Identities.validate (Identities.validate m) _ m t (λ e. e) v

pub revoke-IdentitiesValid :
    (t : Table MachineIdentity) (id : Text)
    → IdentitiesValid t
    → IdentitiesValid (Identities.revoke t id).0
unfolding Identities.revoke Identities.validate
revoke-IdentitiesValid t id v =
    modify-Keyed _ Identities.validate _ Identities.revoked_of id t (λ m g. (refl, g)) v

pub save-TokensValid :
    (t : Table ClientToken) (c : ClientToken) → TokensValid t → TokensValid (Tokens.save t c).0
unfolding Tokens.save
save-TokensValid t c v = put-Keyed _ Tokens.has_id (Tokens.has_id c) _ c t (λ e. e) v

pub revoke-TokensValid :
    (t : Table ClientToken) (id : Text) (time : ℕ)
    → TokensValid t
    → TokensValid (Tokens.revoke t id time).0
unfolding Tokens.revoke Tokens.has_id
revoke-TokensValid t id time v =
    modify-Keyed _ Tokens.has_id _ (Tokens.revoked_at time) id t (λ c g. (refl, g)) v
