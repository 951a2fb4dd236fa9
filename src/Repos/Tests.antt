-- ===== src/Repos/Tests.antt =====
-- Tests of the repositories on single records.
use knxvault.Prelude.{
  ◌≡◌, ◌≢◌, ◌⊎◌, ◌↔◌, refl, is_empty, ◌+◌, ◌*◌, ◌≤◌, ◌<◌, true, false, [], ◌∷◌, ◌++◌, Text, codes,
  str_eq, In,
}
use knxvault.Secrets.Paths.{trim_space, to_lower}
use knxvault.Audit.Redact.{end_fields}
use knxvault.Repos.{Table}
use knxvault.Repos.Kept.{DatabaseRolesValid}
use knxvault.Repos.PkiRoles.{PkiRole, allowed_domain}
use knxvault.Repos.PkiRoles.Domains.{Takes, allowed_domain_iff}
use knxvault.Repos.Revocations.{
  RevokedCertificate, Revocations, new_repository, revoke, is_revoked, list_by_ca,
}
use knxvault.Repos.Revocations.Listed.{revoke-is_revoked}
use knxvault.Repos.RotationPolicies.{RotationPolicy, due}
use knxvault.Repos.RotationPolicies.Due.{due_iff}
use knxvault.Secrets.DatabaseConfig.{mode_managed}
use knxvault.Repos.DatabaseRoles.{DatabaseRole}
use knxvault.Repos.DatabaseRoles as DatabaseRoles
use knxvault.Repos.DatabaseRoles.Managed.{IsManaged, get-IsManaged}

abbrev pki_role : PkiRole
pki_role = record {
  name = codes "web";
  ca_name = codes "ca";
  allowed_domains = codes "Example.com" ∷ [];
  max_ttl_seconds = 60;
  key_usage = codes "server";
  allow_subdomains = true;
}

allowed_domain_iff_example : (allowed_domain pki_role (codes "a.example.com") ≡ true) ↔ (
    (is_empty (to_lower (trim_space (codes "a.example.com"))) ≡ false)
    × (((d : Text) × In d pki_role.allowed_domains × (str_eq (trim_space d) (codes "*") ≡ true))
        ⊎ ((d : Text) × In d pki_role.allowed_domains
            × Takes pki_role.allow_subdomains
                (to_lower (trim_space (codes "a.example.com")))
                (to_lower (trim_space d)))))
allowed_domain_iff_example = allowed_domain_iff pki_role (codes "a.example.com")

allowed_domain_test : allowed_domain pki_role (codes "a.example.com") ≡ true
unfolding allowed_domain
allowed_domain_test = refl

abbrev revoked : Text → RevokedCertificate
revoked ca_id = record { serial = codes "s"; ca_id = ca_id; revoked_at = 1; reason = [] }

abbrev once : Revocations
once = (revoke new_repository (revoked (codes "c"))).0

revoke-is_revoked_example :
    (is_revoked (revoke once (revoked (codes "d"))).0 (codes "s") ≡ true)
    × ((is_revoked once (codes "s") ≡ true) × ((revoke once (revoked (codes "d"))).0 ≡ once)
        ⊎ (is_revoked once (codes "s") ≡ false)
          × (list_by_ca (revoke once (revoked (codes "d"))).0 (codes "d")
              ≡ list_by_ca once (codes "d") ++ revoked (codes "d") ∷ []))
    × ((serial : Text)
        → serial ≢ codes "s"
        → is_revoked (revoke once (revoked (codes "d"))).0 serial ≡ is_revoked once serial)
    × ((ca_id : Text)
        → ca_id ≢ codes "d"
        → list_by_ca (revoke once (revoked (codes "d"))).0 ca_id ≡ list_by_ca once ca_id)
revoke-is_revoked_example = revoke-is_revoked once (revoked (codes "d"))

-- Another authority has a certificate with the same serial number: its list stays empty.
same_serial_test : list_by_ca (revoke once (revoked (codes "d"))).0 (codes "d") ≡ []
unfolding list_by_ca knxvault.Prelude.lookup revoke new_repository knxvault.Prelude.insert
    knxvault.Prelude.Text-discrete
same_serial_test = refl

abbrev rotation : RotationPolicy
rotation = record {
  path = codes "a";
  interval = 10;
  generator = codes "random_password";
  script_ref = [];
  last_rotated_at = 5;
  enabled = true;
}

due_iff_example :
    (10 * 1000000000 < 9223372036854775808
      → (due rotation 7 ≡ true) ↔ (
          (rotation.enabled ≡ true) × ((rotation.last_rotated_at ≡ 0) ⊎ (5 + 10 * 1000000000 ≤ 7))))
    × (9223372036854775808 ≤ 10 * 1000000000
        → 10 * 1000000000 < 18446744073709551616
        → true ≡ true
        → 5 ≤ 7
        → due rotation 7 ≡ true)
due_iff_example = due_iff rotation 7

abbrev managed : DatabaseRole
managed = record {
  name = codes "db";
  limits = record {
    ttl_seconds = 60;
    default_ttl = 60;
    max_ttl = 60;
    period = 0;
    renewable = true;
    max_leases = 0;
  };
  username_prefix = codes "v";
  default_username = [];
  creation_statements = codes "create user {{name}}" ∷ [];
  revocation_statements = [];
  execution_mode = mode_managed;
  admin_credentials_path = codes "kv/admin";
  config = end_fields;
  created_at = 0;
  updated_at = 0;
}

abbrev roles : Table DatabaseRole
roles = (codes "db", managed) ∷ []

roles-Valid : DatabaseRolesValid (λ text. false) roles
unfolding DatabaseRoles.checks knxvault.Prelude.lookup
roles-Valid = (refl, refl, refl, tt)

get-IsManaged_example :
    (codes "db" ≡ codes "db") × (str_eq mode_managed mode_managed ≡ true → IsManaged managed)
unfolding DatabaseRoles.get knxvault.Prelude.lookup knxvault.Prelude.Text-discrete
get-IsManaged_example = get-IsManaged (λ text. false) roles (codes "db") managed roles-Valid refl
