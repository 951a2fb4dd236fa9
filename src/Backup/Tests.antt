-- ===== src/Backup/Tests.antt =====
-- Tests of an export that is restored.
use knxvault.Prelude.{
  ◌≡◌, refl, true, false, none, [], ◌∷◌, codes, lookup, Text-discrete, In, inl, inr, ap, sym, ◌∙◌,
}
use knxvault.Errors.{ok}
use knxvault.Repos.{values}
use knxvault.Repos.Cas.{Ca, type_root}
use knxvault.Repos.IssuedCerts.{IssuedCertificate}
use knxvault.Repos.IssuedCerts as IssuedCerts
use knxvault.Repos.Tokens.{ClientToken}
use knxvault.Backup.Snapshot.{Repos}
use knxvault.Backup.Export.{ExportOptions, export}
use knxvault.Backup.Restore.{RestoreEnv, clear_repos, restore}
use knxvault.Backup.Restore.ReposValid.{ReposValid, with_cas, with_issued, with_tokens}
use knxvault.Backup.Restore.Kept.{restore-ReposValid, clear_repos-Valid}
use knxvault.Backup.Restore.Trip.{changed}
use knxvault.Backup.Restore.Whole.{export-restore_tokens, export-restore_issued}
use knxvault.Backup.Restore.Exported.{without_limits}

abbrev env : RestoreEnv
env = record {
  url_password = λ text. false;
  audit = record {
    marshal = λ fields. [];
    format_time = λ t. t ∷ [];
    sha256_hex = λ text. text;
    hmac_hex = λ key text. text;
  };
  new_uuid = λ i. i ∷ [];
}

abbrev token : ClientToken
token = record {
  id = codes "t";
  subject = codes "agent";
  policies = codes "p" ∷ [];
  expires_at = 90;
  renewable = true;
  revoked = false;
  parent_identity_id = codes "i";
  agent_id = codes "a";
  allowed_actions = codes "read" ∷ [];
  path_prefix = codes "app/";
  max_expires_at = 100;
}

abbrev cert : IssuedCertificate
cert = record {
  id = codes "1";
  ca_id = codes "c";
  role = codes "r";
  serial = codes "s";
  common_name = codes "n";
  dns_names = [];
  ttl_seconds = 60;
  issued_at = 1;
  expires_at = 61;
  auto_renew = true;
  renewed_from_serial = none;
}

abbrev authority : Ca
authority = record {
  id = codes "c";
  parent_id = none;
  name = codes "root";
  type = type_root;
  subject = record {
    common_name = codes "root";
    organization = [];
    organizational_unit = [];
    country = [];
  };
  serial = codes "1";
  cert_pem = codes "pem";
  private_key_enc = 7 ∷ [];
  dek_enc = 8 ∷ [];
  status = codes "active";
  created_at = 1;
  expires_at = 100;
  crl_next_update = none;
}

abbrev filled : Repos
filled = record {
  cas = (codes "c", authority) ∷ [];
  secrets = [];
  audit = record { entries = []; next_id = 1 };
  revoked = record { serial = []; by_ca = [] };
  leases = [];
  policies = [];
  roles = [];
  pki_roles = [];
  db_roles = [];
  ssh_roles = [];
  issued = (IssuedCerts.cert_key (codes "c") (codes "s"), cert) ∷ [];
  tokens = (codes "t", token) ∷ [];
}

abbrev options : ExportOptions
options = record { include_audit = true; audit_limit = 0 }

restore_test : (restore env (export filled options 5) filled).1 ≡ ok tt
unfolding restore export lookup
restore_test = refl

export-restore_tokens_example :
    lookup Text-discrete (codes "t") (restore env (export filled options 5) filled).0.tokens
    ≡ changed without_limits (lookup Text-discrete (codes "t") filled.tokens)
unfolding knxvault.Repos.Tokens.has_id lookup
export-restore_tokens_example =
    export-restore_tokens env filled filled options 5 (codes "t") (refl, refl, refl, tt)
      restore_test

export-restore_issued_example :
    IssuedCerts.get_by_serial
      (restore env (export filled options 5) filled).0.issued
      (codes "c")
      (codes "s")
    ≡ IssuedCerts.get_by_serial filled.issued (codes "c") (codes "s")
unfolding IssuedCerts.validate lookup
export-restore_issued_example =
    export-restore_issued env filled filled options 5 (codes "c") (codes "s") (refl, refl, refl, tt)
      restore_test

one_name :
    (a b : Ca) → In a (values filled.cas) → In b (values filled.cas) → a.name ≡ b.name → a.id ≡ b.id
unfolding values
one_name a b (inl p) (inl q) e = ap (λ ca. ca.id) (sym p ∙ q)
one_name a b (inl p) (inr q) e = absurd q
one_name a b (inr p) q e = absurd p

filled-ReposValid : ReposValid env.url_password filled
unfolding IssuedCerts.validate lookup knxvault.Repos.Tokens.has_id clear_repos
    knxvault.Repos.Cas.validate
filled-ReposValid =
    with_tokens
      (with_issued
        (with_cas (clear_repos-Valid env (export filled options 5) filled) filled.cas
          ((refl, refl, refl, tt), one_name))
        filled.issued (refl, refl, refl, tt))
      filled.tokens (refl, refl, refl, tt)

restore-ReposValid_example :
    ReposValid env.url_password (restore env (export filled options 5) filled).0
restore-ReposValid_example =
    restore-ReposValid env (export filled options 5) filled filled-ReposValid
