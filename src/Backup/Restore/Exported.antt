-- ===== src/Backup/Restore/Exported.antt =====
-- What the tokens and the issued certificates of an export become when it is restored.
use knxvault.Prelude.{
  ◌≡◌, refl, ◌∙◌, ℕ, true, Option, none, some, [], Text, Text-discrete, lookup, insert, codes,
}
use knxvault.Errors.{ok}
use knxvault.Repos.{Table, values, put, find}
use knxvault.Repos.Kept.{IssuedValid, TokensValid}
use knxvault.Repos.Sorted.{In-sort_by}
use knxvault.Repos.IssuedCerts.{IssuedCertificate}
use knxvault.Repos.IssuedCerts as IssuedCerts
use knxvault.Repos.Tokens.{ClientToken}
use knxvault.Repos.Tokens as Tokens
use knxvault.Secrets.Engine.Listing.{text_lt}
use knxvault.Backup.Snapshot.{Repos}
use knxvault.Backup.Export.{ExportOptions, export}
use knxvault.Backup.Convert.{issued_from_domain, issued_to_domain}
use knxvault.Backup.ConvertAccess.{token_from_domain, token_to_domain}
use knxvault.Backup.Restore.{
  restore_all, RestoreEnv, clear_repos, restore_tokens_loop, restore_issued_loop,
}
use knxvault.Backup.Restore.Trip.{changed, restored}

-- What the records of a snapshot keep of a token.
abbrev pub without_limits : ClientToken → ClientToken
without_limits t = record t {
  parent_identity_id = [];
  agent_id = [];
  allowed_actions = [];
  path_prefix = [];
  max_expires_at = 0;
}

save-kept :
    (u : Table ClientToken) (a : ClientToken)
    → Tokens.has_id a ≡ true
    → Tokens.save u (token_to_domain (token_from_domain a))
      ≡ (insert Text-discrete a.id (without_limits a) u, ok tt)
unfolding Tokens.save token_from_domain token_to_domain put
save-kept u a h = rw h refl

-- Restoring the tokens of an export into cleared repositories gives no error, and each identifier
-- leads to the token that it led to, without the identity and the agent it belongs to, the actions
-- and the path that it was limited to, and its last expiry.
pub restore_tokens_loop-kept :
    (env : RestoreEnv) (r q : Repos) (opts : ExportOptions) (now : ℕ) (k : Text)
    → TokensValid r.tokens
    → ((restore_tokens_loop env (export r opts now) (clear_repos q)).1 ≡ ok tt)
      × (lookup Text-discrete k
            (restore_tokens_loop env (export r opts now) (clear_repos q)).0.tokens
          ≡ changed without_limits (lookup Text-discrete k r.tokens))
unfolding restore_tokens_loop export clear_repos Tokens.list Tokens.clear restore_all
restore_tokens_loop-kept env r q opts now k v =
    let (fine, same) =
      restored (λ x. x.id) Tokens.has_id token_from_domain without_limits
        (λ u x. Tokens.save u (token_to_domain x)) r.tokens (Tokens.list r.tokens) save-kept v
        (λ a. (In-sort_by (λ a b. text_lt a.id b.id) a (values r.tokens)).0)
        (λ a. (In-sort_by (λ a b. text_lt a.id b.id) a (values r.tokens)).1) in
    (fine, same k)

changed_id : (o : Option IssuedCertificate) → changed (λ c. c) o ≡ o
changed_id none = refl
changed_id (some c) = refl

find-lookup :
    (message k : Text) (t u : Table IssuedCertificate)
    → lookup Text-discrete k t ≡ lookup Text-discrete k u
    → find message k t ≡ find message k u
unfolding find
find-lookup message k t u h = rw (find, h) refl

save-issued :
    (u : Table IssuedCertificate) (a : IssuedCertificate)
    → IssuedCerts.validate a ≡ true
    → IssuedCerts.save u (issued_to_domain (issued_from_domain a))
      ≡ (insert Text-discrete (IssuedCerts.cert_key a.ca_id a.serial) a u, ok tt)
unfolding IssuedCerts.save issued_from_domain issued_to_domain put
save-issued u a h = rw h refl

-- Restoring the issued certificates of an export into cleared repositories gives no error, and each
-- authority and serial number lead to the certificate that they led to.
pub restore_issued_loop-same :
    (env : RestoreEnv) (r q : Repos) (opts : ExportOptions) (now : ℕ) (ca_id serial : Text)
    → IssuedValid r.issued
    → ((restore_issued_loop env (export r opts now) (clear_repos q)).1 ≡ ok tt)
      × (IssuedCerts.get_by_serial
            (restore_issued_loop env (export r opts now) (clear_repos q)).0.issued
            ca_id
            serial
          ≡ IssuedCerts.get_by_serial r.issued ca_id serial)
unfolding restore_issued_loop export clear_repos IssuedCerts.list IssuedCerts.clear restore_all
    IssuedCerts.get_by_serial find
restore_issued_loop-same env r q opts now ca_id serial v =
    let (fine, same) =
      restored (λ c. IssuedCerts.cert_key c.ca_id c.serial) IssuedCerts.validate issued_from_domain
        (λ c. c) (λ u x. IssuedCerts.save u (issued_to_domain x)) r.issued
        (IssuedCerts.list r.issued) save-issued v
        (λ a. (In-sort_by IssuedCerts.stands_before a (values r.issued)).0)
        (λ a. (In-sort_by IssuedCerts.stands_before a (values r.issued)).1) in
    (
      fine,
      find-lookup (codes "issued certificate not found") (IssuedCerts.cert_key ca_id serial) _
          r.issued
          (same (IssuedCerts.cert_key ca_id serial)
            ∙ changed_id (lookup Text-discrete (IssuedCerts.cert_key ca_id serial) r.issued)),
    )
