-- ===== src/Repos/Tokens.antt =====
-- ClientToken of internal/domain/auth/token.go and its repository,
-- internal/repository/memory/token_repository.go.
use knxvault.Prelude.{
  is_empty, ℕ, Bool, true, false, ◌&&◌, ◌||◌, not, List, [], Text, codes, ltb, if◌then◌else◌,
}
use knxvault.Errors.{Result}
use knxvault.Secrets.Engine.Listing.{text_lt}
use knxvault.Repos.{
  Table, Outcome, put, find, modify, values, select, sort_by, cut, limit_or_default,
}
pub mod Expired

-- ClientToken
pub record ClientToken : Type 0 where
  pub id : Text
  pub subject : Text
  pub policies : List Text
  pub expires_at : ℕ
  pub renewable : Bool
  pub revoked : Bool
  pub parent_identity_id : Text
  pub agent_id : Text
  pub allowed_actions : List Text
  pub path_prefix : Text
  pub max_expires_at : ℕ

-- ClientToken.Active
unfoldable pub active : ClientToken → ℕ → Bool
active t now = not t.revoked && ltb now t.expires_at

-- The check of Save.
unfoldable pub has_id : ClientToken → Bool
has_id token = not (is_empty token.id)

-- Save
unfoldable pub save : Table ClientToken → ClientToken → Outcome (Table ClientToken) (Unit {0})
unfolding has_id put
save t token = put (has_id token) (codes "token id is required") token.id token t

-- Get
unfoldable pub get : Table ClientToken → Text → Result ClientToken
unfolding find
get t id = find (codes "token not found") id t

abbrev pub revoked_at : ℕ → ClientToken → ClientToken
revoked_at time token = record token { revoked = true; expires_at = time }

-- Revoke
unfoldable pub revoke : Table ClientToken → Text → ℕ → Outcome (Table ClientToken) (Unit {0})
unfolding modify
revoke t id time = modify (codes "token not found") (revoked_at time) id t

-- List
unfoldable pub list : Table ClientToken → List ClientToken
unfolding sort_by values text_lt
list t = sort_by (λ a b. text_lt a.id b.id) (values t)

-- The test of the loop of ListExpired.
unfoldable pub expired : ℕ → ClientToken → Bool
expired before token = if token.revoked || not (ltb token.expires_at before) then false else true

-- ListExpired
unfoldable pub list_expired : Table ClientToken → ℕ → ℕ → List ClientToken
unfolding sort_by values select expired cut
list_expired t before limit =
    cut (limit_or_default limit)
      (sort_by (λ a b. ltb a.expires_at b.expires_at) (select (expired before) (values t)))

-- Clear
unfoldable pub clear : Table ClientToken → Table ClientToken
clear t = []
