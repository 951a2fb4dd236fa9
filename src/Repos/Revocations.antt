-- ===== src/Repos/Revocations.antt =====
-- RevokedCertificate of internal/repository/interfaces.go and its repository,
-- internal/repository/memory/revocation_repository.go.
use knxvault.Prelude.{
  ℕ, Bool, true, false, none, some, List, [], ◌∷◌, ◌++◌, Text, Text-discrete, lookup, insert,
}
use knxvault.Errors.{ok}
use knxvault.Repos.{Table, Outcome}
pub mod Listed

-- RevokedCertificate
pub record RevokedCertificate : Type 0 where
  pub serial : Text
  pub ca_id : Text
  pub revoked_at : ℕ
  pub reason : Text

-- RevocationRepository
pub record Revocations : Type 0 where
  pub serial : Table RevokedCertificate
  pub by_ca : Table (List RevokedCertificate)

-- NewRevocationRepository
unfoldable pub new_repository : Revocations
new_repository = record { serial = []; by_ca = [] }

-- A missing key of the map of lists gives the empty list.
abbrev pub list_at : Text → Table (List RevokedCertificate) → List RevokedCertificate
list_at ca_id t = elim (lookup Text-discrete ca_id t) [ none ↦ [] | some certs ↦ certs ]

-- Revoke
unfoldable pub revoke : Revocations → RevokedCertificate → Outcome Revocations (Unit {0})
revoke r cert = elim (lookup Text-discrete cert.serial r.serial) [
  | some _ ↦ (r, ok tt)
  | none ↦ (
    record {
      serial = insert Text-discrete cert.serial cert r.serial;
      by_ca = insert Text-discrete cert.ca_id (list_at cert.ca_id r.by_ca ++ cert ∷ []) r.by_ca;
    },
    ok tt,
  )
]

-- IsRevoked
unfoldable pub is_revoked : Revocations → Text → Bool
is_revoked r serial = elim (lookup Text-discrete serial r.serial) [ none ↦ false | some _ ↦ true ]

-- ListByCA
unfoldable pub list_by_ca : Revocations → Text → List RevokedCertificate
list_by_ca r ca_id = list_at ca_id r.by_ca

-- Clear
unfoldable pub clear : Revocations → Revocations
clear r = record { serial = []; by_ca = [] }
