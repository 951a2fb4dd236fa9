-- ===== src/Raft/Store/Valid.antt =====
-- The well-formed states of the replicated store.
use knxvault.Prelude.{lookup, none, some, ◌≡◌, refl, inl, inr, Text, Bool}
use knxvault.Errors.{ok, err, Result-cases}
use knxvault.Auth.Policy.{Policy}
use knxvault.Auth.Roles.{Role}
use knxvault.Secrets.Store as Secrets
use knxvault.Secrets.Store.Valid.{IsValid}
use knxvault.Secrets.Leases.{Leases}
use knxvault.Audit.Chain.{AuditRepository}
use knxvault.Audit.Chain as Audit
use knxvault.Audit.Chain.Numbered.{AuditValid}
use knxvault.Repos.{Table, Outcome, values}
use knxvault.Repos.Kept.{
  PkiRolesValid, IssuedValid, LeasesValid, PoliciesValid, RolesValid, DatabaseRolesValid,
  SshRolesValid, TokensValid, RotationsValid, IdentitiesValid,
}
use knxvault.Repos.Cas.{Ca}
use knxvault.Repos.Cas.Names.{CasValid}
use knxvault.Repos.PkiRoles.{PkiRole}
use knxvault.Repos.IssuedCerts.{IssuedCertificate}
use knxvault.Repos.Revocations.{Revocations}
use knxvault.Repos.Revocations as Revocations
use knxvault.Repos.Revocations.Listed.{IsListed}
use knxvault.Repos.DatabaseRoles.{DatabaseRole}
use knxvault.Repos.SshRoles.{SshRole}
use knxvault.Repos.Tokens.{ClientToken}
use knxvault.Repos.RotationPolicies.{RotationPolicy}
use knxvault.Repos.Identities.{MachineIdentity}
use knxvault.Backup.Snapshot.{Repos, Snapshot}
use knxvault.Backup.Restore.ReposValid.{ReposValid}
use knxvault.Backup.Restore.ReposValid as R
use knxvault.Backup.Restore.Kept.{restore-ReposValid}
use knxvault.Backup.Restore.{RestoreEnv, restore}
use knxvault.Backup.Validate.{validate_snapshot}
use knxvault.Raft.Store.{Store, repos, new_store, with_repos, replaced, import_snapshot}

-- The repositories are well-formed, the two that no snapshot holds among them.
pub record StoreValid (url_password : Text → Bool) (s : Store) : Type 0 where
  pub repos : ReposValid url_password (repos s)
  pub identities : IdentitiesValid s.identities
  pub rotations : RotationsValid s.rotations

module _ {url_password : Text → Bool} {s : Store} (v : StoreValid url_password s) where
  pub with_cas : (t : Table Ca) → CasValid t → StoreValid url_password (record s { cas = t })
  unfolding repos
  with_cas t h = record {
    repos = R.with_cas v.repos t h;
    identities = v.identities;
    rotations = v.rotations;
  }

  pub with_secrets :
      (t : Secrets.Store) → IsValid t → StoreValid url_password (record s { secrets = t })
  unfolding repos
  with_secrets t h = record {
    repos = R.with_secrets v.repos t h;
    identities = v.identities;
    rotations = v.rotations;
  }

  pub with_audit :
      (t : AuditRepository) → AuditValid t → StoreValid url_password (record s { audit = t })
  unfolding repos
  with_audit t h = record {
    repos = R.with_audit v.repos t h;
    identities = v.identities;
    rotations = v.rotations;
  }

  pub with_revoked :
      (t : Revocations) → IsListed t → StoreValid url_password (record s { revoked = t })
  unfolding repos
  with_revoked t h = record {
    repos = R.with_revoked v.repos t h;
    identities = v.identities;
    rotations = v.rotations;
  }

  pub with_leases : (t : Leases) → LeasesValid t → StoreValid url_password (record s { leases = t })
  unfolding repos
  with_leases t h = record {
    repos = R.with_leases v.repos t h;
    identities = v.identities;
    rotations = v.rotations;
  }

  pub with_policies :
      (t : Table Policy) → PoliciesValid t → StoreValid url_password (record s { policies = t })
  unfolding repos
  with_policies t h = record {
    repos = R.with_policies v.repos t h;
    identities = v.identities;
    rotations = v.rotations;
  }

  pub with_roles :
      (t : Table Role) → RolesValid t → StoreValid url_password (record s { roles = t })
  unfolding repos
  with_roles t h = record {
    repos = R.with_roles v.repos t h;
    identities = v.identities;
    rotations = v.rotations;
  }

  pub with_pki_roles :
      (t : Table PkiRole) → PkiRolesValid t → StoreValid url_password (record s { pki_roles = t })
  unfolding repos
  with_pki_roles t h = record {
    repos = R.with_pki_roles v.repos t h;
    identities = v.identities;
    rotations = v.rotations;
  }

  pub with_db_roles :
      (t : Table DatabaseRole)
      → DatabaseRolesValid url_password t
      → StoreValid url_password (record s { db_roles = t })
  unfolding repos
  with_db_roles t h = record {
    repos = R.with_db_roles v.repos t h;
    identities = v.identities;
    rotations = v.rotations;
  }

  pub with_ssh_roles :
      (t : Table SshRole) → SshRolesValid t → StoreValid url_password (record s { ssh_roles = t })
  unfolding repos
  with_ssh_roles t h = record {
    repos = R.with_ssh_roles v.repos t h;
    identities = v.identities;
    rotations = v.rotations;
  }

  pub with_issued :
      (t : Table IssuedCertificate)
      → IssuedValid t
      → StoreValid url_password (record s { issued = t })
  unfolding repos
  with_issued t h = record {
    repos = R.with_issued v.repos t h;
    identities = v.identities;
    rotations = v.rotations;
  }

  pub with_tokens :
      (t : Table ClientToken) → TokensValid t → StoreValid url_password (record s { tokens = t })
  unfolding repos
  with_tokens t h = record {
    repos = R.with_tokens v.repos t h;
    identities = v.identities;
    rotations = v.rotations;
  }

  pub with_identities :
      (t : Table MachineIdentity)
      → IdentitiesValid t
      → StoreValid url_password (record s { identities = t })
  unfolding repos
  with_identities t h = record { repos = v.repos; identities = h; rotations = v.rotations }

  pub with_rotations :
      (t : Table RotationPolicy)
      → RotationsValid t
      → StoreValid url_password (record s { rotations = t })
  unfolding repos
  with_rotations t h = record { repos = v.repos; rotations = h; identities = v.identities }

some_ne_none : {A : Type 0} {a : A} → none ≡ some a → ⊥
some_ne_none h = cc

-- NewStore
pub new_store-StoreValid : (url_password : Text → Bool) → StoreValid url_password new_store
unfolding new_store repos Audit.new_repository Revocations.new_repository values lookup
    Revocations.list_by_ca
new_store-StoreValid url_password = record {
  repos = record {
    cas = (tt, λ a b i. absurd i);
    secrets = tt;
    audit = refl;
    revoked = (λ cert h. absurd (some_ne_none h), λ ca_id cert i. absurd i);
    leases = tt;
    policies = tt;
    roles = tt;
    pki_roles = tt;
    db_roles = tt;
    ssh_roles = tt;
    issued = tt;
    tokens = tt;
  };
  identities = tt;
  rotations = tt;
}

replaced-StoreValid :
    (url_password : Text → Bool) (s : Store) (o : Outcome Repos (Unit {0}))
    → StoreValid url_password s
    → ReposValid url_password o.0
    → StoreValid url_password (replaced s o).0
unfolding replaced with_repos repos new_store
replaced-StoreValid url_password s (r, ok _) v w = record {
  repos = w;
  identities = tt;
  rotations = tt;
}
replaced-StoreValid url_password s (r, err e) v w = v

-- ImportSnapshot
pub import_snapshot-StoreValid :
    (env : RestoreEnv) (s : Store) (snapshot : Snapshot)
    → StoreValid env.url_password s
    → StoreValid env.url_password (import_snapshot env s snapshot).0
unfolding import_snapshot
import_snapshot-StoreValid env s snapshot v =
    elim (Result-cases (validate_snapshot env.audit snapshot)) [
      | inr (e, p) ↦ rw (p, import_snapshot) v
      | inl (u, p) ↦
          let fresh = (new_store-StoreValid env.url_password).repos in
          rw (p, import_snapshot)
            (replaced-StoreValid env.url_password s (restore env snapshot (repos new_store)) v
              (restore-ReposValid env snapshot (repos new_store) fresh))
    ]
