-- ===== src/Raft/Store/Import.antt =====
-- What an import of a snapshot does to the store.
use knxvault.Prelude.{◌≡◌, ◌⊎◌, inl, inr, refl, ap, []}
use knxvault.Errors.{KnxVaultError, ok, err, Result-cases}
use knxvault.Repos.{Outcome}
use knxvault.Backup.Snapshot.{Snapshot, Repos}
use knxvault.Backup.Validate.{validate_snapshot}
use knxvault.Backup.Restore.{RestoreEnv, restore}
use knxvault.Raft.Store.{Store, new_store, repos, with_repos, replaced, import_snapshot}

replaced-cases :
    (s : Store) (o : Outcome Repos (Unit {0}))
    → ((e : KnxVaultError) × ((replaced s o).1 ≡ err e) × ((replaced s o).0 ≡ s))
      ⊎ ((replaced s o).1 ≡ ok tt) × ((replaced s o).0 ≡ with_repos new_store o.0) × (o.1 ≡ ok tt)
unfolding replaced
replaced-cases s (r, ok u) = inr (refl, refl, refl)
replaced-cases s (r, err e) = inl (e, refl, refl)

import_snapshot-refused :
    (env : RestoreEnv) (s : Store) (snapshot : Snapshot) (e : KnxVaultError)
    → validate_snapshot env.audit snapshot ≡ err e
    → import_snapshot env s snapshot ≡ (s, err e)
unfolding import_snapshot
import_snapshot-refused env s snapshot e p = rw (p, import_snapshot) refl

import_snapshot-checked :
    (env : RestoreEnv) (s : Store) (snapshot : Snapshot)
    → validate_snapshot env.audit snapshot ≡ ok tt
    → import_snapshot env s snapshot ≡ replaced s (restore env snapshot (repos new_store))
unfolding import_snapshot
import_snapshot-checked env s snapshot p = rw (p, import_snapshot) refl

-- An import that gives an error leaves the store as it was. One that succeeds leaves what Restore makes
-- of the snapshot in an empty store, whatever was stored before; no machine identity and no rotation
-- policy is left.
pub import_snapshot-all_or_nothing :
    (env : RestoreEnv) (s : Store) (snapshot : Snapshot)
    → ((e : KnxVaultError) × ((import_snapshot env s snapshot).1 ≡ err e)
        × ((import_snapshot env s snapshot).0 ≡ s))
      ⊎ ((import_snapshot env s snapshot).1 ≡ ok tt)
        × ((import_snapshot env s snapshot).0
            ≡ with_repos new_store (restore env snapshot (repos new_store)).0)
        × ((import_snapshot env s snapshot).0.identities ≡ [])
        × ((import_snapshot env s snapshot).0.rotations ≡ [])
unfolding new_store with_repos
import_snapshot-all_or_nothing env s snapshot =
    elim (Result-cases (validate_snapshot env.audit snapshot)) [
      | inr (e, p) ↦ rw (import_snapshot-refused env s snapshot e p) (inl (e, refl, refl))
      | inl (u, p) ↦
          rw (import_snapshot-checked env s snapshot p)
            (elim (replaced-cases s (restore env snapshot (repos new_store))) [
              | inl h ↦ inl h
              | inr (h, q, _) ↦ inr (h, q, ap (λ t. t.identities) q, ap (λ t. t.rotations) q)
            ])
    ]
