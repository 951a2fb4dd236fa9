-- ===== src/Audit/Chain/Payload.antt =====
-- What the hash of an entry does not tell apart.
use knxvault.Prelude.{ℕ, ◌≡◌, refl, ap, [], ◌∷◌, ◌++◌, Option, none, some, Text, arith}
use knxvault.Audit.Redact.{Fields, end_fields}
use knxvault.Audit.Chain.{AuditEnv, bar, payload, compute_hash}

append_assoc : (a b c : Text) → (a ++ b) ++ c ≡ a ++ (b ++ c)
append_assoc [] b c = refl
append_assoc (x ∷ a) b c = ap (◌∷◌ x) (append_assoc a b c)

-- Text behind a bar that moves from the end of the actor to the start of the action leaves the hash
-- as it is, whatever the hash function is.
pub compute_hash-shift :
    (env : AuditEnv) (prev actor moved action resource status : Text) (details : Option Fields)
    (ts : ℕ)
    → compute_hash env prev (actor ++ bar env moved) action resource status details ts
      ≡ compute_hash env prev actor (moved ++ bar env action) resource status details ts
unfolding compute_hash payload
compute_hash-shift env prev actor moved action resource status details ts = ground (
  arith,
  append_assoc actor (bar env moved) (
      bar env (
        action
        ++ bar env (
            resource
            ++ bar env (
                status
                ++ bar env (env.marshal (elim details [ none ↦ end_fields | some fs ↦ fs ])))))),
  append_assoc moved (bar env action) (
      bar env (
        resource
        ++ bar env
            (status ++ bar env (env.marshal (elim details [ none ↦ end_fields | some fs ↦ fs ]))))),
)
