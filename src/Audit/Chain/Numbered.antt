-- ===== src/Audit/Chain/Numbered.antt =====
-- The numbers that Append gives to the entries of the audit log.
use knxvault.Prelude.{
  ℕ, ◌+◌, ◌≡◌, inl, inr, refl, is_empty, ◌||◌, List, [], ◌∷◌, ◌++◌, arith, Bool-cases,
}
use knxvault.Audit.Chain.{AuditEntry, AuditRepository, append}

-- Entries that are numbered one after the other, from a number up to the one before another.
abbrev pub Numbered : ℕ → List AuditEntry → ℕ → Type 0
Numbered n [] m = n ≡ m
Numbered n (e ∷ es) m = (e.id ≡ n) × Numbered (n + 1) es m

abbrev pub AuditValid : AuditRepository → Type 0
AuditValid r = Numbered 1 r.entries r.next_id

Numbered-append :
    (n m : ℕ) (es : List AuditEntry) (e : AuditEntry)
    → Numbered n es m
    → e.id ≡ m
    → Numbered n (es ++ e ∷ []) (m + 1)
Numbered-append n m [] e h p = (ground arith, ground arith)
Numbered-append n m (x ∷ es) e h p = (h.0, Numbered-append (n + 1) m es e h.1 p)

pub append-AuditValid :
    (r : AuditRepository) (e : AuditEntry) → AuditValid r → AuditValid (append r e).0
unfolding append
append-AuditValid r e v = elim (Bool-cases (is_empty e.action || is_empty e.status)) [
  | inl p ↦ rw (p, append) v
  | inr p ↦
      rw (p, append) (Numbered-append 1 r.next_id r.entries (record e { id = r.next_id }) v refl)
]
