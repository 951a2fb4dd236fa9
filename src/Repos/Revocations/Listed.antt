-- ===== src/Repos/Revocations/Listed.antt =====
-- The two maps of the revocations, and what Revoke does to them.
use mathlib.Core.Path.{subst}
use knxvault.Prelude.{
  ◌≡◌, ◌≢◌, ◌⊎◌, inl, inr, refl, sym, ◌∙◌, ap, true, false, Option, none, some, List, [], ◌∷◌, ◌++◌,
  Text, Text-discrete, lookup, insert, lookup-insert_self, lookup-insert_ne, In, In-append_left,
  In-append_right, In-append_cases, arith, Option-cases,
}
use knxvault.Errors.{ok}
use knxvault.Repos.{Table}
use knxvault.Repos.Revocations.{
  RevokedCertificate, Revocations, list_at, revoke, is_revoked, list_by_ca,
}

-- The records under a serial number, and those in the list of an authority, are the same ones.
abbrev pub IsListed : Revocations → Type 0
IsListed r =
    ((cert : RevokedCertificate)
      → lookup Text-discrete cert.serial r.serial ≡ some cert
      → In cert (list_by_ca r cert.ca_id))
    × ((ca_id : Text) (cert : RevokedCertificate)
        → In cert (list_by_ca r ca_id)
        → (cert.ca_id ≡ ca_id) × (lookup Text-discrete cert.serial r.serial ≡ some cert))

abbrev ca_of : RevokedCertificate → Text
ca_of c = c.ca_id

abbrev list_or_empty : Option (List RevokedCertificate) → List RevokedCertificate
list_or_empty o = elim o [ none ↦ [] | some certs ↦ certs ]

list_at-insert_self :
    (k : Text) (certs : List RevokedCertificate) (t : Table (List RevokedCertificate))
    → list_at k (insert Text-discrete k certs t) ≡ certs
list_at-insert_self k certs t = ground (arith, lookup-insert_self Text-discrete k certs t)

list_at-insert_ne :
    (k j : Text) (certs : List RevokedCertificate) (t : Table (List RevokedCertificate))
    → k ≢ j
    → list_at j (insert Text-discrete k certs t) ≡ list_at j t
list_at-insert_ne k j certs t h = ap list_or_empty (lookup-insert_ne Text-discrete k j certs t h)

-- The record that Revoke stores under a serial number that is not revoked.
abbrev added : Revocations → RevokedCertificate → Revocations
added r cert = record {
  serial = insert Text-discrete cert.serial cert r.serial;
  by_ca = insert Text-discrete cert.ca_id (list_at cert.ca_id r.by_ca ++ cert ∷ []) r.by_ca;
}

added-own :
    (r : Revocations) (cert : RevokedCertificate) (ca_id : Text)
    → cert.ca_id ≡ ca_id
    → list_by_ca (added r cert) ca_id ≡ list_by_ca r ca_id ++ cert ∷ []
unfolding list_by_ca
added-own r cert ca_id e =
    let certs = list_at cert.ca_id r.by_ca ++ cert ∷ [] in
    let at : Text → List RevokedCertificate =
      λ k. list_at k (insert Text-discrete cert.ca_id certs r.by_ca) in
    ap at (sym e)
    ∙ (list_at-insert_self cert.ca_id certs r.by_ca ∙ ap (λ k. list_at k r.by_ca ++ cert ∷ []) e)

added-other :
    (r : Revocations) (cert : RevokedCertificate) (ca_id : Text)
    → cert.ca_id ≢ ca_id
    → list_by_ca (added r cert) ca_id ≡ list_by_ca r ca_id
unfolding list_by_ca
added-other r cert ca_id h = list_at-insert_ne cert.ca_id ca_id _ r.by_ca h

added-listed :
    (r : Revocations) (cert c : RevokedCertificate)
    → IsListed r
    → lookup Text-discrete c.serial (added r cert).serial ≡ some c
    → In c (list_by_ca (added r cert) c.ca_id)
added-listed r cert c v h = elim (Text-discrete cert.serial c.serial) [
  | yes p ↦
      let same : cert ≡ c =
        ground (arith, lookup-insert_self Text-discrete cert.serial cert r.serial) in
      rw (added-own r cert c.ca_id (ap ca_of same))
        (In-append_right c (list_by_ca r c.ca_id) (cert ∷ []) (inl same))
  | no p ↦
      let old =
        v.0 c (sym (lookup-insert_ne Text-discrete cert.serial c.serial cert r.serial p) ∙ h) in
      elim (Text-discrete cert.ca_id c.ca_id) [
        | yes q ↦
            rw (added-own r cert c.ca_id q)
              (In-append_left c (list_by_ca r c.ca_id) (cert ∷ []) old)
        | no q ↦ rw (added-other r cert c.ca_id q) old
      ]
]

-- A record of before is found as before, since its serial number was revoked already.
kept :
    (r : Revocations) (cert c : RevokedCertificate) (ca_id : Text)
    → lookup Text-discrete cert.serial r.serial ≡ none
    → IsListed r
    → In c (list_by_ca r ca_id)
    → (c.ca_id ≡ ca_id) × (lookup Text-discrete c.serial (added r cert).serial ≡ some c)
kept r cert c ca_id n v i =
    let (p, q) = v.1 ca_id c i in
    (p, lookup-insert_ne Text-discrete cert.serial c.serial cert r.serial (λ e. ground arith) ∙ q)

listed-added :
    (r : Revocations) (cert c : RevokedCertificate) (ca_id : Text)
    → lookup Text-discrete cert.serial r.serial ≡ none
    → IsListed r
    → In c (list_by_ca (added r cert) ca_id)
    → (c.ca_id ≡ ca_id) × (lookup Text-discrete c.serial (added r cert).serial ≡ some c)
listed-added r cert c ca_id n v i = elim (Text-discrete cert.ca_id ca_id) [
  | no p ↦ kept r cert c ca_id n v (subst (In c) (added-other r cert ca_id p) i)
  | yes p ↦
      elim (In-append_cases c (list_by_ca r ca_id) (cert ∷ [])
        (subst (In c) (added-own r cert ca_id p) i)) [
          | inl j ↦ kept r cert c ca_id n v j
          | inr j ↦ elim j [
            | inl e ↦ (
              ap ca_of (sym e) ∙ p,
              subst (λ x. lookup Text-discrete x.serial (added r cert).serial ≡ some x) e
                  (lookup-insert_self Text-discrete cert.serial cert r.serial),
            )
            | inr z ↦ absurd z
          ]
        ]
]

revoke-again :
    (r : Revocations) (cert old : RevokedCertificate)
    → lookup Text-discrete cert.serial r.serial ≡ some old
    → revoke r cert ≡ (r, ok tt)
unfolding revoke
revoke-again r cert old e = rw (e, revoke) refl

revoke-new :
    (r : Revocations) (cert : RevokedCertificate)
    → lookup Text-discrete cert.serial r.serial ≡ none
    → revoke r cert ≡ (added r cert, ok tt)
unfolding revoke
revoke-new r cert e = rw (e, revoke) refl

-- Revoke keeps the two maps in step.
pub revoke-IsListed :
    (r : Revocations) (cert : RevokedCertificate) → IsListed r → IsListed (revoke r cert).0
revoke-IsListed r cert v = elim (Option-cases (lookup Text-discrete cert.serial r.serial)) [
  | inr (old, e) ↦ rw (revoke-again r cert old e) v
  | inl e ↦
      rw (revoke-new r cert e)
        (λ c h. added-listed r cert c v h, λ ca_id c i. listed-added r cert c ca_id e v i)
]

-- After a Revoke that returns no error the serial number is revoked; it was revoked before, and
-- then nothing changed, or the record is the last of the list of its authority. Every other serial
-- number is revoked as before, and every other list is as before.
pub revoke-is_revoked :
    (r : Revocations) (cert : RevokedCertificate)
    → (is_revoked (revoke r cert).0 cert.serial ≡ true)
      × ((is_revoked r cert.serial ≡ true) × ((revoke r cert).0 ≡ r)
          ⊎ (is_revoked r cert.serial ≡ false)
            × (list_by_ca (revoke r cert).0 cert.ca_id ≡ list_by_ca r cert.ca_id ++ cert ∷ []))
      × ((serial : Text)
          → serial ≢ cert.serial
          → is_revoked (revoke r cert).0 serial ≡ is_revoked r serial)
      × ((ca_id : Text)
          → ca_id ≢ cert.ca_id
          → list_by_ca (revoke r cert).0 ca_id ≡ list_by_ca r ca_id)
unfolding is_revoked
revoke-is_revoked r cert = elim (Option-cases (lookup Text-discrete cert.serial r.serial)) [
  | inr (old, e) ↦
      rw (revoke-again r cert old e)
        (ground arith, inl (ground arith, refl), λ serial h. refl, λ ca_id h. refl)
  | inl e ↦ rw (revoke-new r cert e) (
    ground (arith, lookup-insert_self Text-discrete cert.serial cert r.serial),
    inr (ground arith, added-own r cert cert.ca_id refl),
    λ serial h. ground (arith, lookup-insert_ne Text-discrete cert.serial serial cert r.serial),
    λ ca_id h. added-other r cert ca_id (λ p. h (sym p)),
  )
]
