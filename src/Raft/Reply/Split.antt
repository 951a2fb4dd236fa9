-- ===== src/Raft/Reply/Split.antt =====
-- How a handler that may change the store is split: on whether its payload is read, and on what the
-- repository returns.
use knxvault.Prelude.{◌≡◌, refl, ap, Option, none, some, Text}
use knxvault.Errors.{Result, ok, err, fail, internal}
use knxvault.Repos.{Outcome}
use knxvault.Raft.Values.{Kind, Val, Any}
use knxvault.Raft.Store.{Store}
use knxvault.Raft.Reply.{Library, Reply, with_payload, change, wrote}

module _ (lib : Library) (k : Kind) (payload : Text) (s : Store) where
  -- Two handlers that leave the same store for every payload.
  pub change-agrees :
      (f g : Val k → Reply)
      → ((v : Val k) → lib.json.decode k payload ≡ some v → (f v).0 ≡ (g v).0)
      → (change lib k payload s f).0 ≡ (change lib k payload s g).0
  change-agrees f g h = go (lib.json.decode k payload) refl
    where
      left : (Val k → Reply) → Option (Val k) → Reply
      left f o = elim o [ none ↦ (s, fail internal (lib.json.complaint k payload)) | some v ↦ f v ]

      go : (o : Option (Val k)) → lib.json.decode k payload ≡ o → (left f o).0 ≡ (left g o).0
      go none e = refl
      go (some v) e = h v e

  -- What holds of the store before, and of the store after for every payload.
  pub change-keeps :
      (P : Store → Type 0) (f : Val k → Reply)
      → P s
      → ((v : Val k) → lib.json.decode k payload ≡ some v → P (f v).0)
      → P (change lib k payload s f).0
  change-keeps P f p h = go (lib.json.decode k payload) refl
    where
      left : Option (Val k) → Reply
      left o = elim o [ none ↦ (s, fail internal (lib.json.complaint k payload)) | some v ↦ f v ]

      go : (o : Option (Val k)) → lib.json.decode k payload ≡ o → P (left o).0
      go none e = p
      go (some v) e = h v e

  -- A payload that is read.
  pub change-some :
      (f : Val k → Reply) (v : Val k)
      → lib.json.decode k payload ≡ some v
      → change lib k payload s f ≡ f v
  change-some f v e = ap left e
    where
      left : Option (Val k) → Reply
      left o = elim o [ none ↦ (s, fail internal (lib.json.complaint k payload)) | some w ↦ f w ]

-- A query whose payload is read.
pub with_payload-some :
    (lib : Library) (k : Kind) (payload : Text) (f : Val k → Result Any) (v : Val k)
    → lib.json.decode k payload ≡ some v
    → with_payload lib k payload f ≡ f v
with_payload-some lib k payload f v e = ap left e
  where
    left : Option (Val k) → Result Any
    left o = elim o [ none ↦ fail internal (lib.json.complaint k payload) | some w ↦ f w ]

pub wrote-store : {T : Type 0} (f : T → Store) (o : Outcome T (Unit {0})) → (wrote f o).0 ≡ f o.0
wrote-store f (t, ok _) = refl
wrote-store f (t, err e) = refl

pub wrote-keeps :
    {T : Type 0} (P : Store → Type 0) (f : T → Store) (o : Outcome T (Unit {0}))
    → P (f o.0)
    → P (wrote f o).0
wrote-keeps P f (t, ok _) p = p
wrote-keeps P f (t, err e) p = p
