-- ===== src/Prelude/Entries.antt =====
-- The entries of a map, and how the operations move them.
use mathlib.Core.Path.{◌≡◌, refl}
use mathlib.Core.Logic.{◌≢◌, inl, inr}
use mathlib.Core.List.{List, [], ◌∷◌, ◌++◌}
use mathlib.Core.Option.{none, some}
use native.Mathlib.Omega.{arith}
use knxvault.Prelude.Assoc.{lookup, insert, delete, In}

module _ {K V : Type 0} (dec : Discrete K) where
  pub In_of-lookup : (k : K) (v : V) (m : List (K × V)) → lookup dec k m ≡ some v → In (k, v) m
  unfolding lookup
  In_of-lookup k v [] h = absurd (cc)
  In_of-lookup k v ((j, w) ∷ m) h = elim (dec j k) [
    | yes p ↦ inl (ground arith)
    | no p ↦ inr (In_of-lookup k v m (ground arith))
  ]

  pub lookup-none-ne :
      (k : K) (e : K × V) (m : List (K × V)) → lookup dec k m ≡ none → In e m → e.0 ≢ k
  unfolding lookup
  lookup-none-ne k e [] h i = absurd i
  lookup-none-ne k e ((j, w) ∷ m) h (inl p) = ground arith
  lookup-none-ne k e ((j, w) ∷ m) h (inr i) = ground (arith, lookup-none-ne k e m)

  pub insert_new :
      (k : K) (v : V) (m : List (K × V))
      → lookup dec k m ≡ none
      → insert dec k v m ≡ m ++ (k, v) ∷ []
  unfolding lookup insert
  insert_new k v [] h = refl
  insert_new k v ((j, w) ∷ m) h = ground (arith, insert_new k v m)

  pub In-delete : (k : K) (e : K × V) (m : List (K × V)) → In e (delete dec k m) → In e m
  unfolding delete
  In-delete k e [] i = i
  In-delete k e ((j, w) ∷ m) i = elim (dec j k) [
    | yes p ↦ inr (In-delete k e m (ground arith))
    | no p ↦ ground (arith, In-delete k e m)
  ]

  pub In-delete_ne :
      (k : K) (e : K × V) (m : List (K × V)) → e.0 ≢ k → In e m → In e (delete dec k m)
  unfolding delete
  In-delete_ne k e [] h i = i
  In-delete_ne k e ((j, w) ∷ m) h (inl p) = ground arith
  In-delete_ne k e ((j, w) ∷ m) h (inr i) = ground (arith, In-delete_ne k e m h i)

  pub In-insert_ne :
      (k : K) (v : V) (e : K × V) (m : List (K × V)) → e.0 ≢ k → In e m → In e (insert dec k v m)
  unfolding insert
  In-insert_ne k v e [] h i = absurd i
  In-insert_ne k v e ((j, w) ∷ m) h (inl p) = ground arith
  In-insert_ne k v e ((j, w) ∷ m) h (inr i) = ground (arith, In-insert_ne k v e m h i)
