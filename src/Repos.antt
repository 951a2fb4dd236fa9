-- ===== src/Repos.antt =====
-- What the in-memory repositories of internal/repository/memory share. A map from texts to records
-- is a list of entries, in the order in which a range visits it. A repository keeps a copy of what it
-- is given and hands out copies, so a record is a value. Identifiers of type UUID are texts, as they
-- are printed. Times are nanoseconds since the zero time, which is 0; a number of seconds that is not
-- positive stands as 0.
use knxvault.Prelude.{
  take, ℕ, Bool, not, none, some, List, [], ◌∷◌, Text, codes, Text-discrete, lookup, insert, delete,
  length, ltb, ◌==◌, if◌then◌else◌,
}
use knxvault.Errors.{Result, ok, fail, validation, not_found}
pub mod Keyed
pub mod Kept
pub mod Sorted
pub mod Cas
pub mod PkiRoles
pub mod IssuedCerts
pub mod Revocations
pub mod Policies
pub mod Roles
pub mod DatabaseRoles
pub mod SshRoles
pub mod RotationPolicies
pub mod Identities
pub mod Tokens
pub mod Tests

abbrev pub Table : Type 0 → Type 0
Table A = List (Text × A)

-- What a call leaves behind, and what it returns.
abbrev pub Outcome : Type 0 → Type 0 → Type 0
Outcome S A = S × Result A

-- uuid.Nil
abbrev pub nil_uuid : Text
nil_uuid = codes "00000000-0000-0000-0000-000000000000"

module _ {A : Type 0} where
  -- A Save that checks the record, and stores it under its key.
  unfoldable pub put : Bool → Text → Text → A → Table A → Outcome (Table A) (Unit {0})
  put good message key a t =
      if not good then (t, fail validation message) else (insert Text-discrete key a t, ok tt)

  -- A Get.
  unfoldable pub find : Text → Text → Table A → Result A
  find message key t = elim (lookup Text-discrete key t) [
    | none ↦ fail not_found message
    | some a ↦ ok a
  ]

  -- A Delete.
  unfoldable pub remove : Text → Text → Table A → Outcome (Table A) (Unit {0})
  remove message key t = elim (lookup Text-discrete key t) [
    | none ↦ (t, fail not_found message)
    | some _ ↦ (delete Text-discrete key t, ok tt)
  ]

  -- A change of the record behind the stored pointer.
  unfoldable pub modify : Text → (A → A) → Text → Table A → Outcome (Table A) (Unit {0})
  modify message change key t = elim (lookup Text-discrete key t) [
    | none ↦ (t, fail not_found message)
    | some a ↦ (insert Text-discrete key (change a) t, ok tt)
  ]

  -- The records, as a range collects them.
  unfoldable pub values : Table A → List A
  values [] = []
  values ((_, a) ∷ t) = a ∷ values t

  -- The records that pass a test, as a range with a continue collects them.
  unfoldable pub select : (A → Bool) → List A → List A
  select keep [] = []
  select keep (a ∷ xs) = let rest = select keep xs in if keep a then a ∷ rest else rest

  -- sort.Slice by a comparison.
  unfoldable pub place : (A → A → Bool) → A → List A → List A
  place less x [] = x ∷ []
  place less x (y ∷ ys) = if less y x then y ∷ place less x ys else x ∷ y ∷ ys

  unfoldable pub sort_by : (A → A → Bool) → List A → List A
  unfolding place
  sort_by less [] = []
  sort_by less (x ∷ xs) = place less x (sort_by less xs)

  -- out[:limit], where the list is longer.
  unfoldable pub cut : ℕ → List A → List A
  unfolding take
  cut limit xs = if ltb limit (length xs) then take limit xs else xs

-- The limit that stands for one that is not positive.
abbrev pub limit_or_default : ℕ → ℕ
limit_or_default limit = if limit == 0 then 100 else limit
