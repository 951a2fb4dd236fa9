-- ===== src/Secrets/Store/Valid.antt =====
-- The well-formed maps: each entry stands under its own path and version, once.
use mathlib.Core.Logic.{if_pos, if_neg}
use knxvault.Prelude.{
  is_empty, ℕ, zero, suc, ◌≤◌, ◌≡◌, inl, inr, refl, true, ◌||◌, Option, none, some, List, [], ◌∷◌,
  Text, codes, lookup, insert, delete, lookup-insert, lookup-delete, length, arith, Bool-cases,
  Option-cases, ltb, leb, if◌then◌else◌,
}
use knxvault.Errors.{KnxVaultError, ok, err, validation}
use knxvault.Secrets.Store.{
  SecretVersion, SecretKey, SecretKey-discrete, Store, get, key_of, validate, save_version,
  remove_first, trim_versions, cas_holds, put_atomic, update_dek_enc, destroy_version, next_version,
  live_versions, sort_ints,
}

abbrev pub IsValid : Store → Type 0
IsValid [] = Unit
IsValid ((k, sv) ∷ s) = (k ≡ key_of sv) × (1 ≤ sv.version) × (get k s ≡ none) × IsValid s

get_nil : (k : SecretKey) → get k [] ≡ none
unfolding lookup
get_nil k = refl

insert-IsValid :
    (s : Store) (k : SecretKey) (sv : SecretVersion)
    → k ≡ key_of sv
    → 1 ≤ sv.version
    → IsValid s
    → IsValid (insert SecretKey-discrete k sv s)
unfolding insert
insert-IsValid [] k sv e p v = (e, p, get_nil k, tt)
insert-IsValid ((j, w) ∷ s) k sv e p v = elim (SecretKey-discrete j k) [
  | yes q ↦ rw (if_pos _ q) (e, p, rw (← q) v.2, v.3)
  | no q ↦ rw (if_neg _ q) (
    v.0,
    v.1,
    ground (arith, lookup-insert SecretKey-discrete k j sv s),
    insert-IsValid s k sv e p v.3,
  )
]

delete-IsValid : (s : Store) (k : SecretKey) → IsValid s → IsValid (delete SecretKey-discrete k s)
unfolding delete
delete-IsValid [] k v = tt
delete-IsValid ((j, w) ∷ s) k v = elim (SecretKey-discrete j k) [
  | yes q ↦ rw (if_pos _ q) (delete-IsValid s k v.3)
  | no q ↦
      rw (if_neg _ q)
        (v.0, v.1, ground (arith, lookup-delete SecretKey-discrete k j s), delete-IsValid s k v.3)
]

get-IsValid :
    (s : Store) (k : SecretKey) (sv : SecretVersion)
    → IsValid s
    → get k s ≡ some sv
    → (k ≡ key_of sv) × (1 ≤ sv.version)
unfolding lookup
get-IsValid [] k sv v h = absurd (cc)
get-IsValid ((j, w) ∷ s) k sv v h = ground (arith, get-IsValid s k sv v.3)

validate-version : (sv : SecretVersion) → validate sv ≡ true → 1 ≤ sv.version
unfolding validate
validate-version sv h = ground arith

-- A saved version keeps the map well formed.
save_version-IsValid : (s : Store) (sv : SecretVersion) → IsValid s → IsValid (save_version s sv).0
unfolding save_version
save_version-IsValid s sv v = elim (Bool-cases (validate sv)) [
  | inr e ↦ rw e v
  | inl e ↦ elim (Option-cases (get (key_of sv) s)) [
    | inr (w, f) ↦ rw (e, f) v
    | inl f ↦ rw (e, f) (insert-IsValid s (key_of sv) sv refl (validate-version sv e) v)
  ]
]

remove_first-IsValid :
    (path : Text) (n : ℕ) (versions : List ℕ) (s : Store)
    → IsValid s
    → IsValid (remove_first path n versions s)
unfolding remove_first
remove_first-IsValid path zero versions s v = v
remove_first-IsValid path (suc n) [] s v = v
remove_first-IsValid path (suc n) (x ∷ versions) s v =
    remove_first-IsValid path n versions _
      (delete-IsValid s (record { path = path; version = x }) v)

trim_versions-IsValid :
    (s : Store) (path : Text) (max : ℕ) → IsValid s → IsValid (trim_versions s path max)
unfolding trim_versions
trim_versions-IsValid s path max v = elim (Bool-cases (leb (length (live_versions path s)) max)) [
  | inl e ↦ rw e v
  | inr e ↦ rw e (remove_first-IsValid path _ (sort_ints (live_versions path s)) s v)
]

-- What a successful PutAtomic stores, and the map that it leaves.
abbrev pub stored_by : Store → SecretVersion → SecretVersion
stored_by s sv = record sv { version = next_version s sv.path }

abbrev pub saved_by : Store → SecretVersion → Store
saved_by s sv = insert SecretKey-discrete (key_of (stored_by s sv)) (stored_by s sv) s

abbrev pub left_by : Store → SecretVersion → ℕ → Store
left_by s sv max = if ltb 0 max then trim_versions (saved_by s sv) sv.path max else saved_by s sv

-- The two ways in which PutAtomic ends.
pub data Put (s : Store) (sv : SecretVersion) (cas : Option ℕ) (max : ℕ) : Type 0 where
  refused : (e : KnxVaultError) → put_atomic s sv cas max ≡ (s, err e) → Put s sv cas max
  stored :
      cas_holds s sv.path cas ≡ true
      → validate (stored_by s sv) ≡ true
      → get (key_of (stored_by s sv)) s ≡ none
      → put_atomic s sv cas max ≡ (left_by s sv max, ok (next_version s sv.path))
      → Put s sv cas max

pub Put-of : (s : Store) (sv : SecretVersion) (cas : Option ℕ) (max : ℕ) → Put s sv cas max
unfolding put_atomic
Put-of s sv cas max = elim (Bool-cases (cas_holds s sv.path cas)) [
  | inr e ↦ refused (record { code = validation; message = codes "cas version mismatch" }) (rw e)
  | inl e ↦ elim (Bool-cases (validate (stored_by s sv))) [
    | inr f ↦
        refused (record { code = validation; message = codes "invalid secret version" }) (rw (e, f))
    | inl f ↦ elim (Option-cases (get (key_of (stored_by s sv)) s)) [
      | inr (w, g) ↦
          refused (record { code = validation; message = codes "secret version already exists" })
            (rw (e, f, g))
      | inl g ↦ stored e f g (rw (e, f, g))
    ]
  ]
]

pub saved-IsValid :
    (s : Store) (sv : SecretVersion)
    → validate (stored_by s sv) ≡ true
    → IsValid s
    → IsValid (saved_by s sv)
saved-IsValid s sv f v =
    insert-IsValid s _ (stored_by s sv) refl (validate-version (stored_by s sv) f) v

pub left_by-IsValid :
    (s : Store) (sv : SecretVersion) (max : ℕ)
    → validate (stored_by s sv) ≡ true
    → IsValid s
    → IsValid (left_by s sv max)
left_by-IsValid s sv max f v =
    let w = saved-IsValid s sv f v in
    elim (Bool-cases (ltb 0 max)) [
      | inl e ↦ rw e (trim_versions-IsValid (saved_by s sv) sv.path max w)
      | inr e ↦ rw e w
    ]

put_atomic-IsValid :
    (s : Store) (sv : SecretVersion) (cas : Option ℕ) (max : ℕ)
    → IsValid s
    → IsValid (put_atomic s sv cas max).0
put_atomic-IsValid s sv cas max v = elim (Put-of s sv cas max) [
  | refused e p ↦ rw p v
  | stored _ f _ p ↦ rw p (left_by-IsValid s sv max f v)
]

update_dek_enc-IsValid :
    (s : Store) (path : Text) (version : ℕ) (dek : List ℕ)
    → IsValid s
    → IsValid (update_dek_enc s path version dek).0
unfolding update_dek_enc
update_dek_enc-IsValid s path version dek v =
    let key : SecretKey = record { path = path; version = version } in
    elim (Bool-cases (is_empty path || ltb version 1 || is_empty dek)) [
      | inl e ↦ rw e v
      | inr e ↦ elim (Option-cases (get key s)) [
        | inl f ↦ rw (e, f) v
        | inr (sv, f) ↦
            let (g, p) = get-IsValid s key sv v f in
            rw (e, f) (insert-IsValid s key (record sv { dek_enc = dek }) g p v)
      ]
    ]

destroy_version-IsValid :
    (s : Store) (path : Text) (version : ℕ) → IsValid s → IsValid (destroy_version s path version).0
unfolding destroy_version
destroy_version-IsValid s path version v =
    let key : SecretKey = record { path = path; version = version } in
    elim (Option-cases (get key s)) [
      | inl f ↦ rw (f, destroy_version) v
      | inr (sv, f) ↦ elim (Bool-cases sv.destroyed) [
        | inl e ↦ rw (f, e, destroy_version) v
        | inr e ↦
            let (g, p) = get-IsValid s key sv v f in
            rw (f, e, destroy_version) (insert-IsValid s key (record sv { destroyed = true }) g p v)
      ]
    ]

-- Each operation that changes the map keeps it well formed, whether it succeeds or fails.
pub operations-IsValid :
    (s : Store)
    → IsValid s
    → ((sv : SecretVersion) → IsValid (save_version s sv).0)
      × ((sv : SecretVersion) (cas : Option ℕ) (max : ℕ) → IsValid (put_atomic s sv cas max).0)
      × ((path : Text) (version : ℕ) (dek : List ℕ) → IsValid (update_dek_enc s path version dek).0)
      × ((path : Text) (version : ℕ) → IsValid (destroy_version s path version).0)
operations-IsValid s v = (
  λ sv. save_version-IsValid s sv v,
  λ sv cas max. put_atomic-IsValid s sv cas max v,
  λ path version dek. update_dek_enc-IsValid s path version dek v,
  λ path version. destroy_version-IsValid s path version v,
)
