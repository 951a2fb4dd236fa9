-- ===== src/Secrets/Store/Latest.antt =====
-- The loop that looks for the newest live version finds an entry that is above all others.
use mathlib.Core.Logic.{if_pos, if_neg}
use knxvault.Prelude.{
  ◌<◌, ◌≡◌, ◌≢◌, ◌⊎◌, inl, inr, refl, sym, ap, ◌∙◌, Bool, false, ◌||◌, not, Option, none, some, [],
  ◌∷◌, Text, str_eq, insert, delete, In, arith, Bool-cases, ltb, if◌then◌else◌,
}
use knxvault.Secrets.Store.{
  SecretVersion, SecretKey, SecretKey-discrete, Store, newer, latest_from, latest_non_destroyed,
}
use knxvault.Secrets.Store.Numbers.{Entry}

-- The best so far is not above `sv`.
abbrev NotAbove : SecretVersion → Option SecretVersion → Type 0
NotAbove sv none = Unit
NotAbove sv (some b) = (b.version < sv.version) ⊎ (b ≡ sv)

-- Every live entry at the path is below `sv`, or is its entry.
abbrev pub IsNewest : Text → SecretVersion → Store → Type 0
IsNewest path sv s =
    (e : Entry) → In e s → e.0.path ≡ path → (e.1.version < sv.version) ⊎ (e.1 ≡ sv)

newer_self :
    (sv w : SecretVersion) (b : Option SecretVersion) → w ≡ sv → NotAbove sv b → newer b w ≡ some sv
unfolding newer
newer_self sv w none e n = ground arith
newer_self sv w (some b) e (inl l) = ground arith
newer_self sv w (some b) e (inr q) = ground arith

newer-NotAbove :
    (sv w : SecretVersion) (b : Option SecretVersion)
    → (w.version < sv.version) ⊎ (w ≡ sv)
    → NotAbove sv b
    → NotAbove sv (newer b w)
unfolding newer
newer-NotAbove sv w none h n = h
newer-NotAbove sv w (some b) h n = elim (Bool-cases (ltb b.version w.version)) [
  | inl e ↦ rw e h
  | inr e ↦ rw e n
]

newer_keeps :
    (sv w : SecretVersion) (b : Option SecretVersion)
    → (w.version < sv.version) ⊎ (w ≡ sv)
    → b ≡ some sv
    → newer b w ≡ some sv
unfolding newer
newer_keeps sv w b (inl l) e = rw e (ground arith)
newer_keeps sv w b (inr q) e = rw e (ground arith)

pub latest_from-newest :
    (path : Text) (k : SecretKey) (sv : SecretVersion) (s : Store) (b : Option SecretVersion)
    → k.path ≡ path
    → sv.destroyed ≡ false
    → In (k, sv) s ⊎ (b ≡ some sv)
    → IsNewest path sv s
    → NotAbove sv b
    → latest_from path s b ≡ some sv
unfolding latest_from
latest_from-newest path k sv [] b p d (inl i) new n = absurd i
latest_from-newest path k sv [] b p d (inr e) new n = e
latest_from-newest path k sv ((j, w) ∷ s) b p d found new n =
    latest_from-newest path k sv s _ p d (next found) (λ e i. new e (inr i)) stays
  where
    skip : Bool
    skip = not (str_eq j.path path) || w.destroyed

    at_path : skip ≡ false → j.path ≡ path
    at_path f = ground arith

    stays : NotAbove sv (if skip then b else newer b w)
    stays = elim (Bool-cases skip) [
      | inl e ↦ rw e n
      | inr e ↦ rw e (newer-NotAbove sv w b (new (j, w) (inl refl) (at_path e)) n)
    ]

    next :
        (In (k, sv) ((j, w) ∷ s)) ⊎ (b ≡ some sv)
        → In (k, sv) s ⊎ ((if skip then b else newer b w) ≡ some sv)
    next (inl (inr i)) = inl i
    next (inl (inl q)) =
        let j' : j ≡ k = ap (λ t. t.0) q in
        let w' : w ≡ sv = ap (λ t. t.1) q in
        let j_path : j.path ≡ path = ap (λ t. t.path) j' ∙ p in
        let w_live : w.destroyed ≡ false = ap (λ t. t.destroyed) w' ∙ d in
        let live : skip ≡ false = ground arith in inr (rw live (newer_self sv w b w' n))
    next (inr e) = elim (Bool-cases skip) [
      | inl f ↦ inr (rw f e)
      | inr f ↦ inr (rw f (newer_keeps sv w b (new (j, w) (inl refl) (at_path f)) e))
    ]

-- In a map where `sv` is live and above all other entries at its path, it is the latest.
pub latest_non_destroyed-newest :
    (path : Text) (k : SecretKey) (sv : SecretVersion) (s : Store)
    → k.path ≡ path
    → sv.destroyed ≡ false
    → In (k, sv) s
    → IsNewest path sv s
    → latest_non_destroyed s path ≡ some sv
unfolding latest_non_destroyed
latest_non_destroyed-newest path k sv s p d i new =
    latest_from-newest path k sv s none p d (inl i) new tt

-- Entries at other paths do not matter.
pub latest_from-insert_ne :
    (path : Text) (k : SecretKey) (sv : SecretVersion) (s : Store) (b : Option SecretVersion)
    → k.path ≢ path
    → latest_from path (insert SecretKey-discrete k sv s) b ≡ latest_from path s b
unfolding latest_from insert
latest_from-insert_ne path k sv [] b h = ground arith
latest_from-insert_ne path k sv ((j, w) ∷ s) b h = elim (SecretKey-discrete j k) [
  | yes q ↦
      let j_path : j.path ≢ path = λ e. h (ap (λ t. t.path) (sym q) ∙ e) in
      rw (if_pos _ q) (ground arith)
  | no q ↦ rw (if_neg _ q) (latest_from-insert_ne path k sv s _ h)
]

pub latest_from-delete_ne :
    (path : Text) (k : SecretKey) (s : Store) (b : Option SecretVersion)
    → k.path ≢ path
    → latest_from path (delete SecretKey-discrete k s) b ≡ latest_from path s b
unfolding latest_from delete
latest_from-delete_ne path k [] b h = refl
latest_from-delete_ne path k ((j, w) ∷ s) b h = elim (SecretKey-discrete j k) [
  | yes q ↦
      let j_path : j.path ≢ path = λ e. h (ap (λ t. t.path) (sym q) ∙ e) in
      rw (if_pos _ q) (latest_from-delete_ne path k s b h ∙ ground arith)
  | no q ↦ rw (if_neg _ q) (latest_from-delete_ne path k s _ h)
]
