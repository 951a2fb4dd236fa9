-- ===== src/Secrets/Store/Numbers.antt =====
-- Version numbers: the next one is above all that are stored, and sorting keeps the newest last.
use knxvault.Prelude.{
  ℕ, zero, suc, ◌≤◌, ◌<◌, ◌≡◌, inl, inr, refl, ap, ◌∙◌, true, ◌&&◌, none, List, [], ◌∷◌, ◌++◌, Text,
  str_eq, In, In_of-lookup, In-delete, In-delete_ne, length, arith, Bool-cases, Option-cases, ltb,
  leb, if◌then◌else◌,
}
use knxvault.Secrets.Store.{
  SecretVersion, SecretKey, SecretKey-discrete, Store, get, max_version, next_version,
  insert_sorted, sort_ints, remove_first,
}

abbrev pub Entry : Type 0
Entry = SecretKey × SecretVersion

max_version-grows : (path : Text) (s : Store) (m : ℕ) → m ≤ max_version path s m
unfolding max_version
max_version-grows path [] m = omega arith
max_version-grows path ((k, _) ∷ s) m = elim (Bool-cases (str_eq k.path path && ltb m k.version)) [
  | inl e ↦ rw e (omega (arith, max_version-grows path s k.version, above m k.version e))
  | inr e ↦ rw e (max_version-grows path s m)
]
  where
    above : (a b : ℕ) → (str_eq k.path path && ltb a b) ≡ true → a ≤ b
    above a b h = ground arith

pub max_version-above :
    (path : Text) (s : Store) (m : ℕ) (e : Entry)
    → In e s
    → e.0.path ≡ path
    → e.0.version ≤ max_version path s m
unfolding max_version
max_version-above path [] m e i p = absurd i
max_version-above path ((k, w) ∷ s) m e (inl q) p =
    let same : k ≡ e.0 = ap (λ t. t.0) q in
    let at_path : k.path ≡ path = ap (λ t. t.path) same ∙ p in
    let number : k.version ≡ e.0.version = ap (λ t. t.version) same in omega (arith, head at_path)
  where
    head :
        k.path ≡ path
        → k.version
          ≤ max_version path s (if str_eq k.path path && ltb m k.version then k.version else m)
    head h = ground (arith, max_version-grows path s k.version, max_version-grows path s m)
max_version-above path ((k, w) ∷ s) m e (inr i) p = max_version-above path s _ e i p

pub max_version-least :
    (path : Text) (s : Store) (m b : ℕ)
    → ((e : Entry) → In e s → e.0.path ≡ path → e.0.version ≤ b)
    → m ≤ b
    → max_version path s m ≤ b
unfolding max_version
max_version-least path [] m b h l = l
max_version-least path ((k, w) ∷ s) m b h l =
    max_version-least path s _ b (λ e i. h e (inr i)) (ground (arith, h (k, w) (inl refl)))

pub next_version-above : (s : Store) (e : Entry) → In e s → e.0.version < next_version s e.0.path
unfolding next_version
next_version-above s e i = omega (arith, max_version-above e.0.path s 0 e i refl)

-- No version is stored under the next number.
pub get-next_version :
    (s : Store) (path : Text) → get (record { path = path; version = next_version s path }) s ≡ none
get-next_version s path =
    elim (Option-cases (get (record { path = path; version = next_version s path }) s)) [
      | inl e ↦ e
      | inr (w, e) ↦
          absurd (omega (arith, next_version-above s _ (In_of-lookup SecretKey-discrete _ w s e)))
    ]

-- All numbers of a list lie below a bound.
abbrev pub Below : ℕ → List ℕ → Type 0
Below b [] = Unit
Below b (x ∷ xs) = (x < b) × Below b xs

insert_sorted-Below : (b x : ℕ) (ys : List ℕ) → x < b → Below b ys → Below b (insert_sorted x ys)
unfolding insert_sorted
insert_sorted-Below b x [] l h = (l, tt)
insert_sorted-Below b x (y ∷ ys) l h = elim (Bool-cases (leb x y)) [
  | inl e ↦ rw e (l, h)
  | inr e ↦ rw e (h.0, insert_sorted-Below b x ys l h.1)
]

pub sort_ints-Below : (b : ℕ) (xs : List ℕ) → Below b xs → Below b (sort_ints xs)
unfolding sort_ints
sort_ints-Below b [] h = tt
sort_ints-Below b (x ∷ xs) h = insert_sorted-Below b x (sort_ints xs) h.0 (sort_ints-Below b xs h.1)

insert_sorted-last :
    (b x : ℕ) (ys : List ℕ) → x < b → insert_sorted x (ys ++ b ∷ []) ≡ insert_sorted x ys ++ b ∷ []
unfolding insert_sorted
insert_sorted-last b x [] l = ground arith
insert_sorted-last b x (y ∷ ys) l = ground (arith, insert_sorted-last b x ys l)

-- A number above all others is sorted to the end.
pub sort_ints-last :
    (b : ℕ) (xs : List ℕ) → Below b xs → sort_ints (xs ++ b ∷ []) ≡ sort_ints xs ++ b ∷ []
unfolding sort_ints insert_sorted
sort_ints-last b [] h = refl
sort_ints-last b (x ∷ xs) h =
    rw (sort_ints-last b xs h.1) (insert_sorted-last b x (sort_ints xs) h.0)

length-insert_sorted : (x : ℕ) (ys : List ℕ) → length (insert_sorted x ys) ≡ suc (length ys)
unfolding insert_sorted
length-insert_sorted x [] = refl
length-insert_sorted x (y ∷ ys) = ground (arith, length-insert_sorted x ys)

pub length-sort_ints : (xs : List ℕ) → length (sort_ints xs) ≡ length xs
unfolding sort_ints
length-sort_ints [] = refl
length-sort_ints (x ∷ xs) =
    omega (arith, length-insert_sorted x (sort_ints xs), length-sort_ints xs)

-- Removing the first `n` versions touches nothing behind them.
pub remove_first-append :
    (path : Text) (n : ℕ) (xs ys : List ℕ) (s : Store)
    → n ≤ length xs
    → remove_first path n (xs ++ ys) s ≡ remove_first path n xs s
unfolding remove_first
remove_first-append path zero xs ys s l = refl
remove_first-append path (suc n) [] ys s l = absurd (omega arith)
remove_first-append path (suc n) (x ∷ xs) ys s l = remove_first-append path n xs ys _ (omega arith)

pub In-remove_first :
    (path : Text) (n : ℕ) (xs : List ℕ) (s : Store) (e : Entry)
    → In e (remove_first path n xs s)
    → In e s
unfolding remove_first
In-remove_first path zero xs s e i = i
In-remove_first path (suc n) [] s e i = i
In-remove_first path (suc n) (x ∷ xs) s e i =
    In-delete SecretKey-discrete _ e s (In-remove_first path n xs _ e i)

pub In-remove_first_kept :
    (path : Text) (n b : ℕ) (xs : List ℕ) (s : Store) (e : Entry)
    → Below b xs
    → b ≤ e.0.version
    → In e s
    → In e (remove_first path n xs s)
unfolding remove_first
In-remove_first_kept path zero b xs s e h l i = i
In-remove_first_kept path (suc n) b [] s e h l i = i
In-remove_first_kept path (suc n) b (x ∷ xs) s e h l i =
    In-remove_first_kept path n b xs _ e h.1 l
      (In-delete_ne SecretKey-discrete _ e s (λ q. absurd (other q)) i)
  where
    other : e.0 ≡ record { path = path; version = x } → ⊥
    other q = let v : e.0.version ≡ x = ap (λ k. k.version) q in omega arith
