-- ===== src/Auth/Rbac/Good.antt =====
-- What a call of `walk` does to the names seen and put out, and how such steps compose.
use mathlib.Core.Path.{subst}
use knxvault.Prelude.{
  ◌≡◌, ◌⊎◌, inl, inr, none, some, List, [], ◌∷◌, ◌++◌, Text, In, In-append_left, In-append_right,
}
use knxvault.Auth.Rbac.{Policies, Walk, includes_of}

module _ (policies : Policies) where
  -- What a call of `walk` has done to the state.
  pub record Good (batch : List Text) (w w' : Walk) : Type 0 where
    pub grows : (n : Text) → In n w.seen → In n w'.seen
    pub covers : (n : Text) → In n batch → In n w'.seen
    pub closed :
        (n : Text) (included : List Text)
        → In n w'.seen
        → includes_of policies n ≡ some included
        → In n w.seen ⊎ ((j : Text) → In j included → In j w'.seen)
    pub put : (n : Text) → In n w'.seen → In n w.seen ⊎ In n w'.out
    pub kept : (n : Text) → In n w.out → In n w'.out

  pub Good-nil : (w : Walk) → Good [] w w
  Good-nil w = record {
    grows = λ n i. i;
    covers = λ n i. absurd i;
    closed = λ n included i e. inl i;
    put = λ n i. inl i;
    kept = λ n i. i;
  }

  pub Good-cons :
      (name : Text) (batch : List Text) (w v u : Walk)
      → Good (name ∷ []) w v
      → Good batch v u
      → Good (name ∷ batch) w u
  Good-cons name batch w v u g h = record {
    grows = λ n i. h.grows n (g.grows n i);
    covers = λ n. elim [ inl e ↦ h.grows n (g.covers n (inl e)) | inr i ↦ h.covers n i ];
    closed = λ n included i e. elim (h.closed n included i e) [
      | inr all ↦ inr all
      | inl j ↦ elim (g.closed n included j e) [
        | inl k ↦ inl k
        | inr all ↦ inr (λ x y. h.grows x (all x y))
      ]
    ];
    put = λ n i. elim (h.put n i) [
      | inr o ↦ inr o
      | inl j ↦ elim (g.put n j) [ inl k ↦ inl k | inr o ↦ inr (h.kept n o) ]
    ];
    kept = λ n i. h.kept n (g.kept n i);
  }

  pub Good-seen : (name : Text) (w : Walk) → In name w.seen → Good (name ∷ []) w w
  Good-seen name w m = record {
    grows = λ n i. i;
    covers = λ n. elim [ inl e ↦ subst (λ x. In x w.seen) e m | inr i ↦ absurd i ];
    closed = λ n included i e. inl i;
    put = λ n i. inl i;
    kept = λ n i. i;
  }

  includes_unique :
      (name n : Text) (a b : List Text)
      → includes_of policies name ≡ some a
      → name ≡ n
      → includes_of policies n ≡ some b
      → a ≡ b
  includes_unique name n a b e p f = let f' : includes_of policies name ≡ some b = rw p f in cc

  includes_clash :
      (name n : Text) (b : List Text)
      → includes_of policies name ≡ none
      → name ≡ n
      → includes_of policies n ≡ some b
      → ⊥
  includes_clash name n b e p f = let f' : includes_of policies name ≡ some b = rw p f in cc

  -- The name is new, and its policy's includes have been walked.
  pub Good-after :
      (name : Text) (included : List Text) (w after : Walk)
      → includes_of policies name ≡ some included
      → Good included (record w { seen = name ∷ w.seen }) after
      → Good (name ∷ []) w (record after { out = after.out ++ name ∷ [] })
  Good-after name included w after e g = record {
    grows = λ n i. g.grows n (inr i);
    covers = λ n. elim [ inl p ↦ g.grows n (inl p) | inr i ↦ absurd i ];
    closed = λ n js i f. elim (g.closed n js i f) [
      | inr all ↦ inr all
      | inl (inr j) ↦ inl j
      | inl (inl p) ↦ inr (
          subst (λ l. (j : Text) → In j l → In j after.seen)
            (includes_unique name n included js e p f) g.covers)
    ];
    put = λ n i. elim (g.put n i) [
      | inr o ↦ inr (In-append_left n after.out (name ∷ []) o)
      | inl (inr j) ↦ inl j
      | inl (inl p) ↦ inr (In-append_right n after.out (name ∷ []) (inl p))
    ];
    kept = λ n i. In-append_left n after.out (name ∷ []) (g.kept n i);
  }

  -- The name is new, and no policy of that name is loaded.
  pub Good-unknown :
      (name : Text) (w : Walk)
      → includes_of policies name ≡ none
      → Good (name ∷ []) w (record { seen = name ∷ w.seen; out = w.out ++ name ∷ [] })
  Good-unknown name w e = record {
    grows = λ n i. inr i;
    covers = λ n. elim [ inl p ↦ inl p | inr i ↦ absurd i ];
    closed =
        λ n js. elim [ inr i ↦ λ f. inl i | inl p ↦ λ f. absurd (includes_clash name n js e p f) ];
    put = λ n. elim [ inr i ↦ inl i | inl p ↦ inr (In-append_right n w.out (name ∷ []) (inl p)) ];
    kept = λ n i. In-append_left n w.out (name ∷ []) i;
  }
