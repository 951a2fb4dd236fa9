-- ===== src/Auth/Glob/Decides.antt =====
-- The matchers decide the relation.
use knxvault.Prelude.{
  ℕ, ◌≡◌, refl, ◌≢◌, ◌⊎◌, inl, inr, ◌↔◌, Bool, true, [], ◌∷◌, ◌++◌, Text, arith, Bool-cases, ◌==◌,
  if◌then◌else◌,
}
use knxvault.Auth.Glob.{
  star, question, slash, try_all, try_segment, try_segments, any_byte, same_byte, glob_step, at_end,
  glob_with, match_glob, glob_match,
}
use knxvault.Auth.Glob.Loops.{
  NoSlash, Splits, try_all_sound, try_all_complete, try_segment_sound, try_segment_complete,
  try_segments_sound, try_segments_complete,
}
use knxvault.Auth.Glob.Relation.{
  NotHead, Matches, done, byte, any, single, deep, dirs, Matches-mono,
}

abbrev Consumes : ℕ → ℕ → Type 0
Consumes p c = ((p ≡ question) × (c ≢ slash)) ⊎ ((p ≢ star) × (p ≢ question) × (c ≡ p))

glob_step_sound :
    (p : ℕ) (starred rest : Text → Bool) (s : Text)
    → glob_step p starred rest s ≡ true
    → ((p ≡ star) × (starred s ≡ true))
      ⊎ ((c : ℕ) × (r : Text) × (s ≡ c ∷ r) × (rest r ≡ true) × Consumes p c)
unfolding glob_step any_byte same_byte
glob_step_sound p starred rest [] h = inl (ground arith)
glob_step_sound p starred rest (c ∷ s) h = elim (Bool-cases (p == star)) [
  | inl e ↦ inl (ground arith)
  | inr e ↦ elim (Bool-cases (p == question)) [
    | inl f ↦ inr (c, s, refl, ground arith, inl (ground arith))
    | inr f ↦ inr (c, s, refl, ground arith, inr (ground arith))
  ]
]

Matches-Consumes :
    {Single : Text → Type 0} {p c : ℕ} {ps s t : Text}
    → t ≡ c ∷ s
    → Consumes p c
    → Matches Single ps s
    → Matches Single (p ∷ ps) t
Matches-Consumes e (inl (a, b)) m = rw e (any a b m)
Matches-Consumes e (inr (a, b, c)) m = rw e (byte a b c m)

module _ (run : (Text → Bool) → Text → Bool) (Single : Text → Type 0)
    (sound : (m : Text → Bool) (s : Text) → run m s ≡ true → Splits (λ w r. Single w) m s)
    (complete : (m : Text → Bool) (w r : Text)
      → Single w
      → m r ≡ true
      → run m (w ++ r) ≡ true) where
  pub glob_with_sound : (p s : Text) → glob_with run p s ≡ true → Matches Single p s
  unfolding glob_with at_end
  glob_with_sound [] [] h = done
  glob_with_sound [] (c ∷ s) h = cc
  glob_with_sound (p ∷ []) s h =
      elim (glob_step_sound p (run (glob_with run [])) (glob_with run []) s h) [
        | inl (e, g) ↦
            let (w, r, split, ok, fits) = sound _ s g in
            single w r e tt split ok (glob_with_sound [] r fits)
        | inr (c, r, split, fits, ok) ↦ Matches-Consumes split ok (glob_with_sound [] r fits)
      ]
  glob_with_sound (p ∷ q ∷ []) s h =
      elim (glob_step_sound p
        (if q == star then try_all (glob_with run []) else run (glob_with run (q ∷ [])))
        (glob_with run (q ∷ [])) s h) [
          | inl (e, g) ↦ elim (Bool-cases (q == star)) [
            | inl f ↦
                let g' : try_all (glob_with run []) s ≡ true = ground arith in
                let (w, r, split, _, fits) = try_all_sound (glob_with run []) s g' in
                deep w r e (ground arith) tt split (glob_with_sound [] r fits)
            | inr f ↦
                let g' : run (glob_with run (q ∷ [])) s ≡ true = ground arith in
                let (w, r, split, ok, fits) = sound _ s g' in
                single w r e (ground arith) split ok (glob_with_sound (q ∷ []) r fits)
          ]
          | inr (c, r, split, fits, ok) ↦
              Matches-Consumes split ok (glob_with_sound (q ∷ []) r fits)
        ]
  glob_with_sound (p ∷ q ∷ t ∷ ps) s h =
      elim (glob_step_sound p
        (if q == star
          then (if t == slash
              then try_segments (glob_with run ps) true
              else try_all (glob_with run (t ∷ ps)))
          else run (glob_with run (q ∷ t ∷ ps)))
        (glob_with run (q ∷ t ∷ ps)) s h) [
          | inl (e, g) ↦ elim (Bool-cases (q == star)) [
            | inl f ↦ elim (Bool-cases (t == slash)) [
              | inl k ↦
                  let g' : try_segments (glob_with run ps) true s ≡ true = ground arith in
                  let (w, r, split, pos, fits) = try_segments_sound (glob_with run ps) true s g' in
                  dirs w r e (ground arith) (ground arith) split pos (glob_with_sound ps r fits)
              | inr k ↦
                  let g' : try_all (glob_with run (t ∷ ps)) s ≡ true = ground arith in
                  let (w, r, split, _, fits) = try_all_sound (glob_with run (t ∷ ps)) s g' in
                  deep w r e (ground arith) (ground arith) split (glob_with_sound (t ∷ ps) r fits)
            ]
            | inr f ↦
                let g' : run (glob_with run (q ∷ t ∷ ps)) s ≡ true = ground arith in
                let (w, r, split, ok, fits) = sound _ s g' in
                single w r e (ground arith) split ok (glob_with_sound (q ∷ t ∷ ps) r fits)
          ]
          | inr (c, r, split, fits, ok) ↦
              Matches-Consumes split ok (glob_with_sound (q ∷ t ∷ ps) r fits)
        ]

  -- The clauses of the matcher, by the shape of the pattern.
  glob_with-single :
      (p : ℕ) (ps s : Text)
      → p ≡ star
      → NotHead star ps
      → glob_with run (p ∷ ps) s ≡ run (glob_with run ps) s
  unfolding glob_with
  glob_with-single p [] s e n = ground arith
  glob_with-single p (q ∷ []) s e n = ground arith
  glob_with-single p (q ∷ t ∷ ps) s e n = ground arith

  glob_with-Consumes :
      (p c : ℕ) (ps s : Text)
      → Consumes p c
      → glob_with run ps s ≡ true
      → glob_with run (p ∷ ps) (c ∷ s) ≡ true
  unfolding glob_with any_byte same_byte
  glob_with-Consumes p c [] s h e = ground arith
  glob_with-Consumes p c (q ∷ []) s h e = ground arith
  glob_with-Consumes p c (q ∷ t ∷ ps) s h e = ground arith

  glob_with-deep :
      (p q : ℕ) (ps s : Text)
      → p ≡ star
      → q ≡ star
      → NotHead slash ps
      → glob_with run (p ∷ q ∷ ps) s ≡ try_all (glob_with run ps) s
  unfolding glob_with
  glob_with-deep p q [] s e f n = ground arith
  glob_with-deep p q (t ∷ ps) s e f n = ground arith

  glob_with-dirs :
      (p q t : ℕ) (ps s : Text)
      → p ≡ star
      → q ≡ star
      → t ≡ slash
      → glob_with run (p ∷ q ∷ t ∷ ps) s ≡ try_segments (glob_with run ps) true s
  unfolding glob_with
  glob_with-dirs p q t ps s e f g = ground arith

  pub glob_with_complete : {p s : Text} → Matches Single p s → glob_with run p s ≡ true
  glob_with_complete done = unfold glob_with at_end in refl
  glob_with_complete (byte {p} {c} {ps} {s} a b e m) =
      glob_with-Consumes p c ps s (inr (a, b, e)) (glob_with_complete m)
  glob_with_complete (any {p} {c} {ps} {s} a b m) =
      glob_with-Consumes p c ps s (inl (a, b)) (glob_with_complete m)
  glob_with_complete (single {p} {ps} {s} w r a n split ok m) =
      rw (split, glob_with-single p ps (w ++ r) a n) (complete _ w r ok (glob_with_complete m))
  glob_with_complete (deep {p} {q} {ps} {s} w r a b n split m) =
      rw (split, glob_with-deep p q ps (w ++ r) a b n)
        (try_all_complete (glob_with run ps) w r (glob_with_complete m))
  glob_with_complete (dirs {p} {q} {t} {ps} {s} w r a b d split pos m) =
      rw (split, glob_with-dirs p q t ps (w ++ r) a b d)
        (try_segments_complete (glob_with run ps) true w r pos (glob_with_complete m))

-- matchGlob returns true exactly when the text fits the pattern, where a single star runs through
-- bytes that are not slashes.
pub match_glob-Matches : (p s : Text) → (match_glob p s ≡ true) ↔ Matches NoSlash p s
unfolding match_glob
match_glob-Matches p s = (
  glob_with_sound try_segment NoSlash try_segment_sound try_segment_complete p s,
  glob_with_complete try_segment NoSlash try_segment_sound try_segment_complete,
)

abbrev pub AnyText : Text → Type 0
AnyText w = Unit

try_all_complete' :
    (m : Text → Bool) (w r : Text) → AnyText w → m r ≡ true → try_all m (w ++ r) ≡ true
try_all_complete' m w r _ e = try_all_complete m w r e

-- globMatch returns true exactly when the text fits the pattern, where a single star runs through
-- any bytes, slashes too.
pub glob_match-Matches : (p s : Text) → (glob_match p s ≡ true) ↔ Matches AnyText p s
unfolding glob_match
glob_match-Matches p s = (
  glob_with_sound try_all AnyText try_all_sound try_all_complete' p s,
  glob_with_complete try_all AnyText try_all_sound try_all_complete',
)

-- Each text that matchGlob takes, globMatch takes too.
pub match_glob-le-glob_match : (p s : Text) → match_glob p s ≡ true → glob_match p s ≡ true
match_glob-le-glob_match p s h =
    (glob_match-Matches p s).1 (Matches-mono (λ w _. tt) ((match_glob-Matches p s).0 h))
