-- ===== src/Auth/Glob/Loops.antt =====
-- What the loops of the matchers find: a split of the text at which the rest of the pattern fits.
use knxvault.Prelude.{
  ℕ, ◌≡◌, refl, ◌≢◌, inl, inr, Bool, true, [], ◌∷◌, ◌++◌, Text, arith, Bool-cases, ◌==◌,
}
use knxvault.Auth.Glob.{slash, try_all, try_segment, try_segments}

abbrev pub NoSlash : Text → Type 0
NoSlash [] = Unit
NoSlash (c ∷ s) = (c ≢ slash) × NoSlash s

-- The last byte of the text is a slash.
abbrev pub EndsAtSlash : Text → Type 0
EndsAtSlash [] = ⊥
EndsAtSlash (c ∷ []) = c ≡ slash
EndsAtSlash (c ∷ d ∷ s) = EndsAtSlash (d ∷ s)

-- Behind `w`, with `r` to come, `**/` may stop: at the start, behind a slash, or at the end.
abbrev pub AtPosition : Bool → Text → Text → Type 0
AtPosition here w [] = Unit
AtPosition here [] (c ∷ r) = here ≡ true
AtPosition here (d ∷ w) (c ∷ r) = EndsAtSlash (d ∷ w)

-- `s` is a text that `P` allows, and one that `m` takes.
abbrev pub Splits : (Text → Text → Type 0) → (Text → Bool) → Text → Type 0
Splits P m s = (w : Text) × (r : Text) × (s ≡ w ++ r) × P w r × (m r ≡ true)

module _ (m : Text → Bool) where
  pub try_all_sound : (s : Text) → try_all m s ≡ true → Splits (λ w r. Unit) m s
  unfolding try_all
  try_all_sound [] h = ([], [], refl, tt, h)
  try_all_sound (c ∷ s) h = elim (Bool-cases (m (c ∷ s))) [
    | inl e ↦ ([], c ∷ s, refl, tt, e)
    | inr e ↦
        let (w, r, split, _, fits) = try_all_sound s (ground arith) in
        (c ∷ w, r, ground arith, tt, fits)
  ]

  pub try_all_complete : (w r : Text) → m r ≡ true → try_all m (w ++ r) ≡ true
  unfolding try_all
  try_all_complete [] [] h = h
  try_all_complete [] (c ∷ r) h = ground arith
  try_all_complete (c ∷ w) r h = ground (arith, try_all_complete w r)

  pub try_segment_sound : (s : Text) → try_segment m s ≡ true → Splits (λ w r. NoSlash w) m s
  unfolding try_segment
  try_segment_sound [] h = ([], [], refl, tt, h)
  try_segment_sound (c ∷ s) h = elim (Bool-cases (m (c ∷ s))) [
    | inl e ↦ ([], c ∷ s, refl, tt, e)
    | inr e ↦
        let (w, r, split, plain, fits) = try_segment_sound s (ground arith) in
        (c ∷ w, r, ground arith, (ground arith, plain), fits)
  ]

  pub try_segment_complete : (w r : Text) → NoSlash w → m r ≡ true → try_segment m (w ++ r) ≡ true
  unfolding try_segment
  try_segment_complete [] [] plain h = h
  try_segment_complete [] (c ∷ r) plain h = ground arith
  try_segment_complete (c ∷ w) r plain h = ground (arith, try_segment_complete w r)

  AtPosition-cons :
      (here : Bool) (c : ℕ) (w r : Text) → AtPosition (c == slash) w r → AtPosition here (c ∷ w) r
  AtPosition-cons here c w [] p = tt
  AtPosition-cons here c [] (x ∷ r) p = ground arith
  AtPosition-cons here c (d ∷ w) (x ∷ r) p = p

  AtPosition-tail :
      (here : Bool) (c : ℕ) (w r : Text) → AtPosition here (c ∷ w) r → AtPosition (c == slash) w r
  AtPosition-tail here c w [] p = tt
  AtPosition-tail here c [] (x ∷ r) p = ground arith
  AtPosition-tail here c (d ∷ w) (x ∷ r) p = p

  pub try_segments_sound :
      (here : Bool) (s : Text) → try_segments m here s ≡ true → Splits (AtPosition here) m s
  unfolding try_segments
  try_segments_sound here [] h = ([], [], refl, tt, h)
  try_segments_sound here (c ∷ s) h = elim (Bool-cases (try_segments m (c == slash) s)) [
    | inl e ↦
        let (w, r, split, p, fits) = try_segments_sound (c == slash) s e in
        (c ∷ w, r, ground arith, AtPosition-cons here c w r p, fits)
    | inr e ↦ ([], c ∷ s, refl, ground arith, ground arith)
  ]

  pub try_segments_complete :
      (here : Bool) (w r : Text)
      → AtPosition here w r
      → m r ≡ true
      → try_segments m here (w ++ r) ≡ true
  unfolding try_segments
  try_segments_complete here [] [] p h = h
  try_segments_complete here [] (c ∷ r) p h = ground arith
  try_segments_complete here (c ∷ w) r p h =
      ground (arith, try_segments_complete (c == slash) w r (AtPosition-tail here c w r p) h)
