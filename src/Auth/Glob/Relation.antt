-- ===== src/Auth/Glob/Relation.antt =====
-- What a glob pattern means, as a relation, over the texts that a single star may run through.
use knxvault.Prelude.{ℕ, ◌≡◌, ◌≢◌, true, [], ◌∷◌, ◌++◌, Text}
use knxvault.Auth.Glob.{star, question, slash}
use knxvault.Auth.Glob.Loops.{AtPosition}

abbrev pub NotHead : ℕ → Text → Type 0
NotHead x [] = Unit
NotHead x (c ∷ s) = c ≢ x

pub data Matches (Single : Text → Type 0) : Text → Text → Type 0 where
  done : Matches Single [] []
  byte :
      {p c : ℕ} {ps s : Text}
      → p ≢ star
      → p ≢ question
      → c ≡ p
      → Matches Single ps s
      → Matches Single (p ∷ ps) (c ∷ s)
  any :
      {p c : ℕ} {ps s : Text}
      → p ≡ question
      → c ≢ slash
      → Matches Single ps s
      → Matches Single (p ∷ ps) (c ∷ s)
  single :
      {p : ℕ} {ps s : Text} (w r : Text)
      → p ≡ star
      → NotHead star ps
      → s ≡ w ++ r
      → Single w
      → Matches Single ps r
      → Matches Single (p ∷ ps) s
  deep :
      {p q : ℕ} {ps s : Text} (w r : Text)
      → p ≡ star
      → q ≡ star
      → NotHead slash ps
      → s ≡ w ++ r
      → Matches Single ps r
      → Matches Single (p ∷ q ∷ ps) s
  dirs :
      {p q t : ℕ} {ps s : Text} (w r : Text)
      → p ≡ star
      → q ≡ star
      → t ≡ slash
      → s ≡ w ++ r
      → AtPosition true w r
      → Matches Single ps r
      → Matches Single (p ∷ q ∷ t ∷ ps) s

-- A relation over more texts for the single star has more matches.
pub Matches-mono :
    {P Q : Text → Type 0} → ((w : Text) → P w → Q w) → {p s : Text} → Matches P p s → Matches Q p s
Matches-mono h done = done
Matches-mono h (byte a b c m) = byte a b c (Matches-mono h m)
Matches-mono h (any a b m) = any a b (Matches-mono h m)
Matches-mono h (single w r a b c d m) = single w r a b c (h w d) (Matches-mono h m)
Matches-mono h (deep w r a b c d m) = deep w r a b c d (Matches-mono h m)
Matches-mono h (dirs w r a b c d e m) = dirs w r a b c d e (Matches-mono h m)
