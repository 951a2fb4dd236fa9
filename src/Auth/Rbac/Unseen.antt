-- ===== src/Auth/Rbac/Unseen.antt =====
-- How many loaded policies `walk` has not seen: the depth that its calls can still reach.
use knxvault.Prelude.{
  ℕ, suc, ◌≤◌, ◌≡◌, inr, true, false, some, List, [], ◌∷◌, Text, Text-discrete, lookup, elem, In,
  In_of-elem, elem_of-In, length, arith, if◌then◌else◌,
}
use knxvault.Auth.Policy.{Policy}
use knxvault.Auth.Rbac.{Policies}

-- The loaded policies whose names are not seen yet: the fuel that `walk` needs.
pub unseen : Policies → List Text → ℕ
unseen [] seen = 0
unseen ((k, _) ∷ m) seen = if elem Text-discrete k seen then unseen m seen else suc (unseen m seen)

pub unseen-le-length : (m : Policies) (seen : List Text) → unseen m seen ≤ length m
unfolding unseen
unseen-le-length [] seen = omega arith
unseen-le-length ((k, _) ∷ m) seen = ground (arith, unseen-le-length m seen)

elem_mono :
    (a b : List Text) (k : Text)
    → ((n : Text) → In n a → In n b)
    → elem Text-discrete k a ≡ true
    → elem Text-discrete k b ≡ true
elem_mono a b k grows h = elem_of-In Text-discrete k b (grows k (In_of-elem Text-discrete k a h))

pub unseen_mono :
    (m : Policies) (a b : List Text) → ((n : Text) → In n a → In n b) → unseen m b ≤ unseen m a
unfolding unseen
unseen_mono [] a b grows = omega arith
unseen_mono ((k, _) ∷ m) a b grows = ground (arith, unseen_mono m a b grows, elem_mono a b k grows)

pub unseen-cons :
    (m : Policies) (seen : List Text) (name : Text) (p : Policy)
    → lookup Text-discrete name m ≡ some p
    → elem Text-discrete name seen ≡ false
    → suc (unseen m (name ∷ seen)) ≤ unseen m seen
unfolding unseen lookup elem
unseen-cons [] seen name p h e = absurd (cc)
unseen-cons ((k, q) ∷ m) seen name p h e =
    ground (arith, unseen_mono m seen (name ∷ seen) (λ n i. inr i), unseen-cons m seen name p)
