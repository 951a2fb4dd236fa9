-- ===== src/Secrets/Sql/Hidden.antt =====
-- What stands behind two dashes is not looked at, wherever the dashes stand.
use knxvault.Prelude.{
  ◌≡◌, refl, sym, ap, ◌∙◌, is_empty, true, false, [], ◌∷◌, ◌++◌, Text, codes, has_prefix,
  trim_suffix, contains_byte, Text-discrete, arith,
}
use knxvault.Secrets.Paths.{trim_space}
use knxvault.Audit.Redact.{contains_text}
use knxvault.Secrets.Sql.{
  code, line_comment, strip_from, strip_sql_comments, normalize_managed_sql, check_normalized,
  body_of, validate_one,
}

strip_from-line : (tail : Text) → contains_byte tail 10 ≡ false → strip_from line_comment tail ≡ []
unfolding strip_from contains_byte
strip_from-line [] h = refl
strip_from-line (c ∷ s) h = ground (arith, strip_from-line s)

-- A text with no dash and no slash, in which no comment starts.
abbrev pub IsPlain : Text → Type 0
IsPlain s = (contains_byte s b'-' ≡ false) × (contains_byte s b'/' ≡ false)

strip_from-dashes :
    (head tail : Text)
    → IsPlain head
    → contains_byte tail 10 ≡ false
    → strip_from code (head ++ b'-' ∷ b'-' ∷ tail) ≡ strip_from code head
unfolding strip_from contains_byte
strip_from-dashes [] tail p h = strip_from-line tail h
strip_from-dashes (c ∷ []) tail p h = ground (arith, strip_from-line tail h)
strip_from-dashes (c ∷ d ∷ s) tail p h = ground (arith, strip_from-dashes (d ∷ s) tail)

trim_suffix-plain : (s : Text) → contains_byte s b';' ≡ false → trim_suffix s (codes ";") ≡ s
unfolding trim_suffix contains_byte Text-discrete
trim_suffix-plain [] h = refl
trim_suffix-plain (c ∷ s) h = ground (arith, trim_suffix-plain s)

body_of-plain : (s : Text) → trim_space s ≡ s → contains_byte s b';' ≡ false → body_of s ≡ s
unfolding body_of
body_of-plain s t h = ap (λ x. trim_suffix x (codes ";")) t ∙ trim_suffix-plain s h

has_prefix-longer : (s t p : Text) → has_prefix s p ≡ true → has_prefix (s ++ t) p ≡ true
unfolding has_prefix
has_prefix-longer s t [] h = refl
has_prefix-longer [] t (d ∷ p) h = absurd (cc)
has_prefix-longer (c ∷ s) t (d ∷ p) h = ground (arith, has_prefix-longer s t p)

contains_text-nil : (t : Text) → contains_text t [] ≡ true
unfolding contains_text has_prefix
contains_text-nil [] = refl
contains_text-nil (c ∷ t) = refl

contains_text-longer : (s t p : Text) → contains_text s p ≡ true → contains_text (s ++ t) p ≡ true
unfolding contains_text has_prefix
contains_text-longer [] t [] h = contains_text-nil t
contains_text-longer [] t (d ∷ p) h = absurd (cc)
contains_text-longer (c ∷ s) t p h =
    ground (arith, has_prefix-longer (c ∷ s) t p, contains_text-longer s t p)

normalize-dashes :
    (head tail : Text)
    → IsPlain head
    → contains_byte tail 10 ≡ false
    → normalize_managed_sql (head ++ b'-' ∷ b'-' ∷ tail) ≡ normalize_managed_sql head
unfolding normalize_managed_sql strip_sql_comments
normalize-dashes head tail p h = rw (strip_from-dashes head tail p h) refl

validate_one-whole :
    (s : Text)
    → trim_space s ≡ s
    → is_empty s ≡ false
    → contains_byte s b';' ≡ false
    → validate_one s ≡ check_normalized (normalize_managed_sql s) (contains_text s (codes "{{"))
unfolding validate_one
validate_one-whole s t e h = rw (t, validate_one, e, body_of-plain s t h, h) refl

filled-head : (s : Text) → contains_text s (codes "{{") ≡ true → is_empty s ≡ false
unfolding contains_text has_prefix
filled-head [] h = absurd (cc)
filled-head (c ∷ s) h = refl

filled-append :
    (s t : Text) → contains_text s (codes "{{") ≡ true → is_empty (s ++ b'-' ∷ b'-' ∷ t) ≡ false
unfolding contains_text has_prefix
filled-append [] t h = absurd (cc)
filled-append (c ∷ s) t h = refl

-- A statement is a head with no dash and no slash, two dashes, and a tail with no line break. Where
-- the head, which has a template placeholder, is accepted, the whole is accepted, whatever the tail
-- holds: dashes inside a quoted text hide what a database reads behind the quote. Neither has a
-- semicolon, and neither starts or ends in white space.
pub validate_one-hidden :
    (head tail : Text)
    → IsPlain head
    → contains_byte tail 10 ≡ false
    → contains_text head (codes "{{") ≡ true
    → trim_space head ≡ head
    → trim_space (head ++ b'-' ∷ b'-' ∷ tail) ≡ head ++ b'-' ∷ b'-' ∷ tail
    → contains_byte head b';' ≡ false
    → contains_byte (head ++ b'-' ∷ b'-' ∷ tail) b';' ≡ false
    → validate_one (head ++ b'-' ∷ b'-' ∷ tail) ≡ validate_one head
validate_one-hidden head tail p n t th tw sh sw =
    let whole = head ++ b'-' ∷ b'-' ∷ tail in
    validate_one-whole whole tw (filled-append head tail t) sw
    ∙ (ap (λ x. check_normalized x (contains_text whole (codes "{{")))
          (normalize-dashes head tail p n)
        ∙ (ap (check_normalized (normalize_managed_sql head))
              (contains_text-longer head (b'-' ∷ b'-' ∷ tail) (codes "{{") t ∙ sym t)
            ∙ sym (validate_one-whole head th (filled-head head t) sh)))
