-- ===== src/Audit/Redact/Clean.antt =====
-- What SanitizeDetails leaves, and how it goes with RejectSensitiveDetails.
use mathlib.Core.Path.{subst}
use knxvault.Prelude.{
  ◌≡◌, ◌↔◌, inl, inr, refl, ap, true, false, Option, none, some, List, [], ◌∷◌, ◌++◌, Text, arith,
  Bool-cases, if◌then◌else◌,
}
use knxvault.Audit.Redact.{
  Detail, text, items, object, other, Details, end_items, item, Fields, end_fields, field,
  is_sensitive_key, looks_like_credentials, redacted, sanitize_value, sanitize_items, sanitize_map,
  sanitize_details, walk_value, walk_items, walk_map, accepts_details,
}

-- A value in which a sensitive key holds the mark of a redaction and nothing else, and in which no
-- string that is reached through values of type []any and map[string]any looks like credentials.
-- Of a value of another type nothing is asked.
abbrev mutual
  pub IsClean : Detail → Type 0
  IsClean (text s) = looks_like_credentials s ≡ false
  IsClean (items xs) = AreClean xs
  IsClean (object fs) = IsCleanMap fs
  IsClean (other s) = Unit

  pub AreClean : Details → Type 0
  AreClean end_items = Unit
  AreClean (item x xs) = IsClean x × AreClean xs

  pub IsCleanMap : Fields → Type 0
  IsCleanMap end_fields = Unit
  IsCleanMap (field key value fs) =
      (is_sensitive_key key ≡ true → value ≡ text redacted) × IsClean value × IsCleanMap fs

redacted-plain : looks_like_credentials redacted ≡ false
unfolding looks_like_credentials knxvault.Secrets.Paths.trim_space knxvault.Prelude.has_prefix
redacted-plain = refl

mutual
  unfolding sanitize_value sanitize_items sanitize_map

  sanitize_value-IsClean : (v : Detail) → IsClean (sanitize_value v)
  sanitize_value-IsClean (text s) = elim (Bool-cases (looks_like_credentials s)) [
    | inl e ↦ rw e redacted-plain
    | inr e ↦ rw e e
  ]
  sanitize_value-IsClean (items xs) = sanitize_items-AreClean xs
  sanitize_value-IsClean (object fs) = sanitize_map-IsCleanMap fs
  sanitize_value-IsClean (other s) = tt

  sanitize_items-AreClean : (xs : Details) → AreClean (sanitize_items xs)
  sanitize_items-AreClean end_items = tt
  sanitize_items-AreClean (item x xs) = (sanitize_value-IsClean x, sanitize_items-AreClean xs)

  sanitize_map-IsCleanMap : (fs : Fields) → IsCleanMap (sanitize_map fs)
  sanitize_map-IsCleanMap end_fields = tt
  sanitize_map-IsCleanMap (field key value fs) = elim (Bool-cases (is_sensitive_key key)) [
    | inl e ↦ rw e (λ h. refl, redacted-plain, sanitize_map-IsCleanMap fs)
    | inr e ↦ rw e (λ h. absurd (cc), sanitize_value-IsClean value, sanitize_map-IsCleanMap fs)
  ]

-- Clean values are left as they are.
mutual
  unfolding sanitize_value sanitize_items sanitize_map

  sanitize_value-clean : (v : Detail) → IsClean v → sanitize_value v ≡ v
  sanitize_value-clean (text s) h = rw h refl
  sanitize_value-clean (items xs) h = ap items (sanitize_items-clean xs h)
  sanitize_value-clean (object fs) h = ap object (sanitize_map-clean fs h)
  sanitize_value-clean (other s) h = refl

  sanitize_items-clean : (xs : Details) → AreClean xs → sanitize_items xs ≡ xs
  sanitize_items-clean end_items h = refl
  sanitize_items-clean (item x xs) h =
      ground (arith, sanitize_value-clean x h.0, sanitize_items-clean xs h.1)

  sanitize_map-clean : (fs : Fields) → IsCleanMap fs → sanitize_map fs ≡ fs
  sanitize_map-clean end_fields h = refl
  sanitize_map-clean (field key value fs) h =
      ground (arith, sanitize_value-clean value h.1, sanitize_map-clean fs h.2)

-- RejectSensitiveDetails accepts clean values only.
mutual
  unfolding walk_value walk_items walk_map

  walk_value-IsClean : (v : Detail) → walk_value v ≡ true → IsClean v
  walk_value-IsClean (text s) h = ground arith
  walk_value-IsClean (items xs) h = walk_items-AreClean xs h
  walk_value-IsClean (object fs) h = walk_map-IsCleanMap fs h
  walk_value-IsClean (other s) h = tt

  walk_items-AreClean : (xs : Details) → walk_items xs ≡ true → AreClean xs
  walk_items-AreClean end_items h = tt
  walk_items-AreClean (item x xs) h =
      (walk_value-IsClean x (ground arith), walk_items-AreClean xs (ground arith))

  walk_map-IsCleanMap : (fs : Fields) → walk_map fs ≡ true → IsCleanMap fs
  walk_map-IsCleanMap end_fields h = tt
  walk_map-IsCleanMap (field key value fs) h = (
    λ e. absurd (ground arith),
    walk_value-IsClean value (ground arith),
    walk_map-IsCleanMap fs (ground arith),
  )

unsome : {a b : Fields} → some a ≡ some b → a ≡ b
unsome h = ground arith

-- The values of other types, those below a sensitive key left out.
abbrev mutual
  pub others_of : Detail → List Text
  others_of (text s) = []
  others_of (items xs) = others_in xs
  others_of (object fs) = others_map fs
  others_of (other s) = s ∷ []

  pub others_in : Details → List Text
  others_in end_items = []
  others_in (item x xs) = others_of x ++ others_in xs

  pub others_map : Fields → List Text
  others_map end_fields = []
  others_map (field key value fs) =
      let rest = others_map fs in
      let below = others_of value in if is_sensitive_key key then rest else below ++ rest

mutual
  unfolding sanitize_value sanitize_items sanitize_map

  others_of-sanitize_value : (v : Detail) → others_of (sanitize_value v) ≡ others_of v
  others_of-sanitize_value (text s) = elim (Bool-cases (looks_like_credentials s)) [
    | inl e ↦ rw e refl
    | inr e ↦ rw e refl
  ]
  others_of-sanitize_value (items xs) = others_in-sanitize_items xs
  others_of-sanitize_value (object fs) = others_map-sanitize_map fs
  others_of-sanitize_value (other s) = refl

  others_in-sanitize_items : (xs : Details) → others_in (sanitize_items xs) ≡ others_in xs
  others_in-sanitize_items end_items = refl
  others_in-sanitize_items (item x xs) =
      ground (arith, others_of-sanitize_value x, others_in-sanitize_items xs)

  others_map-sanitize_map : (fs : Fields) → others_map (sanitize_map fs) ≡ others_map fs
  others_map-sanitize_map end_fields = refl
  others_map-sanitize_map (field key value fs) = elim (Bool-cases (is_sensitive_key key)) [
    | inl e ↦ rw e (others_map-sanitize_map fs)
    | inr e ↦ rw e (ground (arith, others_of-sanitize_value value, others_map-sanitize_map fs))
  ]

-- In what SanitizeDetails returns, of what is reached through values of type []any and
-- map[string]any, a sensitive key holds the mark of a redaction, and no string looks like
-- credentials. It returns just those details unchanged of which this held before, so a second pass
-- changes nothing. The values of other types are not looked into: those below no sensitive key, a
-- []string with credentials among them, are left as they are, in their order.
pub sanitize_details-IsClean :
    (fs : Fields)
    → IsCleanMap (sanitize_map fs)
      × (IsCleanMap fs ↔ sanitize_details (some fs) ≡ some fs)
      × (sanitize_details (sanitize_details (some fs)) ≡ sanitize_details (some fs))
      × (others_map (sanitize_map fs) ≡ others_map fs)
unfolding sanitize_details
sanitize_details-IsClean fs = (
  sanitize_map-IsCleanMap fs,
  (
    λ h. ap some (sanitize_map-clean fs h),
    λ h. subst IsCleanMap (unsome h) (sanitize_map-IsCleanMap fs),
  ),
  ap some (sanitize_map-clean (sanitize_map fs) (sanitize_map-IsCleanMap fs)),
  others_map-sanitize_map fs,
)

-- Details that RejectSensitiveDetails accepts lose nothing in SanitizeDetails.
pub accepts_details-sanitize :
    (details : Option Fields) → accepts_details details ≡ true → sanitize_details details ≡ details
unfolding accepts_details sanitize_details
accepts_details-sanitize none h = refl
accepts_details-sanitize (some fs) h = ap some (sanitize_map-clean fs (walk_map-IsCleanMap fs h))
