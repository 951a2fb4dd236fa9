-- ===== src/Auth/Conditions/Fit.antt =====
-- What a request must be like when the conditions of a policy hold.
use knxvault.Prelude.{
  is_empty, ℕ, ◌≤◌, ◌<◌, ◌≡◌, ◌≢◌, ◌⊎◌, inl, inr, refl, true, false, ◌&&◌, not, Option, none, some,
  List, [], ◌∷◌, Text, codes, Text-discrete, lookup, In, arith, Bool-cases, Option-cases, ltb, ◌==◌,
  if◌then◌else◌,
}
use knxvault.Auth.Policy.{Value, nil, str, str_list, any_list, other}
use knxvault.Auth.Conditions.{
  Env, RequestContext, string_at, parsed, some_list, entry_matches, any_entry, match_ip_cidr,
  ip_holds, window_holds, tests_hold, conditions_match,
}

-- The entries that an ip_cidr condition lists.
abbrev pub entries : Value → List (Option Text)
entries (str v) = some v ∷ []
entries (str_list v) = some_list v
entries (any_list v) = v
entries _ = []

-- The time of the request, or the clock's where the request has none.
abbrev pub time_of : Env → RequestContext → ℕ
time_of env req = if req.now == 0 then env.clock else req.now

module _ (env : Env) where
  open env use {Ip, Network, parse_ip, parse_cidr, contains, parse_rfc3339}

  -- An entry covers the address: a network that contains it, or a text that is no network and is
  -- the client's address letter by letter.
  abbrev pub Covers : Text → Ip → Text → Type 0
  Covers client_ip ip pattern =
      ((network : Network) × (parse_cidr pattern ≡ some network) × (contains network ip ≡ true))
      ⊎ ((parse_cidr pattern ≡ none) × (pattern ≡ client_ip))

  entry_matches-Covers :
      (pattern client_ip : Text) (ip : Ip)
      → entry_matches env (some pattern) client_ip ip ≡ true
      → Covers client_ip ip pattern
  unfolding entry_matches
  entry_matches-Covers pattern client_ip ip h = elim (Option-cases (parse_cidr pattern)) [
    | inl e ↦ inr (ground arith)
    | inr (network, e) ↦ inl (network, e, ground arith)
  ]

  any_entry-Covers :
      (cidrs : List (Option Text)) (client_ip : Text) (ip : Ip)
      → any_entry env cidrs client_ip ip ≡ true
      → (pattern : Text) × In (some pattern) cidrs × Covers client_ip ip pattern
  unfolding any_entry
  any_entry-Covers [] client_ip ip h = absurd (cc)
  any_entry-Covers (none ∷ cidrs) client_ip ip h =
      let (pattern, m, c) = any_entry-Covers cidrs client_ip ip (unfold entry_matches in h) in
      (pattern, inr m, c)
  any_entry-Covers (some p ∷ cidrs) client_ip ip h =
      elim (Bool-cases (entry_matches env (some p) client_ip ip)) [
        | inl e ↦ (p, inl refl, entry_matches-Covers p client_ip ip e)
        | inr e ↦
            let (pattern, m, c) = any_entry-Covers cidrs client_ip ip (ground arith) in
            (pattern, inr m, c)
      ]

  match_ip_cidr-Covers :
      (cidrs : List (Option Text)) (client_ip : Text)
      → match_ip_cidr env cidrs client_ip ≡ true
      → (ip : Ip) × (parse_ip client_ip ≡ some ip)
        × ((pattern : Text) × In (some pattern) cidrs × Covers client_ip ip pattern)
  unfolding match_ip_cidr
  match_ip_cidr-Covers cidrs client_ip h = elim (Option-cases (parse_ip client_ip)) [
    | inl e ↦ absurd (ground arith)
    | inr (ip, e) ↦ (ip, e, any_entry-Covers cidrs client_ip ip (ground arith))
  ]

  ip_holds-Covers :
      (raw : Value) (client_ip : Text)
      → raw ≢ nil
      → ip_holds env (some raw) client_ip ≡ true
      → (ip : Ip) × (parse_ip client_ip ≡ some ip)
        × ((pattern : Text) × In (some pattern) (entries raw) × Covers client_ip ip pattern)
  unfolding ip_holds
  ip_holds-Covers nil client_ip n h = absurd (n refl)
  ip_holds-Covers (str v) client_ip n h =
      match_ip_cidr-Covers (some v ∷ []) client_ip (ground arith)
  ip_holds-Covers (str_list v) client_ip n h =
      match_ip_cidr-Covers (some_list v) client_ip (ground arith)
  ip_holds-Covers (any_list v) client_ip n h = match_ip_cidr-Covers v client_ip (ground arith)
  ip_holds-Covers other client_ip n h = absurd (cc)

  conditions_match-tests :
      (conditions : List (Text × Value)) (req : RequestContext)
      → is_empty conditions ≡ false
      → conditions_match env conditions req ≡ true
      → tests_hold env conditions req (time_of env req) ≡ true
  unfolding conditions_match
  conditions_match-tests conditions req e h = rw (← h) (rw e)

  lookup-not_empty :
      (key : Text) (conditions : List (Text × Value)) {v : Value}
      → lookup Text-discrete key conditions ≡ some v
      → is_empty conditions ≡ false
  unfolding lookup
  lookup-not_empty key [] h = absurd (cc)
  lookup-not_empty key (c ∷ conditions) h = refl

  string_at-not_empty :
      (key : Text) (conditions : List (Text × Value)) {v : Text}
      → string_at key conditions ≡ some v
      → is_empty conditions ≡ false
  unfolding string_at lookup
  string_at-not_empty key [] h = absurd (cc)
  string_at-not_empty key (c ∷ conditions) h = refl

  -- Where the conditions of a policy hold and ip_cidr is set to other than nil, the client's
  -- address parses and an entry of the condition covers it.
  pub conditions_match-Covers :
      (conditions : List (Text × Value)) (req : RequestContext) (raw : Value)
      → lookup Text-discrete (codes "ip_cidr") conditions ≡ some raw
      → raw ≢ nil
      → conditions_match env conditions req ≡ true
      → (ip : Ip) × (parse_ip req.client_ip ≡ some ip)
        × ((pattern : Text) × In (some pattern) (entries raw) × Covers req.client_ip ip pattern)
  unfolding tests_hold
  conditions_match-Covers conditions req raw e n h =
      let all = conditions_match-tests conditions req (lookup-not_empty _ conditions e) h in
      ip_holds-Covers raw req.client_ip n (ground arith)

  within_window :
      (after before : Text) (now : ℕ)
      → (parsed (parse_rfc3339 after) (λ t. not (ltb now t))
          && parsed (parse_rfc3339 before) (λ t. ltb now t))
        ≡ true
      → (start : ℕ) × (end : ℕ) × (parse_rfc3339 after ≡ some start)
        × (parse_rfc3339 before ≡ some end)
        × (start ≤ now)
        × (now < end)
  within_window after before now h = elim (Option-cases (parse_rfc3339 after)) [
    | inl a ↦ absurd (ground arith)
    | inr (start, a) ↦ elim (Option-cases (parse_rfc3339 before)) [
      | inl b ↦ absurd (ground arith)
      | inr (end, b) ↦ (start, end, a, b, ground arith, ground arith)
    ]
  ]

  -- Where the conditions of a policy hold and name both ends of a time window, both parse, and the
  -- time of the request lies in the window, its start included and its end not.
  pub conditions_match-window :
      (conditions : List (Text × Value)) (req : RequestContext) (after before : Text)
      → string_at (codes "time_after") conditions ≡ some after
      → string_at (codes "time_before") conditions ≡ some before
      → conditions_match env conditions req ≡ true
      → (start : ℕ) × (end : ℕ) × (parse_rfc3339 after ≡ some start)
        × (parse_rfc3339 before ≡ some end)
        × (start ≤ time_of env req)
        × (time_of env req < end)
  unfolding tests_hold window_holds
  conditions_match-window conditions req after before a b h =
      let all = conditions_match-tests conditions req (string_at-not_empty _ conditions a) h in
      within_window after before (time_of env req) (ground arith)
