-- ===== src/TierMap/Precedence.antt =====
-- Which tier decides, and that a valid configuration yields a valid tier (internal/tiermap/tiermap.go).
use verdi_go.Prelude.{
  ℕ, zero, suc, ◌+◌, ◌≤◌, ◌≡◌, refl, sym, ap, subst, ◌∙◌, inl, inr, true, false, ◌&&◌, ◌||◌, not,
  Option, none, some, List, [], ◌∷◌, arith, if◌then◌else◌, Bool-cases, first_where, bool_Eq, ◌==◌,
  nat_Eq, list_Eq, Str, codes, Str_Eq, is_space, trim, pair_Eq, ℤ, is_zero, is_negative, pos,
  negsuc,
}
use verdi_go.TierMap.Defs.{
  Features, Rule, Pin, TierConfig, TierError, over, tier_ok, validate_pins, validate_rules,
  validate_tiers, glob_match, uses_defaults, catch_all_tier, matches, builtin_rules, first_pin,
  first_rule, first_builtin, or_default, classify,
}

abbrev tier_of : Option (ℤ × Str) → Option ℤ
tier_of none = none
tier_of (some (t, s)) = some t

abbrev pub tier_of_rule : Option Rule → Option ℤ
tier_of_rule none = none
tier_of_rule (some r) = some r.tier

abbrev pub tier_of_pin : Option Pin → Option ℤ
tier_of_pin none = none
tier_of_pin (some p) = some p.tier

-- The tier of the first that matches.
abbrev pub rule_tier : Features → List Rule → Option ℤ
rule_tier f rules = tier_of_rule (first_where (λ (r : Rule). matches r.match f) rules)

abbrev pub pin_tier : Features → List Pin → Option ℤ
pin_tier f pins =
    tier_of_pin
      (first_where (λ (p : Pin). not (p.identity == []) && glob_match p.identity f.identity) pins)

abbrev pub or_tier : Option ℤ → ℤ → ℤ
or_tier none b = b
or_tier (some a) b = a

module _ (decimal : ℕ → Str) where
  tier-first_pin :
      (i : ℕ) (pins : List Pin) (f : Features)
      → tier_of (first_pin decimal i pins f) ≡ pin_tier f pins
  unfolding first_pin
  tier-first_pin i [] f = refl
  tier-first_pin i (p ∷ pins) f =
      elim (Bool-cases (not (p.identity == []) && glob_match p.identity f.identity)) [
        | inl e ↦ rw e refl
        | inr e ↦ rw e (tier-first_pin (i + 1) pins f)
      ]

  tier-first_rule :
      (i : ℕ) (rules : List Rule) (f : Features)
      → tier_of (first_rule decimal i rules f) ≡ rule_tier f rules
  unfolding first_rule
  tier-first_rule i [] f = refl
  tier-first_rule i (r ∷ rules) f = elim (Bool-cases (matches r.match f)) [
    | inl e ↦ rw e refl
    | inr e ↦ rw e (tier-first_rule (i + 1) rules f)
  ]

tier-first_builtin :
    (rules : List Rule) (f : Features) → tier_of (first_builtin rules f) ≡ rule_tier f rules
unfolding first_builtin
tier-first_builtin [] f = refl
tier-first_builtin (r ∷ rules) f = elim (Bool-cases (matches r.match f)) [
  | inl e ↦ rw e refl
  | inr e ↦ rw e (tier-first_builtin rules f)
]

or_default-tier :
    (o : Option (ℤ × Str)) (d : ℤ × Str) → (or_default o d).0 ≡ or_tier (tier_of o) d.0
or_default-tier none d = refl
or_default-tier (some (t, s)) d = refl

abbrev default_tier : TierConfig → Features → Option ℤ
default_tier cfg f = if uses_defaults cfg then rule_tier f builtin_rules else none

tier-defaults :
    (cfg : TierConfig) (f : Features)
    → tier_of (if uses_defaults cfg then first_builtin builtin_rules f else none)
      ≡ default_tier cfg f
tier-defaults cfg f = elim (Bool-cases (uses_defaults cfg)) [
  | inl e ↦ rw e (tier-first_builtin builtin_rules f)
  | inr e ↦ rw e refl
]

-- The tier is that of the first pin whose glob matches the identity; without one, of the first rule of the
-- configuration that matches; without one, of the first built-in rule that matches, unless the defaults are
-- switched off; without one, the catch-all.
pub classify-precedence :
    (decimal : ℕ → Str) (cfg : TierConfig) (f : Features)
    → (classify decimal cfg f).0
      ≡ or_tier (pin_tier f cfg.pins) (
          or_tier (rule_tier f cfg.rules) (
            or_tier
              (if uses_defaults cfg then rule_tier f builtin_rules else none)
              (catch_all_tier cfg)))
unfolding classify
classify-precedence decimal cfg f =
    let catch : ℤ × Str = (catch_all_tier cfg, codes "catch-all") in
    let builtin : Option (ℤ × Str) =
      if uses_defaults cfg then first_builtin builtin_rules f else none in
    or_default-tier (first_pin decimal 0 cfg.pins f) _
    ∙ rw (tier-first_pin decimal 0 cfg.pins f) (
        ap (or_tier (pin_tier f cfg.pins)) (
          or_default-tier (first_rule decimal 0 cfg.rules f) (or_default builtin catch)
          ∙ rw (tier-first_rule decimal 0 cfg.rules f) (
              ap (or_tier (rule_tier f cfg.rules))
                (or_default-tier builtin catch ∙ rw (tier-defaults cfg f) refl))))

-- A tier from 1 to 4.
abbrev pub InRange : ℤ → Type 0
InRange (pos n) = (1 ≤ n) × (n ≤ 4)
InRange (negsuc n) = ⊥

tier_ok_lem : (t : ℤ) → tier_ok t ≡ true → InRange t
tier_ok_lem (pos n) h = ground arith
tier_ok_lem (negsuc n) h = cc

rules-ok :
    (f : Features) (i : ℕ) (rules : List Rule) (next : Option TierError)
    → validate_rules i rules next ≡ none
    → (next ≡ none) × ((d : ℤ) → InRange d → InRange (or_tier (rule_tier f rules) d))
unfolding validate_rules
rules-ok f i [] next h = (h, λ d r. r)
rules-ok f i (r ∷ rules) next h = elim (Bool-cases (tier_ok r.tier)) [
  | inr e ↦ absurd (some_none (rw e at h))
  | inl e ↦
      let (rest, later) = rules-ok f (i + 1) rules next (rw e at h) in
      (
        rest,
        elim (Bool-cases (matches r.match f)) [
          | inl m ↦ rw m (λ d k. tier_ok_lem r.tier e)
          | inr m ↦ rw m later
        ],
      )
]
  where
    some_none : {x : TierError} → some x ≡ none → ⊥
    some_none k = cc

pins-ok :
    (f : Features) (i : ℕ) (pins : List Pin)
    → validate_pins i pins ≡ none
    → (d : ℤ) → InRange d
    → InRange (or_tier (pin_tier f pins) d)
unfolding validate_pins
pins-ok f i [] h d k = k
pins-ok f i (p ∷ pins) h d k = elim (Bool-cases (trim is_space p.identity == [])) [
  | inl e ↦ absurd (some_none (rw e at h))
  | inr e ↦ elim (Bool-cases (tier_ok p.tier)) [
    | inr t ↦ absurd (some_none (rw (e, t) at h))
    | inl t ↦ elim (Bool-cases (not (p.identity == []) && glob_match p.identity f.identity)) [
      | inl m ↦ rw m (tier_ok_lem p.tier t)
      | inr m ↦ rw m (pins-ok f (i + 1) pins (rw (e, t) at h) d k)
    ]
  ]
]
  where
    some_none : {x : TierError} → some x ≡ none → ⊥
    some_none k = cc

builtin-ok : (f : Features) (d : ℤ) → InRange d → InRange (or_tier (rule_tier f builtin_rules) d)
unfolding validate_rules
builtin-ok f = (rules-ok f 0 builtin_rules none refl).1

defaults-ok :
    (cfg : TierConfig) (f : Features) (d : ℤ) → InRange d → InRange (or_tier (default_tier cfg f) d)
defaults-ok cfg f d k = elim (Bool-cases (uses_defaults cfg)) [
  | inl e ↦ rw e (builtin-ok f d k)
  | inr e ↦ rw e k
]

catch_all-ok :
    (cfg : TierConfig)
    → (is_negative cfg.catch_all || over 4 cfg.catch_all) ≡ false
    → InRange (catch_all_tier cfg)
unfolding catch_all_tier
catch_all-ok cfg h = by_sign cfg.catch_all h
  where
    by_sign :
        (c : ℤ) → (is_negative c || over 4 c) ≡ false → InRange (if is_zero c then pos 3 else c)
    by_sign (pos zero) k = ground arith
    by_sign (pos (suc n)) k = ground arith
    by_sign (negsuc n) k = cc

-- Where the tier layer of the configuration is valid, every operation gets a tier from 1 to 4.
pub classify-bounds :
    (decimal : ℕ → Str) (cfg : TierConfig) (f : Features)
    → validate_tiers cfg ≡ none
    → InRange (classify decimal cfg f).0
unfolding validate_tiers
classify-bounds decimal cfg f h =
    elim (Bool-cases (is_negative cfg.catch_all || over 4 cfg.catch_all)) [
      | inl e ↦ absurd (some_none (rw e at h))
      | inr e ↦
          let (pins_valid, rules_in_range) =
            rules-ok f 0 cfg.rules (validate_pins 0 cfg.pins) (rw e at h) in
          subst InRange (sym (classify-precedence decimal cfg f)) (
            pins-ok f 0 cfg.pins pins_valid _
              (rules_in_range _ (defaults-ok cfg f _ (catch_all-ok cfg e))))
    ]
  where
    some_none : {x : TierError} → some x ≡ none → ⊥
    some_none k = cc
