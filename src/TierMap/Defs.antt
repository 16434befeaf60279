-- ===== src/TierMap/Defs.antt =====
-- Classify of internal/tiermap/tiermap.go, with Features of internal/model/model.go and the tier layer
-- of internal/config/config.go. The decimal form of an index, which package fmt makes, is a parameter.
use verdi_go.Prelude.{
  ℕ, ◌+◌, Bool, true, false, ◌&&◌, ◌||◌, not, Option, none, some, List, [], ◌∷◌, ◌++◌, ltb, bool_eq,
  if◌then◌else◌, bool_Eq, ◌==◌, nat_Eq, list_Eq, Str, codes, Str_Eq, is_space, trim, pair_Eq, ℤ,
  is_zero, is_negative, above, pos, negsuc,
}
use verdi_go.Glob as Glob

pub record Features : Type 0 where
  pub boundary : Str
  pub effect : Str
  pub origin : Str
  pub fallible : Bool
  pub concurrent : Bool
  pub identity : Str

-- An empty text or `none` leaves a feature open.
pub record MatchSpec : Type 0 where
  pub boundary : Str
  pub effect : Str
  pub origin : Str
  pub fallible : Option Bool
  pub concurrent : Option Bool
  pub identity : Str

pub record Rule : Type 0 where
  pub name : Str
  pub match : MatchSpec
  pub tier : ℤ

pub record Pin : Type 0 where
  pub identity : Str
  pub tier : ℤ

-- The fields of Config that the classifier reads.
pub record TierConfig : Type 0 where
  pub use_defaults : Option Bool
  pub catch_all : ℤ
  pub rules : List Rule
  pub pins : List Pin

-- What Load refuses, in the order of its tests; white space is ASCII's.
pub data TierError : Type 0 where
  catch_all_out_of_range : TierError
  rule_tier_out_of_range : ℕ → TierError
  pin_identity_missing : ℕ → TierError
  pin_tier_out_of_range : ℕ → TierError

-- `max < z`
abbrev pub over : ℕ → ℤ → Bool
over max (pos n) = ltb max n
over max (negsuc n) = false

-- Not `Tier < 1 || Tier > 4`.
abbrev pub tier_ok : ℤ → Bool
tier_ok t = not (above 1 t || over 4 t)

unfoldable pub validate_pins : ℕ → List Pin → Option TierError
unfolding trim
validate_pins i [] = none
validate_pins i (p ∷ pins) =
    let rest = validate_pins (i + 1) pins in
    if trim is_space p.identity == []
    then some (pin_identity_missing i)
    else if not (tier_ok p.tier)
    then some (pin_tier_out_of_range i)
    else rest

unfoldable pub validate_rules : ℕ → List Rule → Option TierError → Option TierError
validate_rules i [] next = next
validate_rules i (r ∷ rules) next =
    let rest = validate_rules (i + 1) rules next in
    if not (tier_ok r.tier) then some (rule_tier_out_of_range i) else rest

-- The tests of the tier layer.
unfoldable pub validate_tiers : TierConfig → Option TierError
unfolding validate_pins validate_rules
validate_tiers c =
    if is_negative c.catch_all || over 4 c.catch_all
    then some catch_all_out_of_range
    else validate_rules 0 c.rules (validate_pins 0 c.pins)

-- The globs' Match never runs out of fuel.
unfoldable pub glob_match : Str → Str → Bool
unfolding Glob.match
glob_match pattern s = elim (Glob.match pattern s) [ none ↦ false | some b ↦ b ]

unfoldable pub uses_defaults : TierConfig → Bool
uses_defaults c = elim c.use_defaults [ none ↦ true | some b ↦ b ]

unfoldable pub catch_all_tier : TierConfig → ℤ
catch_all_tier c = if is_zero c.catch_all then pos 3 else c.catch_all

-- A flag that is given and differs.
abbrev pub differs : Option Bool → Bool → Bool
differs none b = false
differs (some a) b = not (bool_eq a b)

unfoldable pub matches : MatchSpec → Features → Bool
unfolding glob_match
matches m f =
    if not (m.boundary == []) && not (m.boundary == f.boundary)
    then false
    else if not (m.effect == []) && not (m.effect == f.effect)
    then false
    else if not (m.origin == []) && not (m.origin == f.origin)
    then false
    else if differs m.fallible f.fallible
    then false
    else if differs m.concurrent f.concurrent
    then false
    else if not (m.identity == []) && not (glob_match m.identity f.identity)
    then false
    else true

abbrev pub any_features : MatchSpec
any_features = record {
  boundary = [];
  effect = [];
  origin = [];
  fallible = none;
  concurrent = none;
  identity = [];
}

abbrev pub builtin_rules : List Rule
builtin_rules =
    record {
      name = codes "telemetry";
      match = record any_features { effect = codes "telemetry" };
      tier = pos 4;
    }
    ∷ record {
      name = codes "publish";
      match = record any_features { boundary = codes "outbound-async" };
      tier = pos 1;
    }
    ∷ record {
      name = codes "inbound";
      match = record any_features { boundary = codes "inbound" };
      tier = pos 1;
    }
    ∷ record {
      name = codes "mutate";
      match = record any_features { effect = codes "mutate" };
      tier = pos 1;
    }
    ∷ record {
      name = codes "ext-read";
      match = record any_features { boundary = codes "outbound-sync"; effect = codes "read" };
      tier = pos 2;
    }
    ∷ record {
      name = codes "ext-sync";
      match = record any_features { boundary = codes "outbound-sync" };
      tier = pos 1;
    }
    ∷ record {
      name = codes "xpkg-fallible";
      match = record any_features {
        boundary = codes "cross-package";
        origin = codes "first-party";
        fallible = some true;
      };
      tier = pos 2;
    }
    ∷ record {
      name = codes "first-party";
      match = record any_features { origin = codes "first-party" };
      tier = pos 3;
    }
    ∷ record {
      name = codes "stdlib";
      match = record any_features { origin = codes "stdlib" };
      tier = pos 4;
    }
    ∷ []

unfoldable pub first_builtin : List Rule → Features → Option (ℤ × Str)
unfolding matches
first_builtin [] f = none
first_builtin (r ∷ rules) f =
    let later = first_builtin rules f in
    if matches r.match f then some (r.tier, codes "builtin:" ++ r.name) else later

abbrev pub or_default {ℓ} : {A : Type ℓ} → Option A → A → A
or_default none b = b
or_default (some a) b = a

module _ (decimal : ℕ → Str) where
  -- `name` for a rule, by its place where it has no name.
  unfoldable pub rule_name : Str → ℕ → Str → Str
  rule_name prefix i n =
      if not (n == [])
      then prefix ++ codes ":" ++ n
      else prefix ++ codes "[" ++ decimal i ++ codes "]"

  abbrev pub pin_matches : Features → Pin → Bool
  pin_matches f p = not (p.identity == []) && glob_match p.identity f.identity

  unfoldable pub first_pin : ℕ → List Pin → Features → Option (ℤ × Str)
  unfolding glob_match
  first_pin i [] f = none
  first_pin i (p ∷ pins) f =
      let later = first_pin (i + 1) pins f in
      if pin_matches f p then some (p.tier, codes "pin[" ++ decimal i ++ codes "]") else later

  unfoldable pub first_rule : ℕ → List Rule → Features → Option (ℤ × Str)
  unfolding matches rule_name
  first_rule i [] f = none
  first_rule i (r ∷ rules) f =
      let later = first_rule (i + 1) rules f in
      if matches r.match f then some (r.tier, rule_name (codes "rule") i r.name) else later

  -- Pins, then the rules of the user, then the built-in rules, then the catch-all.
  unfoldable pub classify : TierConfig → Features → ℤ × Str
  unfolding first_pin first_rule first_builtin uses_defaults catch_all_tier
  classify cfg f = or_default (first_pin 0 cfg.pins f) (
      or_default (first_rule 0 cfg.rules f) (
        or_default (if uses_defaults cfg then first_builtin builtin_rules f else none)
          (catch_all_tier cfg, codes "catch-all")))
