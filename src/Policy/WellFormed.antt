-- ===== src/Policy/WellFormed.antt =====
-- What a well-formed policy is, for Validate of internal/groundwork/policy/policy.go.
use verdi_go.Prelude.{
  ◌≡◌, ◌⊎◌, true, false, Option, none, some, List, [], map, is_nil, any, All, bool_Eq, ◌==◌, nat_Eq,
  list_Eq, Str, Str_Eq, pair_Eq, is_zero, is_negative, AllNew,
}
use verdi_go.Facts.Match.{entrypoint_selector}
use verdi_go.Policy.Types.{
  Policy, Broker, Layer, Layering, Exception, ReachRule, PassRule, ConcurrentRule, IoBudget,
  BlindSpotException, BlindSpotRatchet, EffectException, EffectRatchet, blank,
}
use verdi_go.Policy.Validate.{names_no_side, one_of, deliveries, consumer_kinds, is_order}

-- Patterns that bind what they name: some are given, none is blank.
pub record AreNamed (patterns : List Str) : Type 0 where
  pub given : is_nil patterns ≡ false
  pub named : All (λ p. blank p ≡ false) patterns

-- Exceptions that name a side each.
abbrev pub NameSides : List Exception → Type 0
NameSides allow = All (λ a. names_no_side a ≡ false) allow

abbrev pub NoSelector : List Str → Type 0
NoSelector patterns = any (λ p. p == entrypoint_selector) patterns ≡ false

pub record IsLayer (l : Layer) : Type 0 where
  pub named : blank l.name ≡ false
  pub packages : AreNamed l.packages

pub record IsReachRule (r : ReachRule) : Type 0 where
  pub named : blank r.name ≡ false
  pub from : AreNamed r.from
  pub to : AreNamed r.to
  pub plain : NoSelector r.to

pub record IsConcurrentRule (r : ConcurrentRule) : Type 0 where
  pub named : blank r.name ≡ false
  pub to : AreNamed r.to
  pub plain : NoSelector r.to

pub record IsPassRule (r : PassRule) : Type 0 where
  pub named : blank r.name ≡ false
  pub from : AreNamed r.from
  pub to : AreNamed r.to
  pub through : AreNamed r.through
  pub plain_to : NoSelector r.to
  pub plain_through : NoSelector r.through
  pub sides : NameSides r.allow

pub record IsBroker (b : Str × Broker) : Type 0 where
  pub named : blank b.0 ≡ false
  pub delivery : (b.1.delivery ≡ []) ⊎ (one_of b.1.delivery deliveries ≡ true)
  pub ordered : is_order b.1.ordered ≡ true
  pub consumers : (b.1.consumers ≡ []) ⊎ (one_of b.1.consumers consumer_kinds ≡ true)

abbrev pub IsLayering : List Layer → Option Layering → Type 0
IsLayering layers none = Unit
IsLayering layers (some l) = (is_nil layers ≡ false) × NameSides l.allow

abbrev pub IsBudget : Option IoBudget → Type 0
IsBudget none = Unit
IsBudget (some b) = is_negative b.max_writes_per_route ≡ false

abbrev pub NamesSites : Option BlindSpotRatchet → Type 0
NamesSites none = Unit
NamesSites (some r) = All (λ (a : BlindSpotException). blank a.site ≡ false) r.allow

abbrev pub NamesEffects : Option EffectRatchet → Type 0
NamesEffects none = Unit
NamesEffects (some r) = All (λ (a : EffectException). blank a.target ≡ false) r.allow

pub record IsWellFormed (p : Policy) : Type 0 where
  pub service : blank p.service ≡ false
  pub version : is_zero p.version ≡ false
  pub new_layer_names : AllNew [] (map (λ (l : Layer). l.name) p.layers)
  pub layers : All IsLayer p.layers
  pub layering : IsLayering p.layers p.layering
  pub new_reach_names : AllNew [] (map (λ (r : ReachRule). r.name) p.must_not_reach)
  pub reach_rules : All IsReachRule p.must_not_reach
  pub new_concurrent_names : AllNew [] (map (λ (r : ConcurrentRule). r.name) p.no_concurrent_reach)
  pub concurrent_rules : All IsConcurrentRule p.no_concurrent_reach
  pub new_pass_names : AllNew [] (map (λ (r : PassRule). r.name) p.must_pass_through)
  pub pass_rules : All IsPassRule p.must_pass_through
  pub budget : IsBudget p.io_budget
  pub sites : NamesSites p.blind_spot_ratchet
  pub effects : NamesEffects p.effect_ratchet
  pub brokers : All IsBroker p.brokers
