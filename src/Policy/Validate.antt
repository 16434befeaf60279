-- ===== src/Policy/Validate.antt =====
-- Validate of internal/groundwork/policy/policy.go and its helpers: the error that it returns, `none`
-- where it returns nil. An error carries what its message shows.
use verdi_go.Prelude.{
  ℕ, Bool, ◌&&◌, ◌||◌, not, Option, none, some, List, [], ◌∷◌, is_nil, any, bool_Eq, ◌==◌, nat_Eq,
  contains, list_Eq, Str, codes, Str_Eq, has_prefix, pair_Eq, is_zero, is_negative, refuse_if,
  first_error, check_each, check_named,
}
use verdi_go.Facts.Match.{entrypoint_selector}
use verdi_go.Policy.Types.{
  Policy, Broker, Layer, Exception, ReachRule, PassRule, ConcurrentRule, IoBudget,
  BlindSpotException, BlindSpotRatchet, EffectException, EffectRatchet, blank,
}

pub data PolicyError : Type 0 where
  service_required version_required layering_without_layers budget_negative : PolicyError
  broker_name_required : PolicyError
  layer_name_required layering_allow_empty ratchet_site_required effect_target_required :
      ℕ → PolicyError
  layer_duplicate : ℕ → Str → PolicyError
  layer_without_packages : Str → PolicyError
  rule_name_required : Str → ℕ → PolicyError
  rule_duplicate rule_incomplete : Str → ℕ → Str → PolicyError
  pass_allow_empty : ℕ → Str → ℕ → PolicyError
  selector_not_allowed : Str → Str → Str → PolicyError
  pattern_empty : Str → Str → Str → ℕ → PolicyError
  broker_delivery broker_ordered broker_consumers : Str → Str → PolicyError

unfoldable pub one_of : Str → List Str → Bool
one_of s allowed = any (λ a. s == a) allowed

unfoldable pub no_selector : Str → Str → Str → List Str → Option PolicyError
no_selector kind rule field patterns =
    refuse_if (any (λ p. p == entrypoint_selector) patterns) (selector_not_allowed kind rule field)

unfoldable pub no_empty_pattern : Str → Str → Str → List Str → Option PolicyError
unfolding blank check_each
no_empty_pattern kind rule field patterns =
    check_each (λ i p. refuse_if (blank p) (pattern_empty kind rule field i)) 0 patterns

abbrev pub names_no_side : Exception → Bool
names_no_side a = (a.from == []) && (a.to == [])

unfoldable pub check_layer : ℕ → List Str → Layer → Option PolicyError
unfolding blank contains no_empty_pattern
check_layer i seen l = first_error (
    refuse_if (blank l.name) (layer_name_required i)
    ∷ refuse_if (contains l.name seen) (layer_duplicate i l.name)
    ∷ refuse_if (is_nil l.packages) (layer_without_packages l.name)
    ∷ no_empty_pattern (codes "layer") l.name (codes "packages") l.packages
    ∷ [])

unfoldable pub check_layering_config : Policy → Option PolicyError
unfolding check_each
check_layering_config p = elim p.layering [
  | none ↦ none
  | some layering ↦ first_error (
      refuse_if (is_nil p.layers) layering_without_layers
      ∷ check_each (λ i a. refuse_if (names_no_side a) (layering_allow_empty i)) 0 layering.allow
      ∷ [])
]

abbrev pub must_not_reach_kind : Str
must_not_reach_kind = codes "must_not_reach"

abbrev pub no_concurrent_reach_kind : Str
no_concurrent_reach_kind = codes "no_concurrent_reach"

abbrev pub must_pass_through_kind : Str
must_pass_through_kind = codes "must_pass_through"

abbrev pub from_field : Str
from_field = codes "from"

abbrev pub to_field : Str
to_field = codes "to"

abbrev pub through_field : Str
through_field = codes "through"

unfoldable pub check_reach_rule : ℕ → List Str → ReachRule → Option PolicyError
unfolding blank contains no_selector no_empty_pattern
check_reach_rule i seen r = first_error (
    refuse_if (blank r.name) (rule_name_required must_not_reach_kind i)
    ∷ refuse_if (contains r.name seen) (rule_duplicate must_not_reach_kind i r.name)
    ∷ refuse_if (is_nil r.from || is_nil r.to) (rule_incomplete must_not_reach_kind i r.name)
    ∷ no_selector must_not_reach_kind r.name to_field r.to
    ∷ no_empty_pattern must_not_reach_kind r.name from_field r.from
    ∷ no_empty_pattern must_not_reach_kind r.name to_field r.to
    ∷ [])

unfoldable pub check_concurrent_rule : ℕ → List Str → ConcurrentRule → Option PolicyError
unfolding blank contains no_selector no_empty_pattern
check_concurrent_rule i seen r = first_error (
    refuse_if (blank r.name) (rule_name_required no_concurrent_reach_kind i)
    ∷ refuse_if (contains r.name seen) (rule_duplicate no_concurrent_reach_kind i r.name)
    ∷ refuse_if (is_nil r.to) (rule_incomplete no_concurrent_reach_kind i r.name)
    ∷ no_selector no_concurrent_reach_kind r.name to_field r.to
    ∷ no_empty_pattern no_concurrent_reach_kind r.name to_field r.to
    ∷ [])

unfoldable pub check_pass_rule : ℕ → List Str → PassRule → Option PolicyError
unfolding blank contains no_selector no_empty_pattern check_each
check_pass_rule i seen r = first_error (
    refuse_if (blank r.name) (rule_name_required must_pass_through_kind i)
    ∷ refuse_if (contains r.name seen) (rule_duplicate must_pass_through_kind i r.name)
    ∷ refuse_if (is_nil r.from || (is_nil r.to || is_nil r.through))
        (rule_incomplete must_pass_through_kind i r.name)
    ∷ check_each (λ j a. refuse_if (names_no_side a) (pass_allow_empty i r.name j)) 0 r.allow
    ∷ no_selector must_pass_through_kind r.name to_field r.to
    ∷ no_selector must_pass_through_kind r.name through_field r.through
    ∷ no_empty_pattern must_pass_through_kind r.name from_field r.from
    ∷ no_empty_pattern must_pass_through_kind r.name to_field r.to
    ∷ no_empty_pattern must_pass_through_kind r.name through_field r.through
    ∷ [])

unfoldable pub check_budget : Option IoBudget → Option PolicyError
check_budget none = none
check_budget (some budget) = refuse_if (is_negative budget.max_writes_per_route) budget_negative

unfoldable pub check_blind_spot_ratchet : Option BlindSpotRatchet → Option PolicyError
unfolding check_each blank
check_blind_spot_ratchet none = none
check_blind_spot_ratchet (some r) =
    check_each (λ i (a : BlindSpotException). refuse_if (blank a.site) (ratchet_site_required i)) 0
      r.allow

unfoldable pub check_effect_ratchet : Option EffectRatchet → Option PolicyError
unfolding check_each blank
check_effect_ratchet none = none
check_effect_ratchet (some r) =
    check_each (λ i (a : EffectException). refuse_if (blank a.target) (effect_target_required i)) 0
      r.allow

abbrev pub deliveries : List Str
deliveries = codes "at-least-once" ∷ codes "at-most-once" ∷ codes "exactly-once" ∷ []

abbrev pub consumer_kinds : List Str
consumer_kinds = codes "idempotent" ∷ codes "not-idempotent" ∷ []

abbrev pub is_order : Str → Bool
is_order s =
    s == [] || (s == codes "false" || (s == codes "total" || has_prefix s (codes "per-key:")))

unfoldable pub check_broker : ℕ → Str × Broker → Option PolicyError
unfolding blank one_of has_prefix
check_broker i (name, b) = first_error (
    refuse_if (blank name) broker_name_required
    ∷ refuse_if (not (b.delivery == []) && not (one_of b.delivery deliveries))
        (broker_delivery name b.delivery)
    ∷ refuse_if (not (is_order b.ordered)) (broker_ordered name b.ordered)
    ∷ refuse_if (not (b.consumers == []) && not (one_of b.consumers consumer_kinds))
        (broker_consumers name b.consumers)
    ∷ [])

unfoldable pub checks : Policy → List (Option PolicyError)
unfolding blank check_named check_each check_layer check_layering_config check_reach_rule
    check_concurrent_rule check_pass_rule check_budget check_blind_spot_ratchet check_effect_ratchet
    check_broker
checks p =
    refuse_if (blank p.service) service_required
    ∷ refuse_if (is_zero p.version) version_required
    ∷ check_named (λ (l : Layer). l.name) check_layer 0 [] p.layers
    ∷ check_layering_config p
    ∷ check_named (λ (r : ReachRule). r.name) check_reach_rule 0 [] p.must_not_reach
    ∷ check_named (λ (r : ConcurrentRule). r.name) check_concurrent_rule 0 [] p.no_concurrent_reach
    ∷ check_named (λ (r : PassRule). r.name) check_pass_rule 0 [] p.must_pass_through
    ∷ check_budget p.io_budget
    ∷ check_blind_spot_ratchet p.blind_spot_ratchet
    ∷ check_effect_ratchet p.effect_ratchet
    ∷ check_each check_broker 0 p.brokers
    ∷ []

unfoldable pub validate : Policy → Option PolicyError
unfolding checks
validate p = first_error (checks p)
