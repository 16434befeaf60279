-- ===== src/Tests/Rules.antt =====
-- The theorems on the graph's data, the obligations and the tiers, on small inputs.
use verdi_go.Prelude.{
  ℕ, ◌+◌, ◌≡◌, refl, ◌↔◌, true, false, none, some, [], ◌∷◌, ◌++◌, map, arith, if◌then◌else◌, any,
  keep, All, bool_Eq, ◌==◌, nat_Eq, list_eq, contains, list_Eq, Str, codes, Str_Eq, pair_Eq, pos,
}
use verdi_go.Tests.Samples.{handler, store, call_edge, write_edge, service}
use verdi_go.Graph.Types.{Graph, Node, BlindSpot, validate}
use verdi_go.Graph.Index.{
  new_index, with_blind_spots, reachable, reaching, sources, callees, callers,
}
use verdi_go.Graph.Validation.{IsConsistent, validate_iff}
use verdi_go.Graph.Adjacency.{calls, callees-callers, callees-canonical}
use verdi_go.Graph.Surface.{effects, blind_spots_at}
use verdi_go.Graph.Disclosure.{with_blind_spots_lem}
use verdi_go.Facts.Obligation.{evaluate_obligation, violated, satisfied}
use verdi_go.Facts.ObligationLaws.{
  breaks, of_rule, falls_short, evaluate_obligation-violated, evaluate_obligation-satisfied,
}
use verdi_go.TierMap.Defs.{
  Features, TierConfig, any_features, builtin_rules, uses_defaults, catch_all_tier, classify,
  validate_tiers,
}
use verdi_go.TierMap.Precedence.{
  pin_tier, rule_tier, or_tier, classify-precedence, InRange, classify-bounds,
}

validate_iff_example :
    (validate true service ≡ none)
    ↔ ((true ≡ true) × All (IsConsistent (map (λ (n : Node). n.fqn) service.nodes)) service.edges)
validate_iff_example = validate_iff true service

callees-callers_example :
    contains store (callees (new_index service) handler)
    ≡ contains handler (callers (new_index service) store)
callees-callers_example = callees-callers service handler store

-- The service with its edges the other way round, one of them twice.
abbrev reordered : Graph
reordered = record service {
  edges = write_edge ∷ call_edge handler store ∷ call_edge handler store ∷ [];
}

same_calls : (t : Str) → calls service handler t ≡ calls reordered handler t
unfolding list_eq
same_calls t = ground arith

callees-canonical_example :
    callees (new_index service) handler ≡ callees (new_index reordered) handler
callees-canonical_example = callees-canonical service reordered handler same_calls

abbrev reflective : BlindSpot
reflective = record { kind = codes "Reflect"; site = store; detail = []; severity = []; pkg = [] }

with_blind_spots_lem_example :
    (blind_spots_at (with_blind_spots (new_index service) (reflective ∷ [])) store
      ≡ blind_spots_at (new_index service) store
        ++ keep (λ (b : BlindSpot). b.site == store) (reflective ∷ []))
    × (reachable (with_blind_spots (new_index service) (reflective ∷ [])) (handler ∷ [])
        ≡ reachable (new_index service) (handler ∷ []))
    × (reaching (with_blind_spots (new_index service) (reflective ∷ [])) (handler ∷ [])
        ≡ reaching (new_index service) (handler ∷ []))
    × (sources (with_blind_spots (new_index service) (reflective ∷ []))
        ≡ sources (new_index service))
    × (effects (with_blind_spots (new_index service) (reflective ∷ [])) (handler ∷ [])
        ≡ effects (new_index service) (handler ∷ []))
    × (callees (with_blind_spots (new_index service) (reflective ∷ [])) store
        ≡ callees (new_index service) store)
    × (callers (with_blind_spots (new_index service) (reflective ∷ [])) store
        ≡ callers (new_index service) store)
with_blind_spots_lem_example = with_blind_spots_lem service (reflective ∷ []) store (handler ∷ [])

evaluate_obligation-violated_example :
    ((evaluate_obligation (some (new_index service)) (codes "tx")).state ≡ violated)
    ↔ (any (breaks (codes "tx")) service.obligations ≡ true)
evaluate_obligation-violated_example = evaluate_obligation-violated service (codes "tx")

evaluate_obligation-satisfied_example :
    ((evaluate_obligation (some (new_index service)) (codes "tx")).state ≡ satisfied) ↔ (
      (any (of_rule (codes "tx")) service.obligations ≡ true)
      × (any (falls_short (codes "tx")) service.obligations ≡ false))
evaluate_obligation-satisfied_example = evaluate_obligation-satisfied service (codes "tx")

-- One digit is enough for the places of a short list.
abbrev one_digit : ℕ → Str
one_digit n = (b'0' + n) ∷ []

abbrev publish : Features
publish = record {
  boundary = codes "outbound-async";
  effect = codes "mutate";
  origin = codes "third-party";
  fallible = true;
  concurrent = false;
  identity = codes "bus#Publish";
}

abbrev pinned : TierConfig
pinned = record {
  use_defaults = none;
  catch_all = pos 0;
  rules =
      record { name = []; match = record any_features { effect = codes "mutate" }; tier = pos 2 }
      ∷ [];
  pins = record { identity = codes "bus#*"; tier = pos 3 } ∷ [];
}

classify-precedence_example :
    (classify one_digit pinned publish).0
    ≡ or_tier (pin_tier publish pinned.pins) (
        or_tier (rule_tier publish pinned.rules) (
          or_tier
            (if uses_defaults pinned then rule_tier publish builtin_rules else none)
            (catch_all_tier pinned)))
classify-precedence_example = classify-precedence one_digit pinned publish

pinned-valid : validate_tiers pinned ≡ none
unfolding validate_tiers list_eq
pinned-valid = refl

classify-bounds_example : InRange (classify one_digit pinned publish).0
classify-bounds_example = classify-bounds one_digit pinned publish pinned-valid
