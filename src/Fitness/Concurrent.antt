-- ===== src/Fitness/Concurrent.antt =====
-- checkNoConcurrentReach (internal/groundwork/fitness/concurrent.go), checkObligations (obligations.go)
-- and checkRatchetCoupling (coupling.go).
use verdi_go.Prelude.{
  Option, List, [], ◌∷◌, ◌++◌, map, if◌then◌else◌, flat_map, bool_Eq, ◌==◌, nat_Eq, list_Eq, Str,
  codes, Str_Eq, pair_Eq, Format, concat,
}
use verdi_go.Graph.Types.{Obligation}
use verdi_go.Graph.Index.{Index}
use verdi_go.Graph.Surface
use verdi_go.Facts.Types.{BlindWitness}
use verdi_go.Facts.Concurrent.{
  ConcurrentSurface, ConcurrentWitness, ConcurrentResult, concurrent_unbound, concurrent_hit,
  concurrent_blind, concurrent_clean, evaluate_concurrent,
}
use verdi_go.Facts.Obligation.{
  ObligationState, violated, cant_prove, unmatched, satisfied, classify_obligation_status,
}
use verdi_go.Policy.Types.{Policy, ConcurrentRule, effect_ratchet_coupling_caution}
use verdi_go.Policy.Validate.{no_concurrent_reach_kind, to_field}
use verdi_go.Fitness.Findings.{caution, violation, Finding}
use verdi_go.Fitness.Names.{short_name, short_target}
use verdi_go.Fitness.Messages.{unproved, about_rule, unbindable_target_finding, blind_description}

unfoldable pub hit_finding : ConcurrentRule → ConcurrentWitness → Finding
unfolding short_target
hit_finding rule hit = record {
  rule = no_concurrent_reach_kind;
  severity = violation;
  summary =
      concat (
        rule.name
        ∷ codes ": "
        ∷ short_target hit.to
        ∷ codes " reachable on a concurrent path"
        ∷ []);
  from = hit.from;
  to = hit.to;
  detail = [];
}

unfoldable pub blind_concurrent_finding : ConcurrentRule → Option BlindWitness → Finding
unfolding blind_description
blind_concurrent_finding rule blind =
    about_rule no_concurrent_reach_kind (unproved rule.require_proof) (
      concat (
        rule.name
        ∷ codes ": no concurrent path found, but the frontier is blind ("
        ∷ blind_description blind
        ∷ codes ") — "
        ∷ (if rule.require_proof
            then codes "require_proof is set and avoidance cannot be proven"
            else codes "cannot prove the concurrent cone avoids the target")
        ∷ []))

-- The switch on the state.
unfoldable pub concurrent_findings : ConcurrentRule → ConcurrentResult → List Finding
unfolding unbindable_target_finding
concurrent_findings rule fact = elim fact.state [
  | concurrent_unbound ↦
      unbindable_target_finding no_concurrent_reach_kind rule.name to_field rule.require_proof ∷ []
  | concurrent_hit ↦ map (hit_finding rule) fact.hits
  | concurrent_blind ↦ blind_concurrent_finding rule fact.blind ∷ []
  | concurrent_clean ↦ []
]

unfoldable pub check_no_concurrent_reach : Policy → ConcurrentSurface → List Finding
unfolding evaluate_concurrent concurrent_findings
check_no_concurrent_reach p surface =
    flat_map
      (λ (rule : ConcurrentRule). concurrent_findings rule (evaluate_concurrent surface rule.to))
      p.no_concurrent_reach

abbrev pub obligation_kind : Str
obligation_kind = codes "obligation"

-- A finding at the record's function and site.
abbrev pub at_record : Obligation → Str → Str → Finding
at_record o summary detail = record {
  rule = obligation_kind;
  severity = caution;
  summary = summary;
  from = o.fn;
  to = o.site;
  detail = detail;
}

-- The switch on the state that the status reads as.
unfoldable pub state_findings : Format → Obligation → ObligationState → List Finding
unfolding short_name
state_findings format o violated =
    record (at_record o
      (concat (o.rule ∷ codes ": " ∷ o.kind ∷ codes " at " ∷ short_name o.fn ∷ [])) o.detail) {
        severity = violation;
      }
    ∷ []
state_findings format o cant_prove =
    at_record o (concat (o.rule ∷ codes ": cannot prove at " ∷ short_name o.fn ∷ [])) o.detail ∷ []
state_findings format o unmatched =
    record (about_rule obligation_kind caution
      (o.rule ++ codes ": rule matches nothing — inert guardrail")) { detail = o.detail }
    ∷ []
state_findings format o satisfied = []
state_findings format o _ =
    at_record o
      (concat (
        o.rule
        ∷ codes ": status "
        ∷ format.quoted o.status
        ∷ codes " is not understood by this groundwork — upgrade or investigate"
        ∷ []))
      []
    ∷ []

unfoldable pub obligation_findings : Format → Obligation → List Finding
unfolding classify_obligation_status state_findings
obligation_findings format o = state_findings format o (classify_obligation_status o.status)

unfoldable pub check_obligations : Format → Index → List Finding
unfolding Surface.obligations obligation_findings
check_obligations format ix = flat_map (obligation_findings format) (Surface.obligations ix)

unfoldable pub check_ratchet_coupling : Policy → List Finding
unfolding effect_ratchet_coupling_caution
check_ratchet_coupling p =
    let c = effect_ratchet_coupling_caution p in
    if c == [] then [] else about_rule (codes "ratchet_coupling") caution c ∷ []
