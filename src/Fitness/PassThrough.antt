-- ===== src/Fitness/PassThrough.antt =====
-- checkMustPassThrough of internal/groundwork/fitness/passthrough.go.
use verdi_go.Prelude.{
  Option, some, List, [], ◌∷◌, map, if◌then◌else◌, is_nil, flat_map, bool_Eq, nat_Eq, list_Eq,
  codes, Str_Eq, pair_Eq, concat,
}
use verdi_go.Graph.Index.{Index}
use verdi_go.Facts.Types.{
  PathWitness, BlindWitness, AllowPair, PassThroughInput, PassThroughResult, pass_through_unbound,
  pass_through_bypassed, pass_through_guarded, pass_through_blind,
}
use verdi_go.Facts.PassThrough.{evaluate_pass_through}
use verdi_go.Policy.Types.{Policy, PassRule, Exception}
use verdi_go.Policy.Validate.{must_pass_through_kind, to_field}
use verdi_go.Fitness.Findings.{violation, Finding}
use verdi_go.Fitness.Names.{short_name, short_target, render_bypass_path, short_patterns}
use verdi_go.Fitness.Messages.{
  unproved, inert_rule_finding, unbindable_target_finding, blind_from, blind_description,
}

abbrev pub allow_pair : Exception → AllowPair
allow_pair exception = record { from = exception.from; to = exception.to }

abbrev pub pass_input : PassRule → PassThroughInput
pass_input rule = record {
  from = rule.from;
  to = rule.to;
  through = rule.through;
  allow = map allow_pair rule.allow;
}

unfoldable pub bypass_finding : PassRule → PathWitness → Finding
unfolding short_name short_target render_bypass_path short_patterns
bypass_finding rule bypass = record {
  rule = must_pass_through_kind;
  severity = violation;
  summary = concat (
      rule.name
      ∷ codes ": "
      ∷ short_name bypass.from
      ∷ codes " reaches "
      ∷ short_target bypass.to
      ∷ codes " without passing "
      ∷ short_patterns rule.through
      ∷ []);
  from = bypass.from;
  to = bypass.to;
  detail = render_bypass_path bypass.path;
}

unfoldable pub blind_pass_finding : PassRule → Option BlindWitness → Finding
unfolding blind_description blind_from
blind_pass_finding rule blind = record {
  rule = must_pass_through_kind;
  severity = unproved rule.require_proof;
  summary = concat (
      rule.name
      ∷ codes ": no bypass found, but the frontier is blind ("
      ∷ blind_description blind
      ∷ codes ") — "
      ∷ (if rule.require_proof
          then codes "require_proof is set and guarding cannot be proven"
          else codes "cannot prove every path is guarded")
      ∷ []);
  from = blind_from blind;
  to = [];
  detail = [];
}

-- The switch on the state.
abbrev pub pass_state_findings : PassRule → PassThroughResult → List Finding
pass_state_findings rule fact = elim fact.state [
  | pass_through_bypassed ↦ map (bypass_finding rule) fact.bypass_occurrences
  | pass_through_blind ↦ blind_pass_finding rule fact.blind ∷ []
  | pass_through_guarded ↦ []
  | pass_through_unbound ↦ []
]

unfoldable pub pass_findings : PassRule → PassThroughResult → List Finding
unfolding inert_rule_finding unbindable_target_finding
pass_findings rule fact =
    if is_nil fact.from
    then inert_rule_finding must_pass_through_kind rule.name rule.require_proof ∷ []
    else if is_nil fact.to
    then unbindable_target_finding must_pass_through_kind rule.name to_field rule.require_proof ∷ []
    else pass_state_findings rule fact

unfoldable pub check_must_pass_through : Policy → Index → List Finding
unfolding evaluate_pass_through pass_findings
check_must_pass_through p ix =
    flat_map
      (λ (rule : PassRule). pass_findings rule (evaluate_pass_through (some ix) (pass_input rule)))
      p.must_pass_through
