-- ===== src/Fitness/Reach.antt =====
-- checkMustNotReach and the wrappers of internal/groundwork/fitness/reach.go.
use verdi_go.Prelude.{
  Bool, Option, none, some, List, [], ◌∷◌, ltb, if◌then◌else◌, length, is_nil, flat_map, bool_Eq,
  nat_Eq, list_Eq, Str, codes, Str_Eq, pair_Eq, concat,
}
use verdi_go.Graph.Types.{Edge}
use verdi_go.Graph.Index.{Index}
use verdi_go.Facts.Types.{
  PathWitness, BlindWitness, ReachResult, reach_unbound, reach_found, reach_absent, reach_blind,
}
use verdi_go.Facts.Match.{bind_targets}
use verdi_go.Facts.Frontier.{blind_frontier}
use verdi_go.Facts.Concurrent.{first_or_empty}
use verdi_go.Facts.Reach.{evaluate_reach, evaluate_reach_bound_sources}
use verdi_go.Policy.Types.{Policy, ReachRule}
use verdi_go.Policy.Validate.{must_not_reach_kind, to_field}
use verdi_go.Fitness.Findings.{violation, Finding}
use verdi_go.Fitness.Names.{short_name}
use verdi_go.Fitness.Messages.{
  unproved, inert_rule_finding, unbindable_target_finding, blind_from, blind_description,
}

unfoldable pub reach_finding : ReachRule → PathWitness → Finding
unfolding short_name
reach_finding rule witness = record {
  rule = must_not_reach_kind;
  severity = violation;
  summary =
      concat
        (rule.name ∷ codes ": " ∷ short_name witness.from ∷ codes " reaches " ∷ witness.to ∷ []);
  from = witness.from;
  to = witness.to;
  detail = [];
}

unfoldable pub blind_reach_finding : ReachRule → Option BlindWitness → Finding
unfolding blind_description blind_from
blind_reach_finding rule blind = record {
  rule = must_not_reach_kind;
  severity = unproved rule.require_proof;
  summary = concat (
      rule.name
      ∷ codes ": no path found, but the frontier is blind ("
      ∷ blind_description blind
      ∷ codes ") — "
      ∷ (if rule.require_proof
          then codes "require_proof is set and absence cannot be proven"
          else codes "cannot prove absence")
      ∷ []);
  from = blind_from blind;
  to = [];
  detail = [];
}

-- `fact.Paths[0]`; an answer that found a way has one path, so that the empty case is never met.
abbrev pub first_path : List PathWitness → (PathWitness → List Finding) → List Finding
first_path [] found = []
first_path (w ∷ ws) found = found w

-- The switch on the state.
unfoldable pub reach_findings : ReachRule → ReachResult → List Finding
unfolding inert_rule_finding unbindable_target_finding
reach_findings rule fact = elim fact.state [
  | reach_unbound ↦
      (if is_nil fact.from
        then inert_rule_finding must_not_reach_kind rule.name rule.require_proof
        else unbindable_target_finding must_not_reach_kind rule.name to_field rule.require_proof)
      ∷ []
  | reach_found ↦ first_path fact.paths (λ w. reach_finding rule w ∷ [])
  | reach_blind ↦ blind_reach_finding rule fact.blind ∷ []
  | reach_absent ↦ []
]

unfoldable pub check_must_not_reach : Policy → Index → List Finding
unfolding evaluate_reach reach_findings
check_must_not_reach p ix =
    flat_map
      (λ (rule : ReachRule). reach_findings rule (evaluate_reach (some ix) rule.from rule.to))
      p.must_not_reach

unfoldable pub binds_any_target : Index → List Str → Bool
unfolding bind_targets
binds_any_target ix patterns = ltb 0 (length (bind_targets ix patterns))

-- The compatibility form of a state, with its evidence.
pub data Verdict : Type 0 where
  proven_absent no_path_found reachable_path : Verdict

pub record Evidence : Type 0 where
  pub from : Str
  pub target : Str

abbrev pub no_evidence : Evidence
no_evidence = record { from = []; target = [] }

abbrev pub path_evidence : List PathWitness → Evidence
path_evidence [] = no_evidence
path_evidence (w ∷ ws) = record { from = w.from; target = w.to }

unfoldable pub judge : ReachResult → Verdict × Evidence
unfolding blind_from blind_description
judge fact = elim fact.state [
  | reach_found ↦ (reachable_path, path_evidence fact.paths)
  | reach_blind ↦ (
    no_path_found,
    record { from = blind_from fact.blind; target = blind_description fact.blind },
  )
  | reach_unbound ↦ (no_path_found, no_evidence)
  | reach_absent ↦ (proven_absent, no_evidence)
]

unfoldable pub eval_reach : Index → List Str → List Str → Verdict × Evidence
unfolding evaluate_reach_bound_sources
eval_reach ix froms to_patterns = judge (evaluate_reach_bound_sources (some ix) froms to_patterns)

-- `none` is ("", false).
unfoldable pub frontier_blind_site_with : Index → List Str → List Edge → Option Str
unfolding blind_frontier blind_description
frontier_blind_site_with ix cone effects =
    elim (blind_frontier ix (first_or_empty cone) cone effects) [
      | none ↦ none
      | some w ↦ some (blind_description (some w))
    ]
