-- ===== src/Facts/Obligation.antt =====
-- The producer's obligations, read as one state for each rule (internal/groundwork/facts/obligation.go).
use verdi_go.Prelude.{
  Bool, true, false, not, Option, none, some, List, [], ◌∷◌, map, if◌then◌else◌, keep, ◌==◌, nat_Eq,
  bool_Eq, list_Eq, Str, codes, Str_Eq, str_lt, sort_by, pair_Eq,
}
use verdi_go.Graph.Types.{Obligation}
use verdi_go.Graph.Index.{Index}
use verdi_go.Graph.Surface

abbrev pub status_violated : Str
status_violated = codes "VIOLATED"

abbrev pub status_cant_prove : Str
status_cant_prove = codes "CANT-PROVE"

abbrev pub status_unmatched : Str
status_unmatched = codes "UNMATCHED"

abbrev pub status_satisfied : Str
status_satisfied = codes "SATISFIED"

pub data ObligationState : Type 0 where
  missing_data unresolved violated unknown cant_prove unmatched satisfied : ObligationState

pub record ObligationResult : Type 0 where
  pub state : ObligationState
  pub name : Str
  pub records : List Obligation

unfoldable pub classify_obligation_status : Str → ObligationState
classify_obligation_status status =
    if status == status_violated
    then violated
    else if status == status_cant_prove
    then cant_prove
    else if status == status_unmatched
    then unmatched
    else if status == status_satisfied
    then satisfied
    else unknown

-- What the loop has seen, read when no record was violated.
unfoldable pub conclude_flags : Bool → Bool → Bool → Bool → ObligationState
conclude_flags saw_unknown saw_cant_prove saw_unmatched saw_satisfied =
    if saw_unknown
    then unknown
    else if saw_cant_prove
    then cant_prove
    else if saw_unmatched
    then unmatched
    else if saw_satisfied
    then satisfied
    else unknown

-- The loop over the states with its four flags; a violated record ends it.
unfoldable pub dominant_from : List ObligationState → Bool → Bool → Bool → Bool → ObligationState
unfolding conclude_flags
dominant_from [] u c m s = conclude_flags u c m s
dominant_from (violated ∷ states) u c m s = violated
dominant_from (unknown ∷ states) u c m s = dominant_from states true c m s
dominant_from (cant_prove ∷ states) u c m s = dominant_from states u true m s
dominant_from (unmatched ∷ states) u c m s = dominant_from states u c true s
dominant_from (satisfied ∷ states) u c m s = dominant_from states u c m true
dominant_from (missing_data ∷ states) u c m s = dominant_from states true c m s
dominant_from (unresolved ∷ states) u c m s = dominant_from states true c m s

unfoldable pub dominant_obligation_state : List ObligationState → ObligationState
unfolding dominant_from
dominant_obligation_state states = dominant_from states false false false false

-- The order (Rule, Kind, Fn, Site, Status, Detail).
unfoldable pub obligation_less : Obligation → Obligation → Bool
unfolding str_lt
obligation_less left right =
    if not (left.rule == right.rule)
    then str_lt left.rule right.rule
    else if not (left.kind == right.kind)
    then str_lt left.kind right.kind
    else if not (left.fn == right.fn)
    then str_lt left.fn right.fn
    else if not (left.site == right.site)
    then str_lt left.site right.site
    else if not (left.status == right.status)
    then str_lt left.status right.status
    else str_lt left.detail right.detail

unfoldable pub sort_obligations : List Obligation → List Obligation
unfolding sort_by obligation_less
sort_obligations = sort_by obligation_less

-- The answer for the records that carry the rule's name.
unfoldable pub answer_for : Str → List Obligation → ObligationResult
unfolding sort_obligations dominant_obligation_state classify_obligation_status
answer_for rule [] = record { state = unresolved; name = rule; records = [] }
answer_for rule (r ∷ rs) =
    let records = sort_obligations (r ∷ rs) in
    record {
      state =
          dominant_obligation_state
            (map (λ (o : Obligation). classify_obligation_status o.status) records);
      name = rule;
      records = records;
    }

-- The answer for the section of the graph.
unfoldable pub from_section : Str → List Obligation → ObligationResult
unfolding answer_for
from_section rule [] = record { state = missing_data; name = rule; records = [] }
from_section rule (o ∷ os) = answer_for rule (keep (λ (r : Obligation). r.rule == rule) (o ∷ os))

-- `none` is the nil index.
unfoldable pub evaluate_obligation : Option Index → Str → ObligationResult
unfolding from_section
evaluate_obligation none rule = record { state = missing_data; name = rule; records = [] }
evaluate_obligation (some ix) rule = from_section rule (Surface.obligations ix)
