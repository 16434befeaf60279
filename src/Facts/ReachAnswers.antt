-- ===== src/Facts/ReachAnswers.antt =====
-- EvaluateReach as its callers see it (internal/groundwork/facts/reach.go): each state of the answer
-- against the calls of the graph and what the graph hides.
use verdi_go.Prelude.{
  ◌≡◌, ◌≢◌, ◌↔◌, none, some, List, [], ◌∷◌, In, nat_Eq, bool_Eq, list_Eq, Str, Str_Eq, pair_Eq,
}
use verdi_go.Graph.Types.{Graph}
use verdi_go.Graph.Index.{new_index}
use verdi_go.Facts.Types.{PathWitness, reach_found, reach_absent, reach_blind}
use verdi_go.Facts.Match.{bind_sources, bind_targets}
use verdi_go.Facts.Reach.{evaluate_reach}
use verdi_go.Facts.ReachSearch.{IsWitness}
use verdi_go.Facts.ReachVerdict.{SomeHit}
use verdi_go.Facts.ReachLaws.{
  AllClear, evaluate_reach-Report, Report-found, Report-absent, Report-IsWitness, Report-blind,
}

-- The answer is "found" exactly when calls lead from a bound source to a bound target: to another
-- function, or to the owner of a boundary effect with the target's label.
pub evaluate_reach-found :
    (g : Graph) (from to : List Str)
    → ((evaluate_reach (some (new_index g)) from to).state ≡ reach_found)
      ↔ SomeHit g (bind_targets (new_index g) to) (bind_sources (new_index g) from)
evaluate_reach-found g from to = Report-found (evaluate_reach-Report g from to)

-- The answer is "absent" exactly when both families bind, no bound source has a way to a bound target,
-- and nothing that a bound source reaches hides anything: no blind spot at the function or its package
-- (but for the two kinds that only disclose) and no boundary effect without a name.
pub evaluate_reach-absent :
    (g : Graph) (from to : List Str)
    → ((evaluate_reach (some (new_index g)) from to).state ≡ reach_absent) ↔ (
        (bind_sources (new_index g) from ≢ [])
        × (bind_targets (new_index g) to ≢ [])
        × (¬ SomeHit g (bind_targets (new_index g) to) (bind_sources (new_index g) from))
        × AllClear g (bind_sources (new_index g) from) (bind_targets (new_index g) to))
evaluate_reach-absent g from to = Report-absent (evaluate_reach-Report g from to)

-- Every path of an answer starts at a bound source, is a chain of the graph's calls to a bound target (with
-- a boundary edge as its last step where the target is a label), and is the only path of the answer.
pub evaluate_reach-IsWitness :
    (g : Graph) (from to : List Str) (w : PathWitness)
    → In w (evaluate_reach (some (new_index g)) from to).paths
    → In w.from (bind_sources (new_index g) from)
      × IsWitness g (bind_targets (new_index g) to) w
      × ((evaluate_reach (some (new_index g)) from to).paths ≡ w ∷ [])
evaluate_reach-IsWitness g from to w m = Report-IsWitness (evaluate_reach-Report g from to) w m

-- The answer carries a blind witness exactly when its state is "blind".
pub evaluate_reach-blind :
    (g : Graph) (from to : List Str)
    → ((evaluate_reach (some (new_index g)) from to).blind ≡ none)
      ↔ ((evaluate_reach (some (new_index g)) from to).state ≢ reach_blind)
evaluate_reach-blind g from to = Report-blind (evaluate_reach-Report g from to)
