-- ===== src/Facts/Reach.antt =====
-- EvaluateReach and what it calls (internal/groundwork/facts/reach.go).
use verdi_go.Prelude.{
  ◌||◌, Option, none, some, List, [], ◌∷◌, ◌++◌, if◌then◌else◌, keep, first_where, nat_Eq, bool_Eq,
  contains, list_Eq, Str, Str_Eq, pair_Eq, at_key,
}
use verdi_go.Graph.Index.{Index}
use verdi_go.Graph.Index as GraphIndex
use verdi_go.Facts.Types.{
  reach_unbound, reach_found, reach_absent, reach_blind, ReachResult, PathWitness, BlindWitness,
}
use verdi_go.Facts.Match.{bind_sources, bind_targets, dead_selectors, canonical_strings, no_strings}
use verdi_go.Facts.Frontier.{BoundaryEffect, EffectMap, effects_by_owner, blind_for_cone, or_else}
use verdi_go.Facts.Traversal.{ParentMap, search_tree, canonical_cone, reconstruct_path}

-- The first owner in cone order that carries a matching effect, and its first one.
unfoldable pub cone_matching_effect : List Str → List Str → EffectMap → Option BoundaryEffect
unfolding contains at_key
cone_matching_effect [] targets effects = none
cone_matching_effect (owner ∷ cone) targets effects =
    or_else (first_where (λ (e : BoundaryEffect). contains e.to targets) (at_key owner effects))
      (cone_matching_effect cone targets effects)

pub record SourceSearch : Type 0 where
  pub path : Option PathWitness
  pub blind : Option BlindWitness

abbrev pub tail_of : List Str → List Str
tail_of [] = []
tail_of (x ∷ xs) = xs

module _ (ix : Index) (source : Str) (parent : ParentMap) where
  unfoldable pub function_witness : Str → PathWitness
  unfolding reconstruct_path
  function_witness fn = record { from = source; to = fn; path = reconstruct_path parent source fn }

  unfoldable pub effect_witness : BoundaryEffect → PathWitness
  unfolding reconstruct_path
  effect_witness effect = record {
    from = source;
    to = effect.to;
    path = reconstruct_path parent source effect.from ++ effect.to ∷ [];
  }

  -- A function target, or else a matching effect, or else the blind witness of the cone.
  abbrev pub search_decision :
      Option Str → Option BoundaryEffect → Option BlindWitness → SourceSearch
  search_decision (some fn) effect blind = record {
    path = some (function_witness fn);
    blind = none;
  }
  search_decision none (some effect) blind = record {
    path = some (effect_witness effect);
    blind = none;
  }
  search_decision none none blind = record { path = none; blind = blind }

-- Functions come before effects, and the source itself is never its own target.
unfoldable pub search_from : Index → Str → List Str → EffectMap → SourceSearch
unfolding search_tree canonical_cone cone_matching_effect function_witness effect_witness
    blind_for_cone
search_from ix source targets effects =
    let parent = search_tree ix source in
    let cone = canonical_cone source parent in
    search_decision ix source parent (first_where (λ fn. contains fn targets) (tail_of cone))
      (cone_matching_effect cone targets effects) (blind_for_cone ix source cone effects)

-- The loop over the sources: the first path ends it, the first blind witness is kept.
pub data Searched : Type 0 where
  path_found : PathWitness → Searched
  no_path : Option BlindWitness → Searched

abbrev pub continue_search :
    SourceSearch → Option BlindWitness → (Option BlindWitness → Searched) → Searched
continue_search search first_blind next = elim search.path [
  | some w ↦ path_found w
  | none ↦ next (or_else first_blind search.blind)
]

unfoldable pub search_all : Index → List Str → List Str → EffectMap → Option BlindWitness → Searched
unfolding search_from
search_all ix [] targets effects first_blind = no_path first_blind
search_all ix (source ∷ sources) targets effects first_blind =
    continue_search (search_from ix source targets effects) first_blind
      (λ b. search_all ix sources targets effects b)

abbrev pub conclude : ReachResult → Searched → ReachResult
conclude r (path_found w) = record r { state = reach_found; paths = w ∷ [] }
conclude r (no_path (some b)) = record r { state = reach_blind; blind = some b }
conclude r (no_path none) = record r { state = reach_absent }

unfoldable pub evaluate_reach_bindings :
    Index → List Str → List Str → List Str → List Str → ReachResult
unfolding search_all effects_by_owner
evaluate_reach_bindings ix bound_from bound_to dead_from dead_to =
    let result : ReachResult = record {
      state = reach_unbound;
      from = bound_from;
      to = bound_to;
      paths = [];
      blind = none;
      unbound_from = dead_from;
      unbound_to = dead_to;
    } in
    if no_strings bound_from || no_strings bound_to
    then result
    else conclude result (search_all ix bound_from bound_to (effects_by_owner ix) none)

abbrev pub reach_nothing : List Str → List Str → ReachResult
reach_nothing from to = record {
  state = reach_unbound;
  from = [];
  to = [];
  paths = [];
  blind = none;
  unbound_from = canonical_strings from;
  unbound_to = canonical_strings to;
}

-- `none` is the nil index.
unfoldable pub evaluate_reach : Option Index → List Str → List Str → ReachResult
unfolding evaluate_reach_bindings bind_sources bind_targets dead_selectors canonical_strings
evaluate_reach none from to = reach_nothing from to
evaluate_reach (some ix) from to =
    evaluate_reach_bindings ix (bind_sources ix from) (bind_targets ix to)
      (dead_selectors ix from bind_sources) (dead_selectors ix to bind_targets)

unfoldable pub bound_identities : Index → List Str → List Str
unfolding canonical_strings GraphIndex.has
bound_identities ix values = keep (λ v. GraphIndex.has ix v) (canonical_strings values)

unfoldable pub evaluate_reach_bound_sources : Option Index → List Str → List Str → ReachResult
unfolding evaluate_reach_bindings bound_identities bind_targets dead_selectors canonical_strings
evaluate_reach_bound_sources none from to = reach_nothing from to
evaluate_reach_bound_sources (some ix) from to =
    evaluate_reach_bindings ix (bound_identities ix from) (bind_targets ix to)
      (dead_selectors ix from bound_identities) (dead_selectors ix to bind_targets)
