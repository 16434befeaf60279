-- ===== src/Tests/Reaching.antt =====
-- The reachability theorems on the sample service.
use verdi_go.Prelude.{
  ◌≡◌, refl, ◌≢◌, ◌↔◌, ◌⊎◌, inr, true, none, some, [], ◌∷◌, In, bool_Eq, nat_Eq, list_eq, contains,
  list_Eq, Str, Str_Eq, has_prefix, pair_Eq, here,
}
use verdi_go.Tests.Samples.{handler, store, worker, write, service}
use verdi_go.Graph.Index.{new_index}
use verdi_go.Graph.Index as GraphIndex
use verdi_go.Graph.Surface
use verdi_go.Facts.Types.{
  PathWitness, reach_found, reach_absent, PassThroughInput, pass_through_bypassed,
}
use verdi_go.Facts.Match.{bind_sources, bind_targets, bind_functions}
use verdi_go.Facts.Reach.{evaluate_reach}
use verdi_go.Facts.ReachSearch.{IsWitness}
use verdi_go.Facts.ReachVerdict.{SomeHit}
use verdi_go.Facts.ReachLaws.{AllClear}
use verdi_go.Facts.ReachAnswers.{
  evaluate_reach-found, evaluate_reach-absent, evaluate_reach-IsWitness,
}
use verdi_go.Facts.PassThrough.{evaluate_pass_through}
use verdi_go.Facts.PassThroughAnswers.{SomeBypass, evaluate_pass_through-bypassed}
use verdi_go.Graph.Index.{reachable, reaching, sources, entrypoint_cover}
use verdi_go.Graph.Types.{is_boundary}
use verdi_go.Graph.Adjacency.{calls}
use verdi_go.Graph.Reachability.{
  CallPath, call, reachable_iff, reaching_iff, IsSource, sources_iff, entrypoint_cover_iff,
}
use verdi_go.Facts.Traversal.{search_tree, reconstruct_path}
use verdi_go.Facts.Frontier.{effects_by_owner, blind_for_cone}
use verdi_go.Facts.Cone.{InCone, CallChain, cone, cone_iff, reconstruct_path-CallChain}
use verdi_go.Facts.Visibility.{IsVisible}
use verdi_go.Facts.Blindness.{blind_for_cone_iff}

evaluate_reach-found_example :
    ((evaluate_reach (some (new_index service)) (handler ∷ []) (write ∷ [])).state ≡ reach_found)
    ↔ SomeHit service
        (bind_targets (new_index service) (write ∷ []))
        (bind_sources (new_index service) (handler ∷ []))
evaluate_reach-found_example = evaluate_reach-found service (handler ∷ []) (write ∷ [])

evaluate_reach-absent_example :
    ((evaluate_reach (some (new_index service)) (worker ∷ []) (write ∷ [])).state ≡ reach_absent)
    ↔ ((bind_sources (new_index service) (worker ∷ []) ≢ [])
        × (bind_targets (new_index service) (write ∷ []) ≢ [])
        × (¬ SomeHit service
            (bind_targets (new_index service) (write ∷ []))
            (bind_sources (new_index service) (worker ∷ [])))
        × AllClear service
            (bind_sources (new_index service) (worker ∷ []))
            (bind_targets (new_index service) (write ∷ [])))
evaluate_reach-absent_example = evaluate_reach-absent service (worker ∷ []) (write ∷ [])

abbrev write_path : PathWitness
write_path = record { from = handler; to = write; path = handler ∷ store ∷ write ∷ [] }

write_path-In :
    In write_path (evaluate_reach (some (new_index service)) (handler ∷ []) (write ∷ [])).paths
unfolding evaluate_reach list_eq new_index GraphIndex.nodes Surface.edges
write_path-In = here

evaluate_reach-IsWitness_example :
    In handler (bind_sources (new_index service) (handler ∷ []))
    × IsWitness service (bind_targets (new_index service) (write ∷ [])) write_path
    × ((evaluate_reach (some (new_index service)) (handler ∷ []) (write ∷ [])).paths
        ≡ write_path ∷ [])
evaluate_reach-IsWitness_example =
    evaluate_reach-IsWitness service (handler ∷ []) (write ∷ []) write_path write_path-In

abbrev around_worker : PassThroughInput
around_worker = record { from = handler ∷ []; to = write ∷ []; through = worker ∷ []; allow = [] }

evaluate_pass_through-bypassed_example :
    ((evaluate_pass_through (some (new_index service)) around_worker).state ≡ pass_through_bypassed)
    ↔ SomeBypass service []
        (bind_functions (new_index service) (worker ∷ []))
        (bind_targets (new_index service) (write ∷ []))
        (bind_sources (new_index service) (handler ∷ []))
evaluate_pass_through-bypassed_example = evaluate_pass_through-bypassed service around_worker

reachable_iff_example :
    (contains store (reachable (new_index service) (handler ∷ [])) ≡ true)
    ↔ ((s : Str) × (contains s (handler ∷ []) ≡ true) × CallPath service s store)
reachable_iff_example = reachable_iff service (handler ∷ []) store

reaching_iff_example :
    (contains handler (reaching (new_index service) (store ∷ [])) ≡ true)
    ↔ ((t : Str) × (contains t (store ∷ []) ≡ true) × CallPath service handler t)
reaching_iff_example = reaching_iff service (store ∷ []) handler

sources_iff_example :
    (contains worker (sources (new_index service)) ≡ true) ↔ IsSource service worker
sources_iff_example = sources_iff service worker

entrypoint_cover_iff_example :
    (contains handler (entrypoint_cover (new_index service) store) ≡ true)
    ↔ (IsSource service handler × ((handler ≡ store) ⊎ CallPath service handler store))
entrypoint_cover_iff_example = entrypoint_cover_iff service store handler

cone_iff_example : (contains store (cone service handler) ≡ true) ↔ InCone service handler store
cone_iff_example = cone_iff service handler store

store-InCone : InCone service handler store
unfolding list_eq is_boundary has_prefix contains
store-InCone = inr (call handler_calls)
  where
    handler_calls : calls service handler store ≡ true
    handler_calls = refl

reconstruct_path-CallChain_example :
    CallChain service store handler
      (reconstruct_path (search_tree (new_index service) handler) handler store)
reconstruct_path-CallChain_example = reconstruct_path-CallChain service handler store store-InCone

blind_for_cone_iff_example :
    (blind_for_cone (new_index service) handler (store ∷ []) (effects_by_owner (new_index service))
      ≡ none)
    ↔ ((fn : Str) → In fn (store ∷ []) → IsVisible service fn)
blind_for_cone_iff_example = blind_for_cone_iff service handler (store ∷ [])
