-- ===== src/Tests/Guards.antt =====
-- The pass-through and the concurrency theorems on the sample service.
use verdi_go.Prelude.{◌≡◌, ◌↔◌, some, [], ◌∷◌, bool_Eq, nat_Eq, list_Eq, Str_Eq, pair_Eq}
use verdi_go.Tests.Samples.{handler, store, write, service}
use verdi_go.Graph.Index.{new_index}
use verdi_go.Facts.Types.{PassThroughInput, pass_through_guarded}
use verdi_go.Facts.Match.{bind_sources, bind_targets, bind_functions}
use verdi_go.Facts.PassThrough.{evaluate_pass_through}
use verdi_go.Facts.PassThroughGuard.{IsProof, evaluate_pass_through-guarded}
use verdi_go.Facts.PassThroughAnswers.{SomeBypass}
use verdi_go.Facts.Concurrent.{concurrent_hit, build_concurrent_surface, evaluate_concurrent}
use verdi_go.Facts.ConcurrentLaws.{SurfaceHit}
use verdi_go.Facts.ConcurrentAnswers.{evaluate_concurrent-hit}

-- The store is the only way to the table.
abbrev through_store : PassThroughInput
through_store = record { from = handler ∷ []; to = write ∷ []; through = store ∷ []; allow = [] }

evaluate_pass_through-guarded_example :
    ((evaluate_pass_through (some (new_index service)) through_store).state ≡ pass_through_guarded)
    ↔ ((¬ SomeBypass service []
          (bind_functions (new_index service) (store ∷ []))
          (bind_targets (new_index service) (write ∷ []))
          (bind_sources (new_index service) (handler ∷ [])))
        × IsProof service through_store)
evaluate_pass_through-guarded_example = evaluate_pass_through-guarded service through_store

evaluate_concurrent-hit_example :
    ((evaluate_concurrent (build_concurrent_surface (some (new_index service))) (write ∷ [])).state
      ≡ concurrent_hit)
    ↔ SurfaceHit service (bind_targets (new_index service) (write ∷ []))
evaluate_concurrent-hit_example = evaluate_concurrent-hit service (write ∷ [])
