-- ===== src/Tests/Branches.antt =====
-- The theorems on a branch against its base, on the sample service.
use verdi_go.Prelude.{
  ◌≡◌, ◌↔◌, true, false, some, [], ◌∷◌, any, bool_Eq, nat_Eq, list_eq, contains, list_Eq, Str_Eq,
  pair_Eq,
}
use verdi_go.Tests.Samples.{handler, service}
use verdi_go.Tests.Policies.{two_layers, insert_label}
use verdi_go.Graph.Types.{Graph}
use verdi_go.Graph.Index.{new_index}
use verdi_go.Fitness.Budget.{RouteIo}
use verdi_go.Review.RouteIo.{new_write_targets, route_io_deltas}
use verdi_go.Review.WriteTargets.{IsNewTarget, new_write_targets_iff}
use verdi_go.Review.LostWrites.{loses, lost, route_io_deltas-lost}

abbrev idle : Graph
idle = record service { edges = [] }

new_write_targets_iff_example :
    (contains insert_label (new_write_targets two_layers idle service) ≡ true)
    ↔ IsNewTarget two_layers idle service insert_label
new_write_targets_iff_example = new_write_targets_iff two_layers idle service insert_label

abbrev writing : RouteIo
writing = record {
  writes = insert_label ∷ [];
  blind = false;
  unclassified = [];
  unclassified_effects = [];
}

abbrev silent : RouteIo
silent = record writing { writes = [] }

route_io_deltas-lost_example :
    any (loses handler insert_label) (
      route_io_deltas two_layers
        (new_index service)
        (new_index idle)
        (some ((handler, writing) ∷ []))
        (some ((handler, silent) ∷ [])))
    ≡ true
unfolding lost list_eq
route_io_deltas-lost_example =
    route_io_deltas-lost two_layers (new_index service) (new_index idle) ((handler, writing) ∷ [])
      ((handler, silent) ∷ []) handler insert_label
