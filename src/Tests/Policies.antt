-- ===== src/Tests/Policies.antt =====
-- The theorems on policies and on the fitness checks, on the sample service.
use verdi_go.Prelude.{
  ℕ, ◌≡◌, refl, ◌↔◌, ◌⊎◌, true, false, not, none, some, List, [], ◌∷◌, is_nil, keep, All, In,
  bool_Eq, ◌==◌, nat_Eq, list_eq, contains, list_Eq, Str, codes, Str_Eq, has_substring, pair_Eq,
  Format, pos,
}
use verdi_go.Tests.Samples.{handler, store, worker, write, write_edge, service}
use verdi_go.Graph.Index.{new_index}
use verdi_go.Graph.Surface
use verdi_go.Facts.Match.{entrypoint_selector, bind_sources, bind_targets}
use verdi_go.Policy.Types.{Policy, Broker, Layer, Layering, PassRule}
use verdi_go.Policy.Validate.{validate}
use verdi_go.Policy.WellFormed.{IsWellFormed}
use verdi_go.Policy.Validity.{validate-IsWellFormed}
use verdi_go.Policy.Layers.{layer_of}
use verdi_go.Policy.LayerLaws.{Owner, Claims, layer_of_lem, layer_of-unassigned}
use verdi_go.Policy.Brokers.{merge_brokers}
use verdi_go.Policy.BrokerLaws.{Conflict, declarations, merge_brokers-Conflict}
use verdi_go.Fitness.Findings.{ok}
use verdi_go.Fitness.Check.{check}
use verdi_go.Fitness.Upheld.{Upholds, check-Upholds}
use verdi_go.Fitness.Layering.{has_layer, effective_layered_callees, check_layering}
use verdi_go.Fitness.Descent.{Leads, lands}
use verdi_go.Fitness.DescentBound.{effective_layered_callees_iff}
use verdi_go.Fitness.Breaks.{breaks}
use verdi_go.Fitness.LayeringLaws.{LayeringHolds, check_layering-LayeringHolds}
use verdi_go.Fitness.Budget.{route_io, check_io_budget}
use verdi_go.Fitness.WriteBudget.{BudgetHolds, check_io_budget-BudgetHolds}
use verdi_go.Fitness.Effects.{
  label, writes_by, unclassified_op, write_label, unclassified_db_label, unclassified_effect_label,
}
use verdi_go.Fitness.WriteSurface.{Surfaces, route_io-Surfaces}
use verdi_go.Fitness.Exceptions.{strip_allows}
use verdi_go.Fitness.PassThrough.{check_must_pass_through}
use verdi_go.Fitness.PassThroughLaws.{PassHolds}
use verdi_go.Fitness.ExceptionLaws.{unmatched, check_layering-strip_allows}
use verdi_go.Fitness.EffectLaws.{write_label-exclusive}
use verdi_go.Fitness.Liveness.{node_live, target_live}
use verdi_go.Fitness.LivenessLaws.{live-binds}

abbrev plain : Format
plain = record { decimal = λ z. codes "n"; quoted = λ s. s }

abbrev top : Layer
top = record { name = codes "top"; packages = handler ∷ [] }

abbrev bottom : Layer
bottom = record { name = codes "bottom"; packages = store ∷ [] }

abbrev pub two_layers : Policy
two_layers = record {
  service = codes "svc";
  version = pos 1;
  substrate = [];
  layers = top ∷ bottom ∷ [];
  layering = some (record { allow = []; roots = [] });
  must_not_reach =
      record { name = codes "r"; from = worker ∷ []; to = write ∷ []; require_proof = true } ∷ [];
  must_pass_through =
      record {
        name = codes "p";
        from = handler ∷ [];
        to = write ∷ [];
        through = store ∷ [];
        require_proof = true;
        allow = [];
      }
      ∷ [];
  no_concurrent_reach = record { name = codes "c"; to = write ∷ []; require_proof = true } ∷ [];
  io_budget = some (record { max_writes_per_route = pos 1 });
  blind_spot_ratchet = none;
  effect_ratchet = none;
  impeachment_gate = none;
  brokers = [];
}

check-Upholds_example :
    (ok (check plain two_layers (new_index service)).findings ≡ true) ↔ Upholds two_layers service
check-Upholds_example = check-Upholds two_layers service plain

-- The sample passes the gate, so that both sides hold.
gate_passes : ok (check plain two_layers (new_index service)).findings ≡ true
unfolding check ok new_index list_eq has_layer Surface.edges Surface.blind_spots_at
    Surface.blind_spots label writes_by unclassified_op has_substring
gate_passes = refl

check_layering-LayeringHolds_example :
    (breaks (check_layering plain two_layers (new_index service)) ≡ false)
    ↔ LayeringHolds two_layers.layers (new_index service) two_layers.layering
check_layering-LayeringHolds_example =
    check_layering-LayeringHolds plain two_layers (new_index service)

effective_layered_callees_iff_example :
    (contains store (effective_layered_callees two_layers.layers [] (new_index service) handler)
      ≡ true)
    ↔ (Leads two_layers.layers [] (new_index service) handler store
        × (lands two_layers.layers [] (new_index service) store ≡ true))
effective_layered_callees_iff_example =
    effective_layered_callees_iff two_layers.layers [] (new_index service) handler store

check_io_budget-BudgetHolds_example :
    (breaks (check_io_budget plain two_layers (new_index service)).0 ≡ false)
    ↔ BudgetHolds two_layers service two_layers.io_budget
check_io_budget-BudgetHolds_example = check_io_budget-BudgetHolds plain two_layers service

abbrev pub insert_label : Str
insert_label = codes "db INSERT t"

route_io-Surfaces_example :
    ((contains insert_label (route_io (new_index service) handler).writes ≡ true)
      ↔ Surfaces service write_label handler insert_label)
    × ((contains insert_label (route_io (new_index service) handler).unclassified ≡ true)
        ↔ Surfaces service unclassified_db_label handler insert_label)
    × ((contains insert_label (route_io (new_index service) handler).unclassified_effects ≡ true)
        ↔ Surfaces service unclassified_effect_label handler insert_label)
route_io-Surfaces_example = route_io-Surfaces service handler insert_label

validate-IsWellFormed_example : (validate two_layers ≡ none) ↔ IsWellFormed two_layers
validate-IsWellFormed_example = validate-IsWellFormed two_layers

layer_of_lem_example :
    Owner two_layers.layers store (layer_of two_layers.layers store)
    ⊎ ((layer_of two_layers.layers store ≡ [])
        × ((l : Layer) (n : ℕ) → In l two_layers.layers → ¬ Claims store l n))
layer_of_lem_example = layer_of_lem two_layers.layers store

accepted : validate two_layers ≡ none
unfolding validate list_eq
accepted = refl

layer_of-unassigned_example :
    (layer_of two_layers.layers worker ≡ [])
    ↔ ((l : Layer) (n : ℕ) → In l two_layers.layers → ¬ Claims worker l n)
layer_of-unassigned_example = layer_of-unassigned two_layers worker accepted

abbrev once : Broker
once = record {
  transport = [];
  delivery = codes "exactly-once";
  ordered = [];
  consumers = [];
  dedup = [];
  signed_by = [];
}

abbrev often : Broker
often = record once { delivery = codes "at-least-once" }

abbrev two_services : List (List (Str × Broker))
two_services = ((codes "bus", once) ∷ []) ∷ ((codes "bus", often) ∷ []) ∷ []

merge_brokers-Conflict_example :
    (contains (codes "bus") (merge_brokers two_services).1 ≡ true)
    ↔ Conflict (declarations two_services) (codes "bus")
merge_brokers-Conflict_example = merge_brokers-Conflict two_services (codes "bus")

no_selector_given : (write == entrypoint_selector) ≡ false
unfolding list_eq
no_selector_given = refl

live-binds_example :
    (node_live (new_index service) write
      ≡ not (is_nil (bind_sources (new_index service) (write ∷ []))))
    × (target_live (new_index service) write
        ≡ not (is_nil (bind_targets (new_index service) (write ∷ []))))
live-binds_example = live-binds (new_index service) write no_selector_given

reads_as_write : write_label write_edge ≡ some insert_label
unfolding write_label list_eq label writes_by
reads_as_write = refl

write_label-exclusive_example :
    (unclassified_db_label write_edge ≡ none) × (unclassified_effect_label write_edge ≡ none)
write_label-exclusive_example = write_label-exclusive write_edge insert_label reads_as_write

-- The store above the handler, with the call between them allowed.
abbrev excused : Layering
excused = record { allow = record { from = handler; to = store; reason = [] } ∷ []; roots = [] }

abbrev upside_down : Policy
upside_down = record two_layers { layers = bottom ∷ top ∷ []; layering = some excused }

check_layering-strip_allows_example :
    (check_layering plain upside_down (new_index service)
      ≡ keep
          (unmatched excused)
          (check_layering plain (strip_allows upside_down) (new_index service)))
    × ((breaks (check_layering plain (strip_allows upside_down) (new_index service)) ≡ false)
        ↔ LayeringHolds upside_down.layers
            (new_index service)
            (some (record excused { allow = [] })))
    × ((breaks (check_must_pass_through (strip_allows upside_down) (new_index service)) ≡ false)
        ↔ All
            (λ (r : PassRule). PassHolds service (record r { allow = [] }))
            upside_down.must_pass_through)
check_layering-strip_allows_example =
    check_layering-strip_allows plain upside_down excused service refl
