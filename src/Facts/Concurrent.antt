-- ===== src/Facts/Concurrent.antt =====
-- The concurrent surface and its evaluation (internal/groundwork/facts/concurrent.go).
use verdi_go.Prelude.{
  ◌≡◌, ◌↔◌, Bool, true, ◌&&◌, not, Option, none, some, List, [], ◌∷◌, ◌++◌, map, arith,
  if◌then◌else◌, keep, first_where, Eq, bool_Eq, ◌==◌, eq_iff, nat_Eq, contains, compact, list_Eq,
  Str, codes, Str_Eq, str_lt, sort_by, sorted_keys, pair_Eq,
}
use verdi_go.Graph.Types.{Edge, BlindSpot, is_boundary, is_dynamic}
use verdi_go.Graph.Index.{Index}
use verdi_go.Graph.Index as GraphIndex
use verdi_go.Graph.Surface
use verdi_go.Facts.Types.{BlindWitness, blind_at_concurrent_boundary, blind_at_concurrent_dispatch}
use verdi_go.Facts.Match.{bind_targets, canonical_boundary_edges, dead_selectors, canonical_strings}
use verdi_go.Facts.Frontier.{blind_frontier, dynamic_effect_kind, or_else}

pub data ConcurrentState : Type 0 where
  concurrent_unbound concurrent_hit concurrent_clean concurrent_blind : ConcurrentState

pub record ConcurrentWitness : Type 0 where
  pub from : Str
  pub to : Str

unfoldable pub concurrent_witness_eq : ConcurrentWitness → ConcurrentWitness → Bool
concurrent_witness_eq a b = (a.from == b.from) && (a.to == b.to)

pub concurrent_witness_eq_iff :
    (a b : ConcurrentWitness) → (concurrent_witness_eq a b ≡ true) ↔ (a ≡ b)
unfolding concurrent_witness_eq
concurrent_witness_eq_iff a b = ground (arith, eq_iff a.from b.from, eq_iff a.to b.to)

instance abbrev pub ConcurrentWitness_Eq : Eq ConcurrentWitness
ConcurrentWitness_Eq = record { beq = concurrent_witness_eq; beq_iff = concurrent_witness_eq_iff }

pub record ConcurrentResult : Type 0 where
  pub state : ConcurrentState
  pub to : List Str
  pub hits : List ConcurrentWitness
  pub blind : Option BlindWitness
  pub unbound_to : List Str

pub record ConcurrentSurface : Type 0 where
  pub ix : Option Index
  pub direct : List Edge
  pub cone : List Str
  pub effects : List Edge
  pub blind : Option BlindWitness

abbrev pub concurrent_dispatch : Str
concurrent_dispatch = codes "ConcurrentDispatch"

-- The internal targets of concurrent edges that the node table has.
unfoldable pub concurrent_seeds : Index → List Str
unfolding sorted_keys is_boundary GraphIndex.has
concurrent_seeds ix = sorted_keys (
    map (λ (e : Edge). e.to)
      (keep (λ (e : Edge). e.concurrent && (not (is_boundary e) && GraphIndex.has ix e.to))
        (Surface.edges ix)))

unfoldable pub concurrent_cone : Index → List Str
unfolding sorted_keys concurrent_seeds GraphIndex.reachable
concurrent_cone ix =
    sorted_keys (concurrent_seeds ix ++ GraphIndex.reachable ix (concurrent_seeds ix))

unfoldable pub concurrent_direct : Index → List Edge
unfolding canonical_boundary_edges
concurrent_direct ix = keep (λ (e : Edge). e.concurrent) (canonical_boundary_edges ix)

unfoldable pub concurrent_cone_effects : Index → List Str → List Edge
unfolding canonical_boundary_edges contains
concurrent_cone_effects ix cone =
    keep (λ (e : Edge). contains e.from cone) (canonical_boundary_edges ix)

abbrev pub first_or_empty : List Str → Str
first_or_empty [] = []
first_or_empty (x ∷ xs) = x

abbrev pub boundary_witness : Option Edge → Option BlindWitness
boundary_witness none = none
boundary_witness (some e) = some (record {
  from = [];
  site = e.from;
  kind = dynamic_effect_kind;
  detail = e.to;
  location = blind_at_concurrent_boundary;
})

abbrev pub dispatch_witness : Option BlindSpot → Option BlindWitness
dispatch_witness none = none
dispatch_witness (some b) = some (record {
  from = [];
  site = b.site;
  kind = b.kind;
  detail = b.detail;
  location = blind_at_concurrent_dispatch;
})

-- The frontier of the cone, then a dynamic direct edge, then an unresolved dispatch.
unfoldable pub concurrent_blind_witness :
    Index → List Str → List Edge → List Edge → Option BlindWitness
unfolding blind_frontier is_dynamic Surface.sort_blind_spots
concurrent_blind_witness ix cone effects direct =
    or_else (blind_frontier ix (first_or_empty cone) cone effects) (
      or_else (boundary_witness (first_where is_dynamic direct)) (
        dispatch_witness (
          first_where (λ (b : BlindSpot). b.kind == concurrent_dispatch)
            (Surface.sort_blind_spots (Surface.blind_spots ix)))))

-- `none` is the nil index.
unfoldable pub build_concurrent_surface : Option Index → ConcurrentSurface
unfolding concurrent_cone concurrent_direct concurrent_cone_effects concurrent_blind_witness
build_concurrent_surface none = record {
  ix = none;
  direct = [];
  cone = [];
  effects = [];
  blind = none;
}
build_concurrent_surface (some ix) =
    let cone = concurrent_cone ix in
    let direct = concurrent_direct ix in
    let effects = concurrent_cone_effects ix cone in
    record {
      ix = some ix;
      direct = direct;
      cone = cone;
      effects = effects;
      blind = concurrent_blind_witness ix cone effects direct;
    }

-- The order (From, To).
unfoldable pub concurrent_witness_less : ConcurrentWitness → ConcurrentWitness → Bool
unfolding str_lt
concurrent_witness_less a b =
    if not (a.from == b.from) then str_lt a.from b.from else str_lt a.to b.to

unfoldable pub canonical_concurrent_witnesses : List ConcurrentWitness → List ConcurrentWitness
unfolding sort_by concurrent_witness_less compact
canonical_concurrent_witnesses values = compact (sort_by concurrent_witness_less values)

abbrev pub edge_witness : Edge → ConcurrentWitness
edge_witness e = record { from = e.from; to = e.to }

abbrev pub function_hit : Str → ConcurrentWitness
function_hit fn = record { from = []; to = fn }

-- Direct edges, functions of the cone and effects of the cone, in this order.
unfoldable pub surface_hits : ConcurrentSurface → List Str → List ConcurrentWitness
unfolding contains
surface_hits s targets =
    map edge_witness (keep (λ (e : Edge). contains e.to targets) s.direct)
    ++ (map function_hit (keep (λ fn. contains fn targets) s.cone)
        ++ map edge_witness (keep (λ (e : Edge). contains e.to targets) s.effects))

abbrev pub conclude_hits : ConcurrentResult → Option BlindWitness → ConcurrentResult
conclude_hits r blind = elim r.hits [
  | _ ∷ _ ↦ record r { state = concurrent_hit }
  | [] ↦ elim blind [
    | some b ↦ record r { state = concurrent_blind; blind = some b }
    | none ↦ record r { state = concurrent_clean }
  ]
]

-- The answer for the targets that are bound.
unfoldable pub evaluate_targets : ConcurrentSurface → List Str → List Str → ConcurrentResult
unfolding surface_hits canonical_concurrent_witnesses
evaluate_targets s [] dead = record {
  state = concurrent_unbound;
  to = [];
  hits = [];
  blind = none;
  unbound_to = dead;
}
evaluate_targets s (t ∷ ts) dead =
    conclude_hits
      (record {
        state = concurrent_clean;
        to = t ∷ ts;
        hits = canonical_concurrent_witnesses (surface_hits s (t ∷ ts));
        blind = none;
        unbound_to = dead;
      })
      s.blind

unfoldable pub evaluate_concurrent : ConcurrentSurface → List Str → ConcurrentResult
unfolding bind_targets dead_selectors canonical_strings evaluate_targets
evaluate_concurrent s to = elim s.ix [
  | none ↦ record {
    state = concurrent_unbound;
    to = [];
    hits = [];
    blind = none;
    unbound_to = canonical_strings to;
  }
  | some ix ↦ evaluate_targets s (bind_targets ix to) (dead_selectors ix to bind_targets)
]
