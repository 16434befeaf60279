-- ===== src/Facts/PassThrough.antt =====
-- EvaluatePassThrough and what it calls (internal/groundwork/facts/passthrough.go).
use verdi_go.Prelude.{
  ℕ, zero, suc, ◌-◌, Bool, false, ◌&&◌, ◌||◌, not, Option, none, some, List, [], ◌∷◌, ◌++◌, map,
  ltb, leb, nat_eq, if◌then◌else◌, length, any, keep, bool_Eq, ◌==◌, nat_Eq, contains, list_Eq, Str,
  Str_Eq, str_lt, has_prefix, sort_by, pair_Eq, lookup, put,
}
use verdi_go.Vocabulary.Matcher.{match_exception_side}
use verdi_go.Graph.Types.{Edge, is_boundary, boundary_prefix}
use verdi_go.Graph.Index.{Index}
use verdi_go.Graph.Surface
use verdi_go.Facts.Types.{
  PathWitness, BlindWitness, AllowPair, PassThroughInput, pass_through_unbound,
  pass_through_bypassed, pass_through_guarded, pass_through_blind, PassThroughResult,
}
use verdi_go.Facts.Match.{
  bind_sources, bind_functions, bind_targets, dead_selectors, canonical_strings,
  sort_boundary_edges, no_strings,
}
use verdi_go.Facts.Frontier.{blind_frontier, or_else}
use verdi_go.Facts.Traversal.{ParentMap, guarded_walk, reconstruct_path}

unfoldable pub allowed_pair : List AllowPair → Str → Str → Bool
unfolding match_exception_side
allowed_pair allow from to =
    any
      (λ (pair : AllowPair). match_exception_side from pair.from && match_exception_side to pair.to)
      allow

-- The loop of pathLess, on two paths of one length.
unfoldable pub earlier_at_difference : List Str → List Str → Bool
unfolding str_lt
earlier_at_difference (x ∷ xs) (y ∷ ys) =
    let rest = earlier_at_difference xs ys in if not (x == y) then str_lt x y else rest
earlier_at_difference _ _ = false

unfoldable pub path_less : List Str → List Str → Bool
unfolding earlier_at_difference
path_less left right =
    if not (nat_eq (length left) (length right))
    then ltb (length left) (length right)
    else earlier_at_difference left right

-- Where the common part decides nothing, the shorter path comes first.
unfoldable pub path_lex_less : List Str → List Str → Bool
unfolding str_lt
path_lex_less (x ∷ xs) (y ∷ ys) =
    let rest = path_lex_less xs ys in if not (x == y) then str_lt x y else rest
path_lex_less left right = ltb (length left) (length right)

abbrev pub BypassMap : Type 0
BypassMap = List ((Str × Str) × PathWitness)

unfoldable pub record_bypass : BypassMap → PathWitness → BypassMap
unfolding lookup put path_less
record_bypass by_pair witness =
    let set = put (witness.from, witness.to) witness by_pair in
    elim (lookup (witness.from, witness.to) by_pair) [
      | none ↦ set
      | some current ↦ if path_less witness.path current.path then set else by_pair
    ]

unfoldable pub record_all : BypassMap → List PathWitness → BypassMap
unfolding record_bypass
record_all by_pair [] = by_pair
record_all by_pair (w ∷ ws) = record_all (record_bypass by_pair w) ws

-- The order (From, To); the keys of the map differ, so its own order is forgotten.
unfoldable pub bypass_less : PathWitness → PathWitness → Bool
unfolding str_lt
bypass_less left right =
    if not (left.from == right.from) then str_lt left.from right.from else str_lt left.to right.to

unfoldable pub sorted_bypasses : BypassMap → List PathWitness
unfolding sort_by bypass_less
sorted_bypasses by_pair =
    sort_by bypass_less (map (λ (entry : (Str × Str) × PathWitness). entry.1) by_pair)

abbrev pub at_index : List Str → ℕ → Str
at_index [] n = []
at_index (x ∷ xs) zero = x
at_index (x ∷ xs) (suc n) = at_index xs n

unfoldable pub occurrence_owner : PathWitness → Str
unfolding has_prefix
occurrence_owner witness =
    if has_prefix witness.to boundary_prefix && leb 2 (length witness.path)
    then at_index witness.path (length witness.path - 2)
    else witness.to

-- The order (From, To, owner, path).
unfoldable pub occurrence_less : PathWitness → PathWitness → Bool
unfolding str_lt occurrence_owner path_lex_less
occurrence_less left right =
    if not (left.from == right.from)
    then str_lt left.from right.from
    else if not (left.to == right.to)
    then str_lt left.to right.to
    else if not (occurrence_owner left == occurrence_owner right)
    then str_lt (occurrence_owner left) (occurrence_owner right)
    else path_lex_less left.path right.path

unfoldable pub sorted_bypass_occurrences : List PathWitness → List PathWitness
unfolding sort_by occurrence_less
sorted_bypass_occurrences values = sort_by occurrence_less values

unfoldable pub boundary_edge_occurrences : Index → List Edge
unfolding sort_boundary_edges
boundary_edge_occurrences ix = sort_boundary_edges (keep is_boundary (Surface.edges ix))

-- What the loop over the sources keeps.
pub record Bypasses : Type 0 where
  pub by_pair : BypassMap
  pub occurrences : List PathWitness
  pub first_blind : Option BlindWitness

module _ (allow : List AllowPair) (targets : List Str) (source : Str) where
  unfoldable pub is_target : Str → Bool
  unfolding contains allowed_pair
  is_target to = contains to targets && not (allowed_pair allow source to)

  -- The functions of the cone that are targets, in cone order.
  unfoldable pub function_bypasses : List Str → ParentMap → List PathWitness
  unfolding is_target reconstruct_path
  function_bypasses cone parent =
      map (λ fn. record { from = source; to = fn; path = reconstruct_path parent source fn })
        (keep (λ fn. not (fn == source) && is_target fn) cone)

  -- The boundary edges of the cone whose labels are targets.
  unfoldable pub effect_bypasses : List Edge → ParentMap → List PathWitness
  unfolding is_target reconstruct_path
  effect_bypasses cone_effects parent =
      map
        (λ (e : Edge). record {
          from = source;
          to = e.to;
          path = reconstruct_path parent source e.from ++ e.to ∷ [];
        })
        (keep (λ (e : Edge). is_target e.to) cone_effects)

abbrev pub set_from : Str → Option BlindWitness → Option BlindWitness
set_from source none = none
set_from source (some b) = some (record b { from = source })

-- The body of the loop.
unfoldable pub visit_source :
    Index → List AllowPair → List Str → List Str → Str → Bypasses → Bypasses
unfolding contains guarded_walk boundary_edge_occurrences function_bypasses effect_bypasses
    record_all blind_frontier
visit_source ix allow through targets source st =
    let (cone, parent) = guarded_walk ix source through in
    let cone_effects = keep (λ (e : Edge). contains e.from cone) (boundary_edge_occurrences ix) in
    let found =
      function_bypasses allow targets source cone parent
      ++ effect_bypasses allow targets source cone_effects parent in
    if contains source through then st else record {
      by_pair = record_all st.by_pair found;
      occurrences = st.occurrences ++ found;
      first_blind =
          or_else st.first_blind (set_from source (blind_frontier ix [] cone cone_effects));
    }

unfoldable pub visit_sources :
    Index → List AllowPair → List Str → List Str → List Str → Bypasses → Bypasses
unfolding visit_source
visit_sources ix allow through targets [] st = st
visit_sources ix allow through targets (source ∷ sources) st =
    visit_sources ix allow through targets sources (visit_source ix allow through targets source st)

abbrev pub verdict : PassThroughResult → Option BlindWitness → PassThroughResult
verdict r blind = elim r.bypass_occurrences [
  | _ ∷ _ ↦ record r { state = pass_through_bypassed }
  | [] ↦ elim blind [
    | some b ↦ record r { state = pass_through_blind; blind = some b }
    | none ↦ record r { state = pass_through_guarded }
  ]
]

abbrev pub nothing_visited : Bypasses
nothing_visited = record { by_pair = []; occurrences = []; first_blind = none }

-- The answer for families that are bound.
unfoldable pub evaluate_bound : Index → List AllowPair → PassThroughResult → PassThroughResult
unfolding visit_sources sorted_bypasses sorted_bypass_occurrences
evaluate_bound ix allow r =
    let done = visit_sources ix allow r.through r.to r.from nothing_visited in
    verdict
      (record r {
        bypasses = sorted_bypasses done.by_pair;
        bypass_occurrences = sorted_bypass_occurrences done.occurrences;
      })
      done.first_blind

-- The families of the input, nothing else decided.
abbrev pub bound_families : Index → PassThroughInput → PassThroughResult
bound_families ix input = record {
  state = pass_through_unbound;
  from = bind_sources ix input.from;
  to = bind_targets ix input.to;
  through = bind_functions ix input.through;
  bypasses = [];
  bypass_occurrences = [];
  blind = none;
  unbound_from = dead_selectors ix input.from bind_sources;
  unbound_to = dead_selectors ix input.to bind_targets;
  unbound_through = dead_selectors ix input.through bind_functions;
}

-- `none` is the nil index.
unfoldable pub evaluate_pass_through : Option Index → PassThroughInput → PassThroughResult
unfolding canonical_strings bind_sources bind_functions bind_targets dead_selectors evaluate_bound
evaluate_pass_through none input = record {
  state = pass_through_unbound;
  from = [];
  to = [];
  through = [];
  bypasses = [];
  bypass_occurrences = [];
  blind = none;
  unbound_from = canonical_strings input.from;
  unbound_to = canonical_strings input.to;
  unbound_through = canonical_strings input.through;
}
evaluate_pass_through (some ix) input =
    let r = bound_families ix input in
    if no_strings r.from || no_strings r.to then r else evaluate_bound ix input.allow r
