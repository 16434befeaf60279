-- ===== src/Review/RouteIo.antt =====
-- internal/groundwork/review/routeio.go and edgeSet, diffStringSets of delta.go: the write surface of each route
-- and of the whole graph, base against branch. A set is a list asked by membership; where its elements are
-- listed, sorted_keys lists each once.
use verdi_go.Prelude.{
  ℕ, ◌&&◌, not, Option, none, some, List, [], ◌∷◌, ◌++◌, ltb, if◌then◌else◌, length, is_nil, keep,
  flat_map, bool_Eq, nat_Eq, contains, list_Eq, Str, Str_Eq, str_lt, sort_by, sorted_keys, pair_Eq,
  lookup,
}
use verdi_go.Graph.Types.{Graph, Edge}
use verdi_go.Graph.Index.{Index}
use verdi_go.Policy.Types.{Policy, effect_allows}
use verdi_go.Fitness.Effects.{labels, write_label}
use verdi_go.Fitness.Budget.{RouteIo, route_writes}

pub data Frontier : Type 0 where
  frontier_resolved frontier_blind : Frontier

pub record RouteIoSide : Type 0 where
  pub writes : ℕ
  pub frontier : Frontier

pub record RouteIoDelta : Type 0 where
  pub route : Str
  pub base : Option RouteIoSide
  pub branch : Option RouteIoSide
  pub added : List Str
  pub removed : List Str

unfoldable pub route_side : RouteIo → RouteIoSide
route_side r = record {
  writes = length r.writes;
  frontier = if r.blind then frontier_blind else frontier_resolved;
}

-- What only the first set has, and what only the second.
unfoldable pub diff_string_sets : List Str → List Str → List Str × List Str
unfolding contains
diff_string_sets a b = (keep (λ k. not (contains k b)) a, keep (λ k. not (contains k a)) b)

abbrev pub changed_row : Str → RouteIo → RouteIo → List Str × List Str → List RouteIoDelta
changed_row route b br (removed, added) =
    if is_nil added && is_nil removed
    then []
    else record {
      route = route;
      base = some (route_side b);
      branch = some (route_side br);
      added = sorted_keys added;
      removed = sorted_keys removed;
    }
      ∷ []

-- The body of the loop over the base's routes, with what the branch has there.
unfoldable pub base_row : Str → RouteIo → Option RouteIo → List RouteIoDelta
unfolding diff_string_sets
base_row route b none =
    if ltb 0 (length b.writes)
    then record {
      route = route;
      base = some (route_side b);
      branch = none;
      added = [];
      removed = b.writes;
    }
      ∷ []
    else []
base_row route b (some br) = changed_row route b br (diff_string_sets b.writes br.writes)

-- The body of the loop over the branch's routes, with what the base has there.
unfoldable pub branch_row : Str → RouteIo → Option RouteIo → List RouteIoDelta
branch_row route br none =
    if ltb 0 (length br.writes)
    then record {
      route = route;
      base = none;
      branch = some (route_side br);
      added = br.writes;
      removed = [];
    }
      ∷ []
    else []
branch_row route br (some b) = []

abbrev pub computed : Policy → Index → Option (List (Str × RouteIo)) → List (Str × RouteIo)
computed p ix none = route_writes p ix
computed p ix (some rw) = rw

unfoldable pub delta_rows : List (Str × RouteIo) → List (Str × RouteIo) → List RouteIoDelta
unfolding base_row branch_row lookup
delta_rows base_rw branch_rw =
    flat_map (λ (m : Str × RouteIo). base_row m.0 m.1 (lookup m.0 branch_rw)) base_rw
    ++ flat_map (λ (m : Str × RouteIo). branch_row m.0 m.1 (lookup m.0 base_rw)) branch_rw

unfoldable pub route_io_deltas :
    Policy
    → Index
    → Index
    → Option (List (Str × RouteIo))
    → Option (List (Str × RouteIo))
    → List RouteIoDelta
unfolding delta_rows sort_by
route_io_deltas p base_ix branch_ix base_rw branch_rw =
    sort_by (λ (i j : RouteIoDelta). str_lt i.route j.route)
      (delta_rows (computed p base_ix base_rw) (computed p branch_ix branch_rw))

abbrev pub edge_set : (Edge → Option Str) → List Edge → List Str
edge_set extract edges = labels extract edges

unfoldable pub new_write_targets : Policy → Graph → Graph → List Str
unfolding contains sorted_keys write_label effect_allows labels
new_write_targets p base branch =
    let base_l = edge_set write_label base.edges in
    sorted_keys (
      keep (λ l. not (contains l base_l) && not (effect_allows p.effect_ratchet l))
        (edge_set write_label branch.edges))
