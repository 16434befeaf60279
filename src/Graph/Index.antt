-- ===== src/Graph/Index.antt =====
-- The index of internal/groundwork/graph/index.go: NewIndex, the walks over the call edges, the sources
-- and the entry points that cover a function. A set of strings is the list of the keys written to it.
use verdi_go.Prelude.{
  ℕ, zero, suc, Bool, true, false, ◌||◌, Option, List, [], ◌∷◌, ◌++◌, if◌then◌else◌, length, keep,
  ◌==◌, nat_Eq, bool_Eq, contains, list_Eq, Str, Str_Eq, sort_strings, sorted_keys, pair_Eq, lookup,
  put, keys, at_key, append_at,
}
use verdi_go.Graph.Types.{Graph, Node, Edge, BlindSpot, Annotation, is_boundary}

pub record Index : Type 0 where
  pub g : Graph
  pub nodes : List (Str × Node)
  pub callees : List (Str × List Str)
  pub callers : List (Str × List Str)
  pub eff_of : List (Str × List Edge)
  pub blind : List (Str × List BlindSpot)
  pub annot : List ((Str × Str) × List Annotation)
  pub sources : List Str

-- The maps that the loop over the edges fills.
pub record Adjacency : Type 0 where
  pub effects : List (Str × List Edge)
  pub callee_set : List (Str × List Str)
  pub caller_set : List (Str × List Str)

unfoldable pub add_adj : List (Str × List Str) → Str → Str → List (Str × List Str)
unfolding append_at
add_adj m k v = append_at k v m

unfoldable pub freeze_adj : List (Str × List Str) → List (Str × List Str)
unfolding sorted_keys
freeze_adj [] = []
freeze_adj ((k, vs) ∷ m) = (k, sorted_keys vs) ∷ freeze_adj m

unfoldable pub node_map : List Node → List (Str × Node) → List (Str × Node)
unfolding put
node_map [] m = m
node_map (n ∷ ns) m = node_map ns (put n.fqn n m)

-- `_, ok := ix.nodes[fqn]`
unfoldable pub is_key : Str → List (Str × Node) → Bool
is_key fqn m = contains fqn (keys m)

unfoldable pub add_edge : List (Str × Node) → Adjacency → Edge → Adjacency
unfolding add_adj is_boundary is_key
add_edge nodes a e =
    if is_boundary e
    then record a { effects = append_at e.from e a.effects }
    else if is_key e.to nodes
    then record a {
      callee_set = add_adj a.callee_set e.from e.to;
      caller_set = add_adj a.caller_set e.to e.from;
    }
    else a

unfoldable pub add_edges : List (Str × Node) → Adjacency → List Edge → Adjacency
unfolding add_edge
add_edges nodes a [] = a
add_edges nodes a (e ∷ es) = add_edges nodes (add_edge nodes a e) es

abbrev pub no_edges : Adjacency
no_edges = record { effects = []; callee_set = []; caller_set = [] }

unfoldable pub blind_map :
    List BlindSpot → List (Str × List BlindSpot) → List (Str × List BlindSpot)
unfolding append_at
blind_map [] m = m
blind_map (b ∷ bs) m = blind_map bs (append_at b.site b m)

unfoldable pub annot_map :
    List Annotation → List ((Str × Str) × List Annotation) → List ((Str × Str) × List Annotation)
unfolding append_at
annot_map [] m = m
annot_map (a ∷ as') m = annot_map as' (append_at (a.site, a.kind) a m)

abbrev pub is_empty : List Str → Bool
is_empty [] = true
is_empty (x ∷ xs) = false

-- The caller-less nodes, sorted.
unfoldable pub source_nodes : List (Str × Node) → List (Str × List Str) → List Str
unfolding sort_strings at_key
source_nodes nodes callers = sort_strings (keep (λ fqn. is_empty (at_key fqn callers)) (keys nodes))

unfoldable pub new_index : Graph → Index
unfolding node_map add_edges freeze_adj blind_map annot_map source_nodes
new_index g =
    let nodes = node_map g.nodes [] in
    let adj = add_edges nodes no_edges g.edges in
    let callers = freeze_adj adj.caller_set in
    record {
      g = g;
      nodes = nodes;
      callees = freeze_adj adj.callee_set;
      callers = callers;
      eff_of = adj.effects;
      blind = blind_map g.blind_spots [];
      annot = annot_map g.annotations [];
      sources = source_nodes nodes callers;
    }

unfoldable pub with_blind_spots : Index → List BlindSpot → Index
unfolding new_index
with_blind_spots ix bs =
    let g : Graph = ix.g in new_index (record g { blind_spots = g.blind_spots ++ bs })

unfoldable pub has : Index → Str → Bool
unfolding is_key
has ix fqn = is_key fqn ix.nodes

unfoldable pub node : Index → Str → Option Node
unfolding lookup
node ix fqn = lookup fqn ix.nodes

unfoldable pub nodes : Index → List Str
unfolding sorted_keys
nodes ix = sorted_keys (keys ix.nodes)

unfoldable pub callees : Index → Str → List Str
unfolding at_key
callees ix fqn = at_key fqn ix.callees

unfoldable pub callers : Index → Str → List Str
unfolding at_key
callers ix fqn = at_key fqn ix.callers

-- The closure `enqueue` of `walk`, over the neighbours of one function.
unfoldable pub enqueue : List Str → List Str → List Str → List Str × List Str
unfolding contains
enqueue [] seen queue = (seen, queue)
enqueue (t ∷ ts) seen queue =
    let old = enqueue ts seen queue in
    let new = enqueue ts (t ∷ seen) (queue ++ t ∷ []) in if contains t seen then old else new

module _ (next : Str → List Str) where
  unfoldable pub enqueue_seeds : List Str → List Str → List Str → List Str × List Str
  unfolding enqueue
  enqueue_seeds [] seen queue = (seen, queue)
  enqueue_seeds (s ∷ seeds) seen queue =
      let (seen', queue') = enqueue (next s) seen queue in enqueue_seeds seeds seen' queue'

  unfoldable pub walk_loop : ℕ → List Str → List Str → List Str
  unfolding enqueue
  walk_loop zero seen queue = seen
  walk_loop (suc fuel) seen [] = seen
  walk_loop (suc fuel) seen (cur ∷ queue) =
      let (seen', queue') = enqueue (next cur) seen queue in walk_loop fuel seen' queue'

  -- Each edge enqueues at most one function, so that the edges' number is fuel enough.
  unfoldable pub walk : Index → List Str → List Str
  unfolding enqueue_seeds walk_loop sorted_keys
  walk ix seeds =
      let (seen, queue) = enqueue_seeds seeds [] [] in
      sorted_keys (walk_loop (suc (length ix.g.edges)) seen queue)

unfoldable pub reachable : Index → List Str → List Str
unfolding walk callees
reachable ix seeds = walk (callees ix) ix seeds

unfoldable pub reaching : Index → List Str → List Str
unfolding walk callers
reaching ix seeds = walk (callers ix) ix seeds

unfoldable pub sources : Index → List Str
sources ix = [] ++ ix.sources

unfoldable pub entrypoint_cover_from : Index → Str → List Str → List Str
unfolding sort_strings contains
entrypoint_cover_from ix fqn reaching_set =
    sort_strings (keep (λ s. s == fqn || contains s reaching_set) ix.sources)

unfoldable pub entrypoint_cover : Index → Str → List Str
unfolding entrypoint_cover_from reaching
entrypoint_cover ix fqn = entrypoint_cover_from ix fqn (reaching ix (fqn ∷ []))
