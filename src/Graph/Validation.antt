-- ===== src/Graph/Validation.antt =====
-- What a graph that passed the decoder's checks satisfies.
use verdi_go.Prelude.{
  ℕ, suc, ◌≡◌, refl, ◌↔◌, Bool, true, false, not, none, List, [], ◌∷◌, map, arith, All, ◌==◌,
  nat_Eq, bool_Eq, contains, list_Eq, Str, Str_Eq, pair_Eq,
}
use verdi_go.Graph.Types.{Graph, Node, Edge, is_boundary, check_edges, validate}

-- Both ways to ask for an edge's kind agree, and every edge starts at a declared node.
pub record IsConsistent (node_set : List Str) (e : Edge) : Type 0 where
  pub marked : is_boundary e ≡ not (e.boundary == [])
  pub declared : contains e.from node_set ≡ true

check_edges-none :
    (node_set : List Str) (i : ℕ) (es : List Edge)
    → check_edges node_set i es ≡ none
    → All (IsConsistent node_set) es
unfolding check_edges
check_edges-none node_set i [] h = tt
check_edges-none node_set i (e ∷ es) h = (
  record { marked = ground arith; declared = ground arith },
  check_edges-none node_set (suc i) es (ground arith),
)

check_edges_complete :
    (node_set : List Str) (i : ℕ) (es : List Edge)
    → All (IsConsistent node_set) es
    → check_edges node_set i es ≡ none
unfolding check_edges
check_edges_complete node_set i [] h = refl
check_edges_complete node_set i (e ∷ es) (c, cs) =
    ground (arith, c.marked, c.declared, check_edges_complete node_set (suc i) es cs)

-- A decoded graph is accepted exactly when it has a node list and each of its edges is marked
-- consistently (the target's prefix against the boundary field) and starts at a declared node.
pub validate_iff :
    (present : Bool) (g : Graph)
    → (validate present g ≡ none)
      ↔ ((present ≡ true) × All (IsConsistent (map (λ (n : Node). n.fqn) g.nodes)) g.edges)
unfolding validate
validate_iff true g =
    (λ h. (refl, check_edges-none _ 0 g.edges h), λ p. check_edges_complete _ 0 g.edges p.1)
validate_iff false g = (λ h. cc, λ p. cc p.0)
