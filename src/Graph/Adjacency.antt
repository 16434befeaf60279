-- ===== src/Graph/Adjacency.antt =====
-- Which functions the index lists as callees, callers and sources (internal/groundwork/graph/index.go).
use verdi_go.Prelude.{
  ◌≡◌, refl, sym, ◌∙◌, Bool, ◌&&◌, ◌||◌, not, List, [], ◌∷◌, map, arith, any, ◌==◌, eq_iff, nat_Eq,
  bool_Eq, contains, list_Eq, contains-append, Str, Str_Eq, IsStrict, sorted_keys,
  sorted_keys-IsStrict, contains-sorted_keys, IsStrict-ext, pair_Eq, put, keys, at_key,
  at_key-append_at, contains-keys-put, at_key-cons,
}
use verdi_go.Graph.Types.{Graph, Node, Edge, is_boundary}
use verdi_go.Graph.Index.{
  Adjacency, add_adj, freeze_adj, node_map, is_key, add_edge, add_edges, no_edges, new_index, has,
  callees, callers,
}

abbrev pub fqns : Graph → List Str
fqns g = map (λ (n : Node). n.fqn) g.nodes

-- The edge is a call from `f` to the function `t` of the node list.
abbrev pub is_call : List Str → Str → Str → Edge → Bool
is_call declared f t e = not (is_boundary e) && contains e.to declared && (e.from == f && e.to == t)

-- The graph has a call from `f` to `t`.
abbrev pub calls : Graph → Str → Str → Bool
calls g f t = any (is_call (fqns g) f t) g.edges

-- Two lists with the same members.
abbrev pub IsSameSet : List Str → List Str → Type 0
IsSameSet xs ys = (a : Str) → contains a xs ≡ contains a ys

contains-node_map :
    (k : Str) (ns : List Node) (m : List (Str × Node))
    → contains k (keys (node_map ns m))
      ≡ (contains k (keys m) || contains k (map (λ (n : Node). n.fqn) ns))
unfolding node_map contains
contains-node_map k [] m = ground arith
contains-node_map k (n ∷ ns) m =
    ground (arith, contains-node_map k ns (put n.fqn n m), contains-keys-put k n.fqn n m)

-- The index has exactly the functions of the node list.
pub has-fqns : (g : Graph) (fqn : Str) → has (new_index g) fqn ≡ contains fqn (fqns g)
unfolding has new_index is_key contains
has-fqns g fqn = contains-node_map fqn g.nodes []

contains-add_adj :
    (m : List (Str × List Str)) (k v f t : Str)
    → contains t (at_key f (add_adj m k v)) ≡ (contains t (at_key f m) || (k == f && t == v))
unfolding add_adj contains
contains-add_adj m k v f t =
    ground (arith, at_key-append_at k f v m, eq_iff k f, contains-append t (at_key k m) (v ∷ []))

at_key-freeze_adj :
    (m : List (Str × List Str)) (k : Str) → at_key k (freeze_adj m) ≡ sorted_keys (at_key k m)
unfolding freeze_adj at_key sorted_keys
at_key-freeze_adj [] k = refl
at_key-freeze_adj ((j, vs) ∷ m) k = ground (
  arith,
  at_key-cons k j (sorted_keys vs) (freeze_adj m),
  at_key-cons k j vs m,
  at_key-freeze_adj m k,
)

add_edges-callees :
    (nodes : List (Str × Node)) (a : Adjacency) (es : List Edge) (f t : Str)
    → contains t (at_key f (add_edges nodes a es).callee_set)
      ≡ (contains t (at_key f a.callee_set) || any (is_call (keys nodes) f t) es)
unfolding add_edges is_key
add_edges-callees nodes a [] f t = ground arith
add_edges-callees nodes a (e ∷ es) f t = ground (
  arith,
  add_edges-callees nodes (add_edge nodes a e) es f t,
  contains-add_adj a.callee_set e.from e.to f t,
  eq_iff t e.to,
  eq_iff e.to t,
)

add_edges-callers :
    (nodes : List (Str × Node)) (a : Adjacency) (es : List Edge) (f t : Str)
    → contains f (at_key t (add_edges nodes a es).caller_set)
      ≡ (contains f (at_key t a.caller_set) || any (is_call (keys nodes) f t) es)
unfolding add_edges is_key
add_edges-callers nodes a [] f t = ground arith
add_edges-callers nodes a (e ∷ es) f t = ground (
  arith,
  add_edges-callers nodes (add_edge nodes a e) es f t,
  contains-add_adj a.caller_set e.to e.from t f,
  eq_iff f e.from,
  eq_iff e.from f,
)

keys-node_map : (ns : List Node) → IsSameSet (keys (node_map ns [])) (map (λ (n : Node). n.fqn) ns)
unfolding contains
keys-node_map ns a = contains-node_map a ns []

any_call-declared :
    (xs ys : List Str) (f t : Str) (es : List Edge)
    → IsSameSet xs ys
    → any (is_call xs f t) es ≡ any (is_call ys f t) es
any_call-declared xs ys f t [] same = refl
any_call-declared xs ys f t (e ∷ es) same =
    ground (arith, same e.to, any_call-declared xs ys f t es)

-- A function is listed as a callee exactly when the graph has a call edge to it: an edge that is no
-- boundary effect and whose target is a declared node.
pub contains-callees : (g : Graph) (f t : Str) → contains t (callees (new_index g) f) ≡ calls g f t
unfolding callees new_index contains
contains-callees g f t = cc (
  at_key-freeze_adj (add_edges (node_map g.nodes []) no_edges g.edges).callee_set f,
  contains-sorted_keys t (at_key f (add_edges (node_map g.nodes []) no_edges g.edges).callee_set),
  add_edges-callees (node_map g.nodes []) no_edges g.edges f t,
  any_call-declared (keys (node_map g.nodes [])) (fqns g) f t g.edges (keys-node_map g.nodes),
)

pub contains-callers : (g : Graph) (f t : Str) → contains f (callers (new_index g) t) ≡ calls g f t
unfolding callers new_index contains
contains-callers g f t = cc (
  at_key-freeze_adj (add_edges (node_map g.nodes []) no_edges g.edges).caller_set t,
  contains-sorted_keys f (at_key t (add_edges (node_map g.nodes []) no_edges g.edges).caller_set),
  add_edges-callers (node_map g.nodes []) no_edges g.edges f t,
  any_call-declared (keys (node_map g.nodes [])) (fqns g) f t g.edges (keys-node_map g.nodes),
)

-- The same call edge is read from both ends.
pub callees-callers :
    (g : Graph) (f t : Str)
    → contains t (callees (new_index g) f) ≡ contains f (callers (new_index g) t)
callees-callers g f t = contains-callees g f t ∙ sym (contains-callers g f t)

at_key-freeze_adj-IsStrict :
    (m : List (Str × List Str)) (k : Str) → IsStrict (at_key k (freeze_adj m))
at_key-freeze_adj-IsStrict m k = rw (at_key-freeze_adj m k) (sorted_keys-IsStrict (at_key k m))

-- The precomputed adjacency lists are what the graph's calls determine, whatever the order of its
-- nodes and edges: two graphs with the same calls from `f` list the same callees in the same order.
pub callees-canonical :
    (g h : Graph) (f : Str)
    → ((t : Str) → calls g f t ≡ calls h f t)
    → callees (new_index g) f ≡ callees (new_index h) f
unfolding callees new_index
callees-canonical g h f same =
    IsStrict-ext _ _
      (at_key-freeze_adj-IsStrict (add_edges (node_map g.nodes []) no_edges g.edges).callee_set f)
      (at_key-freeze_adj-IsStrict (add_edges (node_map h.nodes []) no_edges h.edges).callee_set f)
      λ t. contains-callees g f t ∙ same t ∙ sym (contains-callees h f t)
