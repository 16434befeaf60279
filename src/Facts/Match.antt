-- ===== src/Facts/Match.antt =====
-- Selector binding: internal/groundwork/facts/match.go, and the two edge helpers of reach.go that it
-- calls (canonicalBoundaryEdges, sortBoundaryEdges).
use verdi_go.Prelude.{
  ℕ, ◌+◌, Bool, true, false, not, Option, none, some, List, [], ◌∷◌, ◌++◌, map, ltb, nat_eq,
  bool_eq, if◌then◌else◌, take, drop, any, keep, ◌==◌, nat_Eq, bool_Eq, compact, list_Eq, Str,
  codes, Str_Eq, str_lt, has_prefix, trim_prefix, index_byte, sort_by, sort_strings, sorted_keys,
  pair_Eq, keys,
}
use verdi_go.Vocabulary.Matcher.{match_prefix}
use verdi_go.Graph.Types.{Edge, is_boundary}
use verdi_go.Graph.Index.{Index}
use verdi_go.Graph.Index as GraphIndex
use verdi_go.Graph.Surface
use verdi_go.Facts.Types.{Edge_Eq}

abbrev pub entrypoint_selector : Str
entrypoint_selector = codes "entrypoint:*"

unfoldable pub matches_any : Str → List Str → Bool
unfolding match_prefix
matches_any value selectors = any (λ selector. match_prefix value selector) selectors

-- The nodes in the order of the map, which the sort of each binder forgets.
abbrev pub node_keys : Index → List Str
node_keys ix = keys ix.nodes

unfoldable pub source_set : Index → List Str → List Str
unfolding GraphIndex.sources matches_any
source_set ix [] = []
source_set ix (selector ∷ selectors) =
    (if selector == entrypoint_selector
      then GraphIndex.sources ix
      else keep (λ fqn. matches_any fqn (selector ∷ [])) (node_keys ix))
    ++ source_set ix selectors

unfoldable pub bind_sources : Index → List Str → List Str
unfolding source_set sorted_keys
bind_sources ix selectors = sorted_keys (source_set ix selectors)

unfoldable pub bind_functions : Index → List Str → List Str
unfolding matches_any sorted_keys
bind_functions ix selectors = sorted_keys (keep (λ fqn. matches_any fqn selectors) (node_keys ix))

-- The order (From, To, Boundary, Tier, Concurrent, Via).
unfoldable pub boundary_edge_less : Edge → Edge → Bool
unfolding str_lt
boundary_edge_less left right =
    if not (left.from == right.from)
    then str_lt left.from right.from
    else if not (left.to == right.to)
    then str_lt left.to right.to
    else if not (left.boundary == right.boundary)
    then str_lt left.boundary right.boundary
    else if not (nat_eq left.tier right.tier)
    then ltb left.tier right.tier
    else if not (bool_eq left.concurrent right.concurrent)
    then not left.concurrent
    else str_lt left.via right.via

unfoldable pub sort_boundary_edges : List Edge → List Edge
unfolding sort_by boundary_edge_less
sort_boundary_edges = sort_by boundary_edge_less

unfoldable pub canonical_boundary_edges : Index → List Edge
unfolding sort_boundary_edges compact
canonical_boundary_edges ix = compact (sort_boundary_edges (keep is_boundary (Surface.edges ix)))

unfoldable pub bind_targets : Index → List Str → List Str
unfolding matches_any sorted_keys canonical_boundary_edges
bind_targets ix selectors = sorted_keys (
    keep (λ fqn. matches_any fqn selectors) (GraphIndex.nodes ix)
    ++ keep (λ to. matches_any to selectors)
        (map (λ (e : Edge). e.to) (canonical_boundary_edges ix)))

abbrev pub no_strings : List Str → Bool
no_strings [] = true
no_strings (x ∷ xs) = false

-- The selectors that bind nothing on their own, through the family's binder.
unfoldable pub dead_selectors : Index → List Str → (Index → List Str → List Str) → List Str
unfolding sorted_keys
dead_selectors ix selectors bind =
    sorted_keys (keep (λ selector. no_strings (bind ix (selector ∷ []))) selectors)

unfoldable pub strip_type_args : Str → Str
strip_type_args value = elim (index_byte value b'[') [ none ↦ value | some i ↦ take i value ]

-- The place behind the last slash, 0 where there is none.
abbrev pub after_last_slash : ℕ → ℕ → Str → ℕ
after_last_slash i last [] = last
after_last_slash i last (c ∷ s) = after_last_slash (i + 1) (if nat_eq c b'/' then i + 1 else last) s

unfoldable pub package_from_qualified : Str → Str
package_from_qualified value =
    let cut = after_last_slash 0 0 value in
    let prefix = take cut value in
    let segment = drop cut value in
    elim (index_byte segment b'.') [ none ↦ value | some dot ↦ prefix ++ take dot segment ]

abbrev receiver_package : Str → Option ℕ → Str
receiver_package value none = []
receiver_package value (some close) =
    package_from_qualified (strip_type_args (trim_prefix (drop 1 (take close value)) (codes "*")))

-- The import path that an SSA-style name encodes; empty where the receiver's bracket is not closed.
unfoldable pub package_of : Str → Str
unfolding package_from_qualified strip_type_args has_prefix trim_prefix
package_of fqn =
    if has_prefix fqn (codes "(")
    then receiver_package fqn (index_byte fqn b')')
    else package_from_qualified (strip_type_args fqn)

unfoldable pub canonical_strings : List Str → List Str
unfolding sort_strings compact
canonical_strings values = compact (sort_strings values)
