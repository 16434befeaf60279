-- ===== src/Graph/Types.antt =====
-- The graph that flowmap emits and groundwork reads: the types of
-- internal/groundwork/graph/graph.go, the two predicates of an edge, and the decoder's checks.
use verdi_go.Prelude.{
  ℕ, suc, Bool, ◌&&◌, not, Option, none, some, List, [], ◌∷◌, ◌++◌, map, bool_eq, if◌then◌else◌,
  any, keep, ◌==◌, nat_Eq, bool_Eq, contains, list_Eq, Str, codes, Str_Eq, has_prefix,
  has_substring, pair_Eq,
}

pub record Annotation : Type 0 where
  pub site : Str
  pub kind : Str
  pub note : Str
  pub by : Str
  pub claim : Str

pub record FrontierMarker : Type 0 where
  pub kind : Str
  pub bin : Str
  pub site : Str
  pub owner : Str
  pub reclaimer_hint : Str

pub record FrontierSection : Type 0 where
  pub markers : List FrontierMarker
  pub unconfirmed_routes : ℕ
  pub coverage : Str

pub record Entrypoint : Type 0 where
  pub kind : Str
  pub name : Str
  pub fn : Str

pub record EffectOrderFact : Type 0 where
  pub fn : Str
  pub effect : Str
  pub effect_site : Str
  pub callee : Str
  pub callee_site : Str
  pub always : Bool
  pub via : Str

pub record Obligation : Type 0 where
  pub rule : Str
  pub kind : Str
  pub fn : Str
  pub site : Str
  pub status : Str
  pub detail : Str

pub record Node : Type 0 where
  pub fqn : Str
  pub sig : Str
  pub tier : ℕ
  pub pkg : Str
  pub fallible : Bool
  pub file : Str
  pub line : ℕ
  pub end_line : ℕ

pub record Edge : Type 0 where
  pub from : Str
  pub to : Str
  pub tier : ℕ
  pub boundary : Str
  pub concurrent : Bool
  pub via : Str

pub record BlindSpot : Type 0 where
  pub kind : Str
  pub site : Str
  pub detail : Str
  pub severity : Str
  pub pkg : Str

pub record Graph : Type 0 where
  pub stamp : Str
  pub tool : Str
  pub entrypoint : Str
  pub algo : Str
  pub caveats : List Str
  pub nodes : List Node
  pub edges : List Edge
  pub blind_spots : List BlindSpot
  pub obligations : List Obligation
  pub effect_order : List EffectOrderFact
  pub entrypoints : List Entrypoint
  pub composition_roots : List Str
  pub omitted_packages : List Str
  pub frontier : Option FrontierSection
  pub annotations : List Annotation

abbrev pub boundary_prefix : Str
boundary_prefix = codes "boundary:"

abbrev pub dynamic_marker : Str
dynamic_marker = codes "<dynamic>"

unfoldable pub is_boundary : Edge → Bool
is_boundary e = has_prefix e.to boundary_prefix

unfoldable pub is_dynamic : Edge → Bool
is_dynamic e = has_substring e.to dynamic_marker

-- DedupKey: the three parts joined by a zero byte.
unfoldable pub dedup_key : BlindSpot → Str
dedup_key b = b.kind ++ 0 ∷ b.site ++ 0 ∷ b.detail

abbrev pub entrypoint_kinds : List Str
entrypoint_kinds = codes "callback" ∷ codes "consumer" ∷ codes "http" ∷ codes "worker" ∷ []

unfoldable pub known_entrypoint_kind : Str → Bool
known_entrypoint_kind k = any (λ kk. k == kk) entrypoint_kinds

unfoldable pub match_annotations : List Annotation → Str → Str → List Annotation
match_annotations anns site kind = keep (λ a. a.site == site && a.kind == kind) anns

-- Why `load` refuses a document that it could decode. Each edge is named by its place.
pub data LoadError : Type 0 where
  missing_nodes : LoadError
  inconsistent_boundary : ℕ → LoadError
  undeclared_from : ℕ → LoadError

unfoldable pub check_edges : List Str → ℕ → List Edge → Option LoadError
check_edges node_set i [] = none
check_edges node_set i (e ∷ es) =
    let rest = check_edges node_set (suc i) es in
    if not (bool_eq (is_boundary e) (not (e.boundary == [])))
    then some (inconsistent_boundary i)
    else if not (contains e.from node_set)
    then some (undeclared_from i)
    else rest

-- The part of `Load` behind the JSON decoder: `nodes_present` is false when the document has no
-- `nodes` at all.
unfoldable pub validate : Bool → Graph → Option LoadError
unfolding check_edges
validate nodes_present g =
    if nodes_present
    then check_edges (map (λ (n : Node). n.fqn) g.nodes) 0 g.edges
    else some missing_nodes
