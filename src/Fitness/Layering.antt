-- ===== src/Fitness/Layering.antt =====
-- checkLayering and its helpers (internal/groundwork/fitness/layering.go).
use verdi_go.Prelude.{
  ℕ, zero, suc, ◌+◌, ◌-◌, Bool, ◌&&◌, not, Option, none, some, List, [], ◌∷◌, ltb, nat_eq,
  if◌then◌else◌, length, any, flat_map, bool_Eq, ◌==◌, nat_Eq, contains, list_Eq, Str, codes,
  Str_Eq, sorted_keys, pair_Eq, Format, concat, pos,
}
use verdi_go.Graph.Index.{Index, nodes, callees}
use verdi_go.Policy.Types.{Policy, Layer, Layering, Exception}
use verdi_go.Vocabulary.Matcher.{match_exception_side}
use verdi_go.Policy.Layers.{layer_of, layer_rank}
use verdi_go.Fitness.Findings.{violation, Finding}
use verdi_go.Fitness.Names.{pkg_of}

unfoldable pub is_root_pkg : List Str → Str → Bool
is_root_pkg roots pkg = any (λ r. pkg == r) roots

unfoldable pub exempted : List Exception → Str → Str → Bool
unfolding match_exception_side
exempted allow from to =
    any (λ (a : Exception). match_exception_side from a.from && match_exception_side to a.to) allow

unfoldable pub has_layer : List Layer → Str → Bool
unfolding layer_of pkg_of
has_layer layers n = not (layer_of layers (pkg_of n) == [])

-- The functions seen, those landed on, and the stack, its top first.
abbrev pub Descent : Type 0
Descent = List Str × List Str × List Str

-- Pushed one after the other, so that the last one is on top.
abbrev pub push_all : List Str → List Str → List Str
push_all [] stack = stack
push_all (n ∷ ns) stack = push_all ns (n ∷ stack)

abbrev pub total_length : List (Str × List Str) → ℕ
total_length [] = 0
total_length ((k, vs) ∷ m) = length vs + total_length m

module _ (layers : List Layer) (roots : List Str) (ix : Index) where
  -- The body of the loop, for what was popped.
  unfoldable pub visit : Str → Descent → Descent
  unfolding contains is_root_pkg pkg_of layer_of callees
  visit n (seen, landed, rest) =
      if contains n seen
      then (seen, landed, rest)
      else if is_root_pkg roots (pkg_of n)
      then (n ∷ seen, landed, rest)
      else if has_layer layers n
      then (n ∷ seen, n ∷ landed, rest)
      else (n ∷ seen, landed, push_all (callees ix n) rest)

  unfoldable pub descend : ℕ → Descent → List Str
  unfolding visit
  descend zero (seen, landed, stack) = landed
  descend (suc fuel) (seen, landed, []) = landed
  descend (suc fuel) (seen, landed, n ∷ rest) = descend fuel (visit n (seen, landed, rest))

  -- Each function's callees are pushed at most once, so that their number is fuel enough.
  unfoldable pub effective_layered_callees : Str → List Str
  unfolding descend sorted_keys callees
  effective_layered_callees from = sorted_keys (
      descend (suc (length (callees ix from) + total_length ix.callees))
        ([], [], push_all (callees ix from) []))

-- The arrow of the summary is one code point.
unfoldable pub layering_summary : Format → Str → Str → ℕ → ℕ → Str
layering_summary format from_layer to_layer from_rank to_rank =
    if ltb (from_rank + 1) to_rank
    then concat (
        from_layer
        ∷ codes " → "
        ∷ to_layer
        ∷ codes " skips "
        ∷ format.decimal (pos (to_rank - from_rank - 1))
        ∷ codes " layer(s)"
        ∷ [])
    else concat (from_layer ∷ codes " → " ∷ to_layer ∷ codes " calls upward" ∷ [])

abbrev pub layering_rule : Str
layering_rule = codes "layering"

module _ (format : Format) (layers : List Layer) (layering : Layering) (ix : Index) where
  -- The body of the inner loop.
  unfoldable pub judge_call : Str → Str → List Finding
  unfolding layer_of layer_rank pkg_of exempted layering_summary
  judge_call from to =
      let from_layer = layer_of layers (pkg_of from) in
      let to_layer = layer_of layers (pkg_of to) in
      let from_rank = (layer_rank layers from_layer).0 in
      let to_rank = (layer_rank layers to_layer).0 in
      if to_layer == from_layer
      then []
      else if nat_eq to_rank (from_rank + 1)
      then []
      else if exempted layering.allow from to
      then []
      else record {
        rule = layering_rule;
        severity = violation;
        summary = layering_summary format from_layer to_layer from_rank to_rank;
        from = from;
        to = to;
        detail = [];
      }
        ∷ []

  -- The body of the outer loop.
  unfoldable pub judge_caller : Str → List Finding
  unfolding is_root_pkg pkg_of layer_of effective_layered_callees judge_call
  judge_caller from =
      if is_root_pkg layering.roots (pkg_of from)
      then []
      else if not (has_layer layers from)
      then []
      else flat_map (judge_call from) (effective_layered_callees layers layering.roots ix from)

-- `none` is the nil layering.
unfoldable pub layering_findings : Format → List Layer → Index → Option Layering → List Finding
unfolding nodes judge_caller
layering_findings format layers ix none = []
layering_findings format layers ix (some layering) =
    flat_map (judge_caller format layers layering ix) (nodes ix)

unfoldable pub check_layering : Format → Policy → Index → List Finding
unfolding layering_findings
check_layering format p ix = layering_findings format p.layers ix p.layering
