-- ===== src/Facts/Cone.antt =====
-- The cone and the effect surface of a source, over a graph's own index
-- (internal/groundwork/facts/reach.go).
use verdi_go.Prelude.{
  ◌+◌, ◌<◌, ◌≡◌, refl, sym, ap, subst, ◌∙◌, ◌↔◌, ◌⊎◌, inl, inr, Bool, true, false, ◌&&◌, ◌||◌, not,
  List, [], ◌∷◌, ◌++◌, map, append_assoc, append-nil, arith, or_true, or_right, length, any, keep,
  length-map, ◌==◌, eq_iff, nat_Eq, bool_Eq, contains, list_Eq, contains-keep, contains-compact,
  Str, Str_Eq, str_lt, contains-sort_by, sort_strings, pair_Eq, keys, at_key, append_at,
  at_key-append_at, at_key-nil,
}
use verdi_go.Graph.Types.{Graph, Edge, is_boundary}
use verdi_go.Graph.Index.{Index, new_index}
use verdi_go.Graph.Index as GraphIndex
use verdi_go.Graph.Surface
use verdi_go.Graph.Adjacency.{calls, contains-callees}
use verdi_go.Graph.Reachability.{CallPath, call, then_call, targets, callees-Within}
use verdi_go.Facts.Traversal.{search_tree, canonical_cone, level_fuel, reconstruct_path}
use verdi_go.Facts.Tree.{Trail, stay, go, Chain}
use verdi_go.Facts.Trails.{keys-levels, reconstruct_path-levels}
use verdi_go.Facts.Frontier.{
  BoundaryEffect, BoundaryEffect_Eq, EffectMap, effect_of, effect_less, sort_boundary_effects,
  canonical_boundary_effects, group_effects, effects_by_owner,
}

-- The functions of the cone: the source, and what its calls lead to.
abbrev pub InCone : Graph → Str → Str → Type 0
InCone g source t = (t ≡ source) ⊎ CallPath g source t

abbrev pub unblocked : Str → Bool
unblocked = λ _. false

-- A path of calls, function by function.
abbrev pub CallChain : Graph → Str → Str → List Str → Type 0
CallChain g = Chain unblocked (GraphIndex.callees (new_index g))

module _ (g : Graph) (source : Str) where
  Trail-InCone :
      {t : Str} → Trail unblocked (GraphIndex.callees (new_index g)) source t → InCone g source t
  Trail-InCone stay = inl refl
  Trail-InCone (go {t} {u} trail step) =
      let c : calls g u t ≡ true = sym (contains-callees g u t) ∙ step.callee in
      elim (Trail-InCone trail) [
        | inl same ↦ inr (call (subst (λ x. calls g x t ≡ true) same c))
        | inr path ↦ inr (then_call path c)
      ]

  CallPath-Trail :
      {t : Str} → CallPath g source t → Trail unblocked (GraphIndex.callees (new_index g)) source t
  CallPath-Trail (call {t} c) =
      go stay (record { callee = contains-callees g source t ∙ c; open_to = refl })
  CallPath-Trail (then_call {t} {u} path c) =
      go (CallPath-Trail path) (record { callee = contains-callees g u t ∙ c; open_to = refl })

  InCone-Trail :
      {t : Str} → InCone g source t → Trail unblocked (GraphIndex.callees (new_index g)) source t
  InCone-Trail (inl same) = rw same stay
  InCone-Trail (inr path) = CallPath-Trail path

  pub fuel_enough : length (targets g) + 1 < level_fuel (new_index g)
  unfolding new_index
  fuel_enough = omega (arith, length-map (λ (e : Edge). e.to) g.edges)

  keys-search_tree :
      (t : Str)
      → (contains t (keys (search_tree (new_index g) source)) ≡ true)
        ↔ Trail unblocked (GraphIndex.callees (new_index g)) source t
  unfolding search_tree
  keys-search_tree t =
      keys-levels unblocked (GraphIndex.callees (new_index g)) (targets g) (callees-Within g) source
        (level_fuel (new_index g)) fuel_enough t

  -- A path read back from the search tree is a path of calls.
  pub reconstruct_path-CallChain :
      (t : Str)
      → InCone g source t
      → CallChain g t source (reconstruct_path (search_tree (new_index g) source) source t)
  unfolding search_tree
  reconstruct_path-CallChain t c =
      reconstruct_path-levels unblocked (GraphIndex.callees (new_index g)) (targets g)
        (callees-Within g) source (level_fuel (new_index g)) fuel_enough t (InCone-Trail c)

  abbrev pub cone : List Str
  cone = canonical_cone source (search_tree (new_index g) source)

  contains-cone :
      (t : Str)
      → contains t cone ≡ ((t == source) || contains t (keys (search_tree (new_index g) source)))
  unfolding canonical_cone contains sort_strings
  contains-cone t = ground (
    arith,
    contains-sort_by str_lt t
        (keep (λ fn. not (fn == source)) (keys (search_tree (new_index g) source))),
    contains-keep (λ fn. not (fn == source)) t (keys (search_tree (new_index g) source)),
  )

  -- The canonical cone is exactly the source and what it reaches.
  pub cone_iff : (t : Str) → (contains t cone ≡ true) ↔ InCone g source t
  cone_iff t = (
    λ h. elim (or_true _ _ (sym (contains-cone t) ∙ h)) [
      | inl same ↦ inl ((eq_iff t source).0 same)
      | inr key ↦ Trail-InCone ((keys-search_tree t).0 key)
    ],
    λ c. contains-cone t ∙ or_right _ _ ((keys-search_tree t).1 (InCone-Trail c)),
  )

  -- Without its head it is what the source reaches, the source itself left out.
  pub contains-cone_rest :
      (t : Str)
      → contains t
          (sort_strings (keep (λ fn. not (fn == source)) (keys (search_tree (new_index g) source))))
        ≡ (contains t cone && not (t == source))
  unfolding sort_strings
  contains-cone_rest t = ground (
    arith,
    contains-cone t,
    contains-sort_by str_lt t
        (keep (λ fn. not (fn == source)) (keys (search_tree (new_index g) source))),
    contains-keep (λ fn. not (fn == source)) t (keys (search_tree (new_index g) source)),
  )

-- The graph has a boundary edge from `owner` to the label `to`.
abbrev pub has_effect : Graph → Str → Str → Bool
has_effect g owner to = any (λ (e : Edge). is_boundary e && (e.from == owner && e.to == to)) g.edges

at_key-group_effects :
    (es : List BoundaryEffect) (m : EffectMap) (owner : Str)
    → at_key owner (group_effects es m)
      ≡ at_key owner m ++ keep (λ (e : BoundaryEffect). e.from == owner) es
unfolding group_effects
at_key-group_effects [] m owner = sym (append-nil _)
at_key-group_effects (e ∷ es) m owner = ground (
  arith,
  at_key-group_effects es (append_at e.from e m) owner,
  at_key-append_at e.from owner e m,
  eq_iff e.from owner,
  append_assoc (at_key owner m) (e ∷ []) (keep (λ (x : BoundaryEffect). x.from == owner) es),
)

abbrev pub is_effect : BoundaryEffect → Edge → Bool
is_effect b e = is_boundary e && (b == effect_of e)

contains-map_effects :
    (b : BoundaryEffect) (es : List Edge)
    → contains b (map effect_of (keep is_boundary es)) ≡ any (is_effect b) es
unfolding contains
contains-map_effects b [] = refl
contains-map_effects b (e ∷ es) = ground (arith, contains-map_effects b es)

pub contains-canonical_boundary_effects :
    (b : BoundaryEffect) (es : List Edge)
    → contains b (canonical_boundary_effects es) ≡ any (is_effect b) es
unfolding canonical_boundary_effects sort_boundary_effects
contains-canonical_boundary_effects b es =
    contains-compact b _ ∙ contains-sort_by effect_less b _ ∙ contains-map_effects b es

pub contains-at_key-group_effects :
    (es : List BoundaryEffect) (owner : Str) (b : BoundaryEffect)
    → contains b (at_key owner (group_effects es [])) ≡ (contains b es && b.from == owner)
contains-at_key-group_effects es owner b =
    ap (contains b) (
      at_key-group_effects es [] owner
      ∙ ap (λ l. l ++ keep (λ (e : BoundaryEffect). e.from == owner) es) (at_key-nil owner))
    ∙ contains-keep (λ (e : BoundaryEffect). e.from == owner) b es

-- What the effect map holds for an owner: its boundary edges, as effects.
pub contains-effects_by_owner :
    (g : Graph) (owner : Str) (b : BoundaryEffect)
    → contains b (at_key owner (effects_by_owner (new_index g)))
      ≡ (any (is_effect b) g.edges && b.from == owner)
unfolding effects_by_owner Surface.edges new_index
contains-effects_by_owner g owner b =
    contains-at_key-group_effects (canonical_boundary_effects g.edges) owner b
    ∙ ap (λ x. x && b.from == owner) (contains-canonical_boundary_effects b g.edges)
