-- ===== src/Fitness/LivenessLaws.antt =====
-- The audit of internal/groundwork/fitness/liveness.go against the binders of internal/groundwork/facts.
use verdi_go.Prelude.{
  ◌≡◌, refl, sym, ap, ◌∙◌, inl, inr, Bool, true, false, ◌&&◌, ◌||◌, not, List, [], ◌∷◌, ◌++◌, map,
  append-nil, arith, ltb, Bool-cases, length, is_nil, any, keep, any-append, any-In, any-map,
  any-keep, any-pointwise, bool_Eq, ◌==◌, nat_Eq, contains, list_Eq, contains-In, contains-compact,
  Str, Str_Eq, contains-sort_by, sorted_keys, contains-sorted_keys, pair_Eq, keys,
}
use verdi_go.Graph.Types.{Edge, is_boundary}
use verdi_go.Graph.Index.{Index, nodes, sources}
use verdi_go.Graph.Surface
use verdi_go.Facts.Types.{Edge_Eq}
use verdi_go.Facts.Match.{
  entrypoint_selector, bind_sources, bind_targets, source_set, node_keys, canonical_boundary_edges,
  boundary_edge_less, sort_boundary_edges,
}
use verdi_go.Facts.ConcurrentLaws.{any-members}
use verdi_go.Fitness.Names.{match_any}
use verdi_go.Fitness.Liveness.{boundary_labels, node_live, target_live}

module _ (p : Str → Bool) where
  any-sorted_keys : (xs : List Str) → any p (sorted_keys xs) ≡ any p xs
  any-sorted_keys xs = any-members p (sorted_keys xs) xs (λ a. contains-sorted_keys a xs)

-- Something is bound.
abbrev binds : List Str → Bool
binds xs = not (is_nil xs)

binds-any : (xs : List Str) → binds xs ≡ any (λ x. true) xs
binds-any [] = refl
binds-any (x ∷ xs) = refl

binds-length : (xs : List Str) → ltb 0 (length xs) ≡ binds xs
binds-length [] = refl
binds-length (x ∷ xs) = ground arith

binds-keep : (p : Str → Bool) (xs : List Str) → any (λ x. true) (keep p xs) ≡ any p xs
binds-keep p xs =
    any-keep (λ x. true) p xs ∙ any-pointwise (λ x. p x && true) p xs (λ a. and_unit (p a))
  where
    and_unit : (b : Bool) → (b && true) ≡ b
    and_unit b = ground arith

binds-sorted_keys : (xs : List Str) → binds (sorted_keys xs) ≡ any (λ x. true) xs
binds-sorted_keys xs = binds-any (sorted_keys xs) ∙ any-sorted_keys (λ x. true) xs

boundary_labels-any :
    (p : Str → Bool) (seen : List Str) (es : List Edge)
    → (any p seen || any p (boundary_labels seen es))
      ≡ (any p seen || any (λ (e : Edge). is_boundary e && p e.to) es)
unfolding boundary_labels
boundary_labels-any p seen [] = refl
boundary_labels-any p seen (e ∷ es) =
    elim (Bool-cases (is_boundary e && not (contains e.to seen))) [
      | inl new ↦ rw new (ground (arith, boundary_labels-any p (e.to ∷ seen) es))
      | inr old ↦ rw old (ground (arith, boundary_labels-any p seen es, seen_any))
    ]
  where
    seen_any : contains e.to seen ≡ true → p e.to ≡ true → any p seen ≡ true
    seen_any m h = any-In p (contains-In e.to seen m) h

module _ (ix : Index) (pat : Str) where
  abbrev names : Str → Bool
  names s = match_any s (pat ∷ [])

  any-node_keys : any names (nodes ix) ≡ any names (node_keys ix)
  unfolding nodes
  any-node_keys = any-sorted_keys names (keys ix.nodes)

  -- This half needs no condition: the selector itself is live where there is a source.
  node_live-bind_sources : node_live ix pat ≡ binds (bind_sources ix (pat ∷ []))
  unfolding node_live bind_sources source_set match_any
  node_live-bind_sources = elim (Bool-cases (pat == entrypoint_selector)) [
    | inl e ↦ rw e (
        binds-length (sources ix)
        ∙ binds-any (sources ix)
        ∙ sym (
            binds-sorted_keys (sources ix ++ [])
            ∙ ap (λ xs. any (λ x. true) xs) (append-nil (sources ix))))
    | inr e ↦ rw e (
        any-node_keys
        ∙ sym (
            binds-sorted_keys (keep names (node_keys ix) ++ [])
            ∙ ap (λ xs. any (λ x. true) xs) (append-nil (keep names (node_keys ix)))
            ∙ binds-keep names (node_keys ix)))
  ]

  any-canonical :
      any (λ (e : Edge). names e.to) (canonical_boundary_edges ix)
      ≡ any (λ (e : Edge). is_boundary e && names e.to) (Surface.edges ix)
  unfolding canonical_boundary_edges sort_boundary_edges
  any-canonical =
      any-members (λ (e : Edge). names e.to) _ (keep is_boundary (Surface.edges ix))
        (λ e.
          contains-compact e _
          ∙ contains-sort_by boundary_edge_less e (keep is_boundary (Surface.edges ix)))
      ∙ any-keep (λ (e : Edge). names e.to) is_boundary (Surface.edges ix)

  bind_targets-any : binds (bind_targets ix (pat ∷ [])) ≡ (
      any names (node_keys ix)
      || any (λ (e : Edge). is_boundary e && names e.to) (Surface.edges ix))
  unfolding bind_targets match_any
  bind_targets-any =
      let labels = map (λ (e : Edge). e.to) (canonical_boundary_edges ix) in
      binds-sorted_keys (keep names (nodes ix) ++ keep names labels)
      ∙ any-append (λ x. true) (keep names (nodes ix)) (keep names labels)
      ∙ ap (λ b. b || any (λ x. true) (keep names labels))
          (binds-keep names (nodes ix) ∙ any-node_keys)
      ∙ ap (λ b. any names (node_keys ix) || b)
          (binds-keep names labels
            ∙ any-map names (λ (e : Edge). e.to) (canonical_boundary_edges ix)
            ∙ any-canonical)

  target_live-any :
      (pat == entrypoint_selector) ≡ false
      → target_live ix pat ≡ (
          any names (node_keys ix)
          || any (λ (e : Edge). is_boundary e && names e.to) (Surface.edges ix))
  unfolding target_live node_live
  target_live-any e =
      rw e (ground (arith, any-node_keys, boundary_labels-any names [] (Surface.edges ix)))

-- The audit agrees with the binders of the facts: a pattern other than the entry point selector is live as a source
-- exactly when it binds a source on its own, and live as a target exactly when it binds a target on its own.
pub live-binds :
    (ix : Index) (pat : Str)
    → (pat == entrypoint_selector) ≡ false
    → (node_live ix pat ≡ not (is_nil (bind_sources ix (pat ∷ []))))
      × (target_live ix pat ≡ not (is_nil (bind_targets ix (pat ∷ []))))
live-binds ix pat e =
    (node_live-bind_sources ix pat, target_live-any ix pat e ∙ sym (bind_targets-any ix pat))
