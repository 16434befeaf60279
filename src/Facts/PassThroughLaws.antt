-- ===== src/Facts/PassThroughLaws.antt =====
-- When a pass-through rule is bypassed (internal/groundwork/facts/passthrough.go).
use verdi_go.Prelude.{
  ◌≡◌, refl, sym, ap, ◌∙◌, ◌≢◌, ◌↔◌, inl, inr, Bool, true, false, ◌&&◌, ◌||◌, not, List, [], ◌∷◌,
  ◌++◌, map, arith, and_true, or_true, true_ne_false, not-true, and_both, or_left, or_right, any,
  keep, any-append, In, any-In, any_witness, bool_Eq, ◌==◌, eq_iff, nat_Eq, ne_not, contains,
  list_Eq, contains-In, In-contains, Str, Str_Eq, str_lt, sort_by, contains-sort_by, any-sort_by,
  sort_strings, pair_Eq, keys,
}
use verdi_go.Graph.Types.{Graph, Edge, is_boundary}
use verdi_go.Graph.Index.{new_index}
use verdi_go.Graph.Index as GraphIndex
use verdi_go.Graph.Surface.{edges}
use verdi_go.Graph.Reachability.{callees-Within, targets}
use verdi_go.Facts.Types.{PathWitness, AllowPair}
use verdi_go.Facts.Match.{matches_any, sort_boundary_edges, boundary_edge_less}
use verdi_go.Facts.Traversal.{guarded_tree, guarded_walk, level_fuel}
use verdi_go.Facts.Tree.{Trail}
use verdi_go.Facts.Trails.{keys-levels}
use verdi_go.Facts.Cone.{fuel_enough}
use verdi_go.Facts.PassThrough.{
  allowed_pair, is_target, function_bypasses, effect_bypasses, boundary_edge_occurrences,
}

-- The functions that calls lead to without entering a waypoint.
abbrev pub GuardedTrail : Graph → List Str → Str → Str → Type 0
GuardedTrail g through =
    Trail (λ candidate. matches_any candidate through) (GraphIndex.callees (new_index g))

-- A way from `source` to a target that enters no waypoint and that no exception allows.
pub data Bypass (g : Graph) (allow : List AllowPair) (through targets : List Str) (source : Str)
    : Type 0 where
  past_function :
      (t : Str)
      → t ≢ source
      → GuardedTrail g through source t
      → contains t targets ≡ true
      → allowed_pair allow source t ≡ false
      → Bypass g allow through targets source
  past_effect :
      (e : Edge)
      → In e g.edges
      → is_boundary e ≡ true
      → GuardedTrail g through source e.from
      → contains e.to targets ≡ true
      → allowed_pair allow source e.to ≡ false
      → Bypass g allow through targets source

abbrev pub some_element {ℓ} : {A : Type ℓ} → List A → Bool
some_element xs = any (λ x. true) xs

pub some-map-keep {ℓ κ} :
    {A : Type ℓ} {B : Type κ} (f : A → B) (p : A → Bool) (xs : List A)
    → some_element (map f (keep p xs)) ≡ any p xs
some-map-keep f p [] = refl
some-map-keep f p (x ∷ xs) = ground (arith, some-map-keep f p xs)

pub any-keep {ℓ} :
    {A : Type ℓ} (q p : A → Bool) (xs : List A) → any q (keep p xs) ≡ any (λ x. p x && q x) xs
any-keep q p [] = refl
any-keep q p (x ∷ xs) = ground (arith, any-keep q p xs)

module _ (g : Graph) (allow : List AllowPair) (through bound : List Str) (source : Str) where
  abbrev pub guarded_cone : List Str
  guarded_cone = (guarded_walk (new_index g) source through).0

  pub contains-guarded_cone :
      (t : Str) → (contains t guarded_cone ≡ true) ↔ GuardedTrail g through source t
  unfolding guarded_walk guarded_tree sort_strings
  contains-guarded_cone t =
      let i =
        keys-levels (λ candidate. matches_any candidate through) (GraphIndex.callees (new_index g))
          (targets g) (callees-Within g) source (level_fuel (new_index g)) (fuel_enough g source)
          t in
      let same : contains t guarded_cone
          ≡ contains t (keys (guarded_tree (new_index g) source through)) =
        contains-sort_by str_lt t (keys (guarded_tree (new_index g) source through)) in
      (λ h. i.0 (sym same ∙ h), λ h. same ∙ i.1 h)

  -- What one visit adds.
  abbrev pub found : List PathWitness
  found =
      function_bypasses allow bound source guarded_cone
        (guarded_walk (new_index g) source through).1
      ++ effect_bypasses allow bound source
          (keep (λ (e : Edge). contains e.from guarded_cone)
            (boundary_edge_occurrences (new_index g)))
          (guarded_walk (new_index g) source through).1

  abbrev hits : Edge → Bool
  hits e = is_boundary e && (contains e.from guarded_cone && is_target allow bound source e.to)

  some-effects :
      some_element (
        effect_bypasses allow bound source
          (keep
            (λ (e : Edge). contains e.from guarded_cone)
            (boundary_edge_occurrences (new_index g)))
          (guarded_walk (new_index g) source through).1)
      ≡ any hits g.edges
  unfolding effect_bypasses boundary_edge_occurrences sort_boundary_edges edges new_index
  some-effects =
      some-map-keep _ (λ (e : Edge). is_target allow bound source e.to)
        (keep (λ (e : Edge). contains e.from guarded_cone)
          (sort_by boundary_edge_less (keep is_boundary g.edges)))
      ∙ any-keep (λ (e : Edge). is_target allow bound source e.to)
          (λ (e : Edge). contains e.from guarded_cone)
          (sort_by boundary_edge_less (keep is_boundary g.edges))
      ∙ any-sort_by boundary_edge_less
          (λ (e : Edge). contains e.from guarded_cone && is_target allow bound source e.to)
          (keep is_boundary g.edges)
      ∙ any-keep (λ (e : Edge). contains e.from guarded_cone && is_target allow bound source e.to)
          is_boundary g.edges

  some-functions :
      some_element (
        function_bypasses allow bound source guarded_cone
          (guarded_walk (new_index g) source through).1)
      ≡ any (λ fn. not (fn == source) && is_target allow bound source fn) guarded_cone
  unfolding function_bypasses
  some-functions =
      some-map-keep _ (λ fn. not (fn == source) && is_target allow bound source fn) guarded_cone

  is_target_lem :
      (t : Str)
      → is_target allow bound source t ≡ true
      → (contains t bound ≡ true) × (allowed_pair allow source t ≡ false)
  unfolding is_target
  is_target_lem t h = let (target, denied) = and_true _ _ h in (target, not-true _ denied)

  target_lem :
      (t : Str)
      → contains t bound ≡ true
      → allowed_pair allow source t ≡ false
      → is_target allow bound source t ≡ true
  unfolding is_target
  target_lem t target denied = and_both _ _ target (ap not denied)

  -- A visit adds something exactly when there is a bypass.
  pub found_iff : (some_element found ≡ true) ↔ Bypass g allow through bound source
  found_iff = (
    λ h. elim (or_true _ _ (sym (any-append (λ x. true) _ _) ∙ h)) [
      | inl f ↦
          let (fn, m, p) =
            any_witness (λ fn. not (fn == source) && is_target allow bound source fn) guarded_cone
              (sym some-functions ∙ f) in
          let (other, target) = and_true _ _ p in
          past_function fn (λ e. true_ne_false (sym ((eq_iff fn source).1 e) ∙ not-true _ other))
            ((contains-guarded_cone fn).0 (In-contains m)) (is_target_lem fn target).0
            (is_target_lem fn target).1
      | inr f ↦
          let (e, m, p) = any_witness hits g.edges (sym some-effects ∙ f) in
          let (bound_edge, rest) = and_true _ _ p in
          let (in_cone, target) = and_true _ _ rest in
          past_effect e m bound_edge ((contains-guarded_cone e.from).0 in_cone)
            (is_target_lem e.to target).0 (is_target_lem e.to target).1
    ],
    λ b. any-append (λ x. true) _ _ ∙ either b,
  )
    where
      either :
          Bypass g allow through bound source
          → (some_element (
                function_bypasses allow bound source guarded_cone
                  (guarded_walk (new_index g) source through).1)
              || some_element (
                  effect_bypasses allow bound source
                    (keep
                      (λ (e : Edge). contains e.from guarded_cone)
                      (boundary_edge_occurrences (new_index g)))
                    (guarded_walk (new_index g) source through).1))
            ≡ true
      either (past_function t n trail target denied) = or_left _ _ (
          some-functions
          ∙ any-In (λ fn. not (fn == source) && is_target allow bound source fn)
              (contains-In t guarded_cone ((contains-guarded_cone t).1 trail))
              (and_both _ _ (ne_not t source n) (target_lem t target denied)))
      either (past_effect e m b trail target denied) = or_right _ _ (
          some-effects
          ∙ any-In hits m (
              and_both _ _ b (
                and_both _ _ ((contains-guarded_cone e.from).1 trail)
                  (target_lem e.to target denied))))
