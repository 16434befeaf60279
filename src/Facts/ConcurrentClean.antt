-- ===== src/Facts/ConcurrentClean.antt =====
-- When the concurrent surface is proved free of a target: the "clean" answer of
-- internal/groundwork/facts/concurrent.go.
use verdi_go.Prelude.{
  ◌≡◌, refl, sym, ◌∙◌, ◌≢◌, ◌↔◌, inl, inr, Bool, true, false, ◌&&◌, Option, none, some, List, [],
  ◌∷◌, Bool-cases, any, first_where, any-keep, any-pointwise, bool_Eq, ◌==◌, nat_Eq, contains,
  list_Eq, Str, Str_Eq, any-sort_by, pair_Eq,
}
use verdi_go.Graph.Types.{Graph, Edge, BlindSpot, is_boundary, is_dynamic}
use verdi_go.Graph.Index.{new_index}
use verdi_go.Graph.Surface
use verdi_go.Facts.Types.{BlindWitness}
use verdi_go.Facts.Match.{canonical_boundary_edges, bind_targets, dead_selectors}
use verdi_go.Facts.Frontier.{blind_frontier}
use verdi_go.Facts.Visibility.{dynamic_at, IsVisible, or_else-none}
use verdi_go.Facts.FrontierLaws.{dynamic_of, dynamic_of-owned, blind_frontier_iff}
use verdi_go.Facts.Concurrent.{
  ConcurrentResult, ConcurrentWitness, concurrent_clean, concurrent_hit, concurrent_cone,
  concurrent_direct, concurrent_cone_effects, concurrent_dispatch, first_or_empty, boundary_witness,
  dispatch_witness, concurrent_blind_witness, build_concurrent_surface, conclude_hits,
  evaluate_targets, evaluate_concurrent, surface_hits, canonical_concurrent_witnesses,
}
use verdi_go.Facts.ConcurrentLaws.{InSurface, SurfaceHit, surface_cone_iff, any-canonical}
use verdi_go.Facts.ConcurrentAnswers.{evaluate_concurrent-hit}

-- Nothing concurrent is hidden: the functions of the surface are visible, no concurrent boundary edge has a
-- label that could not be named, and no spawn could not be resolved.
pub record SurfaceIsVisible (g : Graph) : Type 0 where
  pub functions : (fn : Str) → InSurface g fn → IsVisible g fn
  pub direct_named :
      any (λ (e : Edge). is_boundary e && (e.concurrent && is_dynamic e)) g.edges ≡ false
  pub dispatched : any (λ (b : BlindSpot). b.kind == concurrent_dispatch) g.blind_spots ≡ false

first_where-any {ℓ} :
    {A : Type ℓ} (p : A → Bool) (xs : List A) → (first_where p xs ≡ none) ↔ (any p xs ≡ false)
first_where-any p [] = (λ h. refl, λ h. refl)
first_where-any p (x ∷ xs) =
    let i = first_where-any p xs in
    elim (Bool-cases (p x)) [ inl e ↦ rw e (λ h. cc, λ h. cc) | inr e ↦ rw e (i.0, i.1) ]

boundary_witness-none : (o : Option Edge) → (boundary_witness o ≡ none) ↔ (o ≡ none)
boundary_witness-none none = (λ h. refl, λ h. refl)
boundary_witness-none (some e) = (λ h. cc, λ h. cc)

dispatch_witness-none : (o : Option BlindSpot) → (dispatch_witness o ≡ none) ↔ (o ≡ none)
dispatch_witness-none none = (λ h. refl, λ h. refl)
dispatch_witness-none (some b) = (λ h. cc, λ h. cc)

module _ (g : Graph) where
  abbrev cone : List Str
  cone = concurrent_cone (new_index g)

  abbrev cone_effects : List Edge
  cone_effects = concurrent_cone_effects (new_index g) cone

  owned : (fn : Str) → contains fn cone ≡ true → any (dynamic_of fn) cone_effects ≡ dynamic_at g fn
  unfolding concurrent_cone_effects
  owned fn m =
      any-keep (dynamic_of fn) (λ (e : Edge). contains e.from cone) _
      ∙ any-canonical g (λ (e : Edge). contains e.from cone && dynamic_of fn e)
      ∙ any-pointwise _ (dynamic_of fn) g.edges (dynamic_of-owned fn cone m)

  some_dynamic :
      any is_dynamic (concurrent_direct (new_index g))
      ≡ any (λ (e : Edge). is_boundary e && (e.concurrent && is_dynamic e)) g.edges
  unfolding concurrent_direct
  some_dynamic =
      any-keep is_dynamic (λ (e : Edge). e.concurrent) (canonical_boundary_edges (new_index g))
      ∙ any-canonical g (λ (e : Edge). e.concurrent && is_dynamic e)

  some_dispatch :
      any
        (λ (b : BlindSpot). b.kind == concurrent_dispatch)
        (Surface.sort_blind_spots (Surface.blind_spots (new_index g)))
      ≡ any (λ (b : BlindSpot). b.kind == concurrent_dispatch) g.blind_spots
  unfolding Surface.sort_blind_spots Surface.blind_spots new_index
  some_dispatch = any-sort_by _ (λ (b : BlindSpot). b.kind == concurrent_dispatch) g.blind_spots

  blind_witness_iff :
      (concurrent_blind_witness (new_index g) cone cone_effects (concurrent_direct (new_index g))
        ≡ none)
      ↔ SurfaceIsVisible g
  unfolding concurrent_blind_witness
  blind_witness_iff =
      let parts =
        or_else-none (blind_frontier (new_index g) (first_or_empty cone) cone cone_effects) _ in
      let later =
        or_else-none (boundary_witness (first_where is_dynamic (concurrent_direct (new_index g))))
          _ in
      let f = blind_frontier_iff g (first_or_empty cone) cone cone_effects owned in
      let d = first_where-any is_dynamic (concurrent_direct (new_index g)) in
      let s =
        first_where-any (λ (b : BlindSpot). b.kind == concurrent_dispatch)
          (Surface.sort_blind_spots (Surface.blind_spots (new_index g))) in
      (
        λ h.
            let (front, rest) = parts.0 h in
            let (direct, spots) = later.0 rest in
            record {
              functions = λ fn i. f.0 front fn ((surface_cone_iff g fn).1 i);
              direct_named = sym some_dynamic ∙ d.0 ((boundary_witness-none _).0 direct);
              dispatched = sym some_dispatch ∙ s.0 ((dispatch_witness-none _).0 spots);
            },
        λ v. parts.1 (
          f.1 (λ fn m. v.functions fn ((surface_cone_iff g fn).0 m)),
          later.1 (
            (boundary_witness-none _).1 (d.1 (some_dynamic ∙ v.direct_named)),
            (dispatch_witness-none _).1 (s.1 (some_dispatch ∙ v.dispatched)),
          ),
        ),
      )

-- Without a hit, the answer is clean exactly when no blind witness is there.
conclude-clean :
    (r : ConcurrentResult) (blind : Option BlindWitness)
    → (conclude_hits r blind).state ≢ concurrent_hit
    → ((conclude_hits r blind).state ≡ concurrent_clean) ↔ (blind ≡ none)
conclude-clean r blind n = by_cases r.hits blind refl n
  where
    by_cases :
        (ws : List ConcurrentWitness) (b : Option BlindWitness)
        → r.hits ≡ ws
        → (conclude_hits r b).state ≢ concurrent_hit
        → ((conclude_hits r b).state ≡ concurrent_clean) ↔ (b ≡ none)
    by_cases [] none e k = rw e (λ h. refl, λ h. refl)
    by_cases [] (some b) e k = rw e (λ h. cc, λ h. cc)
    by_cases (w ∷ ws) b e k = absurd (k (rw e refl))

targets-clean :
    (g : Graph) (bound dead : List Str)
    → (evaluate_targets (build_concurrent_surface (some (new_index g))) bound dead).state
      ≢ concurrent_hit
    → ((evaluate_targets (build_concurrent_surface (some (new_index g))) bound dead).state
        ≡ concurrent_clean)
      ↔ ((bound ≢ []) × SurfaceIsVisible g)
unfolding evaluate_targets build_concurrent_surface
targets-clean g [] dead n = (λ h. cc, λ v. absurd (v.0 refl))
targets-clean g (t ∷ ts) dead n =
    let surface = build_concurrent_surface (some (new_index g)) in
    let c =
      conclude-clean
        (record {
          state = concurrent_clean;
          to = t ∷ ts;
          hits = canonical_concurrent_witnesses (surface_hits surface (t ∷ ts));
          blind = none;
          unbound_to = dead;
        })
        surface.blind n in
    let b = blind_witness_iff g in (λ h. (some_target, b.0 (c.0 h)), λ v. c.1 (b.1 v.1))
  where
    some_target : t ∷ ts ≢ []
    some_target e = cc

-- Without a hit, the answer is clean exactly when some target is bound and nothing concurrent is hidden.
pub evaluate_concurrent-clean :
    (g : Graph) (to : List Str)
    → ¬ SurfaceHit g (bind_targets (new_index g) to)
    → ((evaluate_concurrent (build_concurrent_surface (some (new_index g))) to).state
        ≡ concurrent_clean)
      ↔ ((bind_targets (new_index g) to ≢ []) × SurfaceIsVisible g)
unfolding evaluate_concurrent build_concurrent_surface evaluate_targets
evaluate_concurrent-clean g to n =
    targets-clean g (bind_targets (new_index g) to) (dead_selectors (new_index g) to bind_targets)
      (λ h. n ((evaluate_concurrent-hit g to).0 h))
