-- ===== src/Facts/ConcurrentAnswers.antt =====
-- Evaluate as its callers see it (internal/groundwork/facts/concurrent.go).
use verdi_go.Prelude.{
  ◌≡◌, refl, sym, ◌∙◌, ◌↔◌, Bool, true, false, Option, none, some, List, [], ◌∷◌, arith,
  true_ne_false, bool_Eq, nat_Eq, compact, list_Eq, contains_nil, contains-compact, Str, Str_Eq,
  sort_by, contains-sort_by, pair_Eq,
}
use verdi_go.Graph.Types.{Graph}
use verdi_go.Graph.Index.{new_index}
use verdi_go.Facts.Types.{Edge_Eq, BlindWitness}
use verdi_go.Facts.Match.{bind_targets, dead_selectors}
use verdi_go.Facts.PassThroughLaws.{some_element}
use verdi_go.Facts.Concurrent.{
  ConcurrentState, concurrent_hit, concurrent_clean, ConcurrentWitness, ConcurrentWitness_Eq,
  ConcurrentResult, build_concurrent_surface, concurrent_witness_less,
  canonical_concurrent_witnesses, surface_hits, conclude_hits, evaluate_targets,
  evaluate_concurrent,
}
use verdi_go.Facts.ConcurrentLaws.{
  any-members, SurfaceHit, on_direct, on_function, on_effect, hits_iff,
}

abbrev is_hit : ConcurrentState → Bool
is_hit concurrent_hit = true
is_hit _ = false

is_hit_iff : (s : ConcurrentState) → (is_hit s ≡ true) ↔ (s ≡ concurrent_hit)
is_hit_iff s = ground arith

is_hit-conclude_hits :
    (r : ConcurrentResult) (blind : Option BlindWitness)
    → is_hit r.state ≡ false
    → is_hit (conclude_hits r blind).state ≡ some_element r.hits
is_hit-conclude_hits r blind n = by_cases r.hits blind refl
  where
    by_cases :
        (hs : List ConcurrentWitness) (b : Option BlindWitness)
        → r.hits ≡ hs
        → is_hit (conclude_hits r b).state ≡ some_element r.hits
    by_cases [] none e = rw e refl
    by_cases [] (some b) e = rw e refl
    by_cases (h ∷ hs) b e = rw e refl

some-canonical :
    (ws : List ConcurrentWitness)
    → some_element (canonical_concurrent_witnesses ws) ≡ some_element ws
unfolding canonical_concurrent_witnesses
some-canonical ws =
    any-members (λ x. true) (compact (sort_by concurrent_witness_less ws)) ws
      (λ a.
        contains-compact a (sort_by concurrent_witness_less ws)
        ∙ contains-sort_by concurrent_witness_less a ws)

evaluate_targets-hit :
    (g : Graph) (bound dead : List Str)
    → ((evaluate_targets (build_concurrent_surface (some (new_index g))) bound dead).state
        ≡ concurrent_hit)
      ↔ SurfaceHit g bound
unfolding evaluate_targets
evaluate_targets-hit g [] dead = (λ h. cc, λ k. absurd (no_target k))
  where
    no_target : SurfaceHit g [] → ⊥
    no_target (on_direct e m b c t) = true_ne_false (sym t ∙ contains_nil e.to)
    no_target (on_function f s t) = true_ne_false (sym t ∙ contains_nil f)
    no_target (on_effect e m b s t) = true_ne_false (sym t ∙ contains_nil e.to)
evaluate_targets-hit g (t ∷ ts) dead =
    let surface = build_concurrent_surface (some (new_index g)) in
    let hits = canonical_concurrent_witnesses (surface_hits surface (t ∷ ts)) in
    let r : ConcurrentResult = record {
      state = concurrent_clean;
      to = t ∷ ts;
      hits = hits;
      blind = none;
      unbound_to = dead;
    } in
    let same : is_hit (conclude_hits r surface.blind).state
        ≡ some_element (surface_hits surface (t ∷ ts)) =
      is_hit-conclude_hits r surface.blind refl ∙ some-canonical (surface_hits surface (t ∷ ts)) in
    (
      λ h. (hits_iff g (t ∷ ts)).0 (sym same ∙ (is_hit_iff _).1 h),
      λ k. (is_hit_iff _).0 (same ∙ (hits_iff g (t ∷ ts)).1 k),
    )

-- The answer is a hit exactly when a bound target is on the concurrent surface: the label of a concurrent
-- boundary edge, a declared function that a concurrent call edge leads to, a function that calls lead to from
-- such a one, or the label of a boundary edge of any of these functions.
pub evaluate_concurrent-hit :
    (g : Graph) (to : List Str)
    → ((evaluate_concurrent (build_concurrent_surface (some (new_index g))) to).state
        ≡ concurrent_hit)
      ↔ SurfaceHit g (bind_targets (new_index g) to)
unfolding evaluate_concurrent build_concurrent_surface
evaluate_concurrent-hit g to =
    evaluate_targets-hit g (bind_targets (new_index g) to)
      (dead_selectors (new_index g) to bind_targets)
