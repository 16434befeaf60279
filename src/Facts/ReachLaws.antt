-- ===== src/Facts/ReachLaws.antt =====
-- What EvaluateReach answers (internal/groundwork/facts/reach.go).
use verdi_go.Prelude.{
  ◌≡◌, refl, sym, subst, ◌∙◌, ◌≢◌, ◌↔◌, ◌⊎◌, inl, inr, true, none, some, List, [], ◌∷◌, Bool-cases,
  true_ne_false, In, not-In_nil, nat_Eq, bool_Eq, contains, list_Eq, contains_nil, Str, Str_Eq,
  pair_Eq, here, there,
}
use verdi_go.Graph.Types.{Graph}
use verdi_go.Graph.Index.{new_index}
use verdi_go.Facts.Types.{
  PathWitness, BlindWitness, reach_unbound, reach_found, reach_absent, reach_blind, ReachResult,
}
use verdi_go.Facts.Match.{bind_sources, bind_targets, no_strings, dead_selectors}
use verdi_go.Facts.Reach.{Searched, conclude, evaluate_reach_bindings, evaluate_reach}
use verdi_go.Facts.ReachSearch.{Hit, at_function, at_effect, IsWitness}
use verdi_go.Facts.ReachVerdict.{IsClear, SomeHit, Verdict, witnessed, missed, search_all-Verdict}

pub no_strings_iff : (xs : List Str) → (no_strings xs ≡ true) ↔ (xs ≡ [])
no_strings_iff [] = (λ h. refl, λ h. refl)
no_strings_iff (x ∷ xs) = (λ h. cc, λ h. cc)

module _ (g : Graph) (sources targets : List Str) where
  pub record AllClear : Type 0 where
    pub clear : (s : Str) → In s sources → IsClear g s

  -- The four shapes of an answer, each with what it says of the graph.
  pub data Report (r : ReachResult) : Type 0 where
    nothing_bound :
        ((sources ≡ []) ⊎ (targets ≡ []))
        → r.state ≡ reach_unbound
        → r.paths ≡ []
        → r.blind ≡ none
        → Report r
    way_found :
        (w : PathWitness)
        → r.state ≡ reach_found
        → r.paths ≡ w ∷ []
        → r.blind ≡ none
        → In w.from sources
        → IsWitness g targets w
        → SomeHit g targets sources
        → Report r
    proved_absent :
        sources ≢ []
        → targets ≢ []
        → r.state ≡ reach_absent
        → r.paths ≡ []
        → r.blind ≡ none
        → ¬ SomeHit g targets sources
        → AllClear
        → Report r
    went_blind :
        (b : BlindWitness)
        → sources ≢ []
        → targets ≢ []
        → r.state ≡ reach_blind
        → r.paths ≡ []
        → r.blind ≡ some b
        → ¬ SomeHit g targets sources
        → ¬ AllClear
        → Report r

  conclude-Report :
      (r : ReachResult) {s : Searched}
      → sources ≢ []
      → targets ≢ []
      → r.paths ≡ []
      → r.blind ≡ none
      → Verdict g targets sources none s
      → Report (conclude r s)
  conclude-Report r ns nt p b (witnessed w m x h) =
      way_found w refl refl b m x (record { source = w.from; is_source = m; way = h })
  conclude-Report r ns nt p b (missed none n i) =
      proved_absent ns nt refl p b (λ h. n h.source h.is_source h.way)
        (record { clear = (i.0 refl).1 })
  conclude-Report r ns nt p b (missed (some w) n i) =
      went_blind w ns nt refl p refl (λ h. n h.source h.is_source h.way)
        (λ h. some_ne_none (i.1 (refl, h.clear)))
    where
      some_ne_none : {b : BlindWitness} → some b ≡ none → ⊥
      some_ne_none k = cc

  pub evaluate_reach_bindings-Report :
      (dead_from dead_to : List Str)
      → Report (evaluate_reach_bindings (new_index g) sources targets dead_from dead_to)
  unfolding evaluate_reach_bindings
  evaluate_reach_bindings-Report dead_from dead_to = elim (Bool-cases (no_strings sources)) [
    | inl e ↦ rw e (nothing_bound (inl ((no_strings_iff sources).0 e)) refl refl refl)
    | inr e ↦ elim (Bool-cases (no_strings targets)) [
      | inl f ↦ rw (e, f) (nothing_bound (inr ((no_strings_iff targets).0 f)) refl refl refl)
      | inr f ↦
          rw (e, f)
            (conclude-Report bound_result
              (λ k. true_ne_false (sym ((no_strings_iff sources).1 k) ∙ e))
              (λ k. true_ne_false (sym ((no_strings_iff targets).1 k) ∙ f)) refl refl
              (search_all-Verdict g targets sources none))
    ]
  ]
    where
      bound_result : ReachResult
      bound_result = record {
        state = reach_unbound;
        from = sources;
        to = targets;
        paths = [];
        blind = none;
        unbound_from = dead_from;
        unbound_to = dead_to;
      }

-- The answer to a question about selectors.
pub evaluate_reach-Report :
    (g : Graph) (from to : List Str)
    → Report g
        (bind_sources (new_index g) from)
        (bind_targets (new_index g) to)
        (evaluate_reach (some (new_index g)) from to)
unfolding evaluate_reach
evaluate_reach-Report g from to =
    evaluate_reach_bindings-Report g (bind_sources (new_index g) from)
      (bind_targets (new_index g) to) (dead_selectors (new_index g) from bind_sources)
      (dead_selectors (new_index g) to bind_targets)

pub hit-families :
    {g : Graph} {sources targets : List Str}
    → SomeHit g targets sources
    → (sources ≢ []) × (targets ≢ [])
hit-families {g} {sources} {targets} h =
    (λ e. not-In_nil (subst (In h.source) e h.is_source), λ e. no_target e h.way)
  where
    no_target : targets ≡ [] → Hit g h.source targets → ⊥
    no_target e (at_function t n path m) =
        true_ne_false (sym (subst (λ xs. contains t xs ≡ true) e m) ∙ contains_nil t)
    no_target e (at_effect owner t c f m) =
        true_ne_false (sym (subst (λ xs. contains t xs ≡ true) e m) ∙ contains_nil t)

module _ {g : Graph} {sources targets : List Str} {r : ReachResult} where
  pub Report-found :
      Report g sources targets r → (r.state ≡ reach_found) ↔ SomeHit g targets sources
  Report-found (nothing_bound (inl e) s p b) = (λ h. cc, λ h. absurd ((hit-families h).0 e))
  Report-found (nothing_bound (inr e) s p b) = (λ h. cc, λ h. absurd ((hit-families h).1 e))
  Report-found (way_found w s p b m x h) = (λ k. h, λ k. s)
  Report-found (proved_absent ns nt s p b n c) = (λ h. cc, λ h. absurd (n h))
  Report-found (went_blind w ns nt s p b n c) = (λ h. cc, λ h. absurd (n h))

  pub Report-absent :
      Report g sources targets r
      → (r.state ≡ reach_absent) ↔ (
          (sources ≢ [])
          × (targets ≢ [])
          × (¬ SomeHit g targets sources)
          × AllClear g sources targets)
  Report-absent (nothing_bound (inl e) s p b) = (λ h. cc, λ h. absurd (h.0 e))
  Report-absent (nothing_bound (inr e) s p b) = (λ h. cc, λ h. absurd (h.1 e))
  Report-absent (way_found w s p b m x h) = (λ k. cc, λ k. absurd (k.2 h))
  Report-absent (proved_absent ns nt s p b n c) = (λ h. (ns, nt, n, c), λ h. s)
  Report-absent (went_blind w ns nt s p b n c) = (λ h. cc, λ h. absurd (c h.3))

  pub Report-IsWitness :
      Report g sources targets r
      → (w : PathWitness) → In w r.paths
      → In w.from sources × IsWitness g targets w × (r.paths ≡ w ∷ [])
  Report-IsWitness (nothing_bound e s p b) w m = absurd (not-In_nil (subst (In w) p m))
  Report-IsWitness (way_found v s p b m x h) w k = by_place (subst (In w) p k)
    where
      by_place :
          {u : PathWitness}
          → In u (v ∷ [])
          → In u.from sources × IsWitness g targets u × (r.paths ≡ u ∷ [])
      by_place here = (m, x, p)
      by_place (there l) = absurd (not-In_nil l)
  Report-IsWitness (proved_absent ns nt s p b n c) w m = absurd (not-In_nil (subst (In w) p m))
  Report-IsWitness (went_blind v ns nt s p b n c) w m = absurd (not-In_nil (subst (In w) p m))

  pub Report-blind : Report g sources targets r → (r.blind ≡ none) ↔ (r.state ≢ reach_blind)
  Report-blind (nothing_bound e s p b) = (λ h k. cc, λ h. b)
  Report-blind (way_found w s p b m x h) = (λ h k. cc, λ h. b)
  Report-blind (proved_absent ns nt s p b n c) = (λ h k. cc, λ h. b)
  Report-blind (went_blind w ns nt s p b n c) = (λ h. cc, λ h. absurd (h s))
