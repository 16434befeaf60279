-- ===== src/Fitness/ConcurrentLaws.antt =====
-- When checkNoConcurrentReach (internal/groundwork/fitness/concurrent.go) and checkObligations
-- (obligations.go) let the graph pass.
use verdi_go.Prelude.{
  ◌≡◌, refl, sym, ◌∙◌, ◌≢◌, ◌↔◌, inl, inr, Bool, true, false, Option, none, some, List, [], ◌∷◌,
  arith, Bool-cases, true_ne_false, All, bool_Eq, ◌==◌, eq_iff, nat_Eq, list_Eq, Str, Str_Eq,
  pair_Eq, Format,
}
use verdi_go.Graph.Types.{Graph, Obligation}
use verdi_go.Graph.Index.{Index, new_index}
use verdi_go.Graph.Surface
use verdi_go.Facts.Types.{BlindWitness}
use verdi_go.Facts.Match.{bind_targets, dead_selectors}
use verdi_go.Facts.Concurrent.{
  ConcurrentState, ConcurrentSurface, ConcurrentResult, ConcurrentWitness, concurrent_unbound,
  concurrent_hit, concurrent_blind, concurrent_clean, evaluate_concurrent, evaluate_targets,
  conclude_hits, build_concurrent_surface, surface_hits, canonical_concurrent_witnesses,
}
use verdi_go.Facts.ConcurrentLaws.{SurfaceHit}
use verdi_go.Facts.ConcurrentAnswers.{evaluate_concurrent-hit}
use verdi_go.Facts.ConcurrentClean.{SurfaceIsVisible, evaluate_concurrent-clean}
use verdi_go.Facts.Obligation.{
  ObligationState, violated, classify_obligation_status, missing_data, unresolved, unknown,
  cant_prove, unmatched, satisfied, status_violated,
}
use verdi_go.Policy.Types.{Policy, ConcurrentRule}
use verdi_go.Fitness.Messages.{unbindable_target_finding}
use verdi_go.Fitness.Breaks.{breaks, unproved-rank, breaks-flat_map}
use verdi_go.Fitness.Concurrent.{
  hit_finding, blind_concurrent_finding, concurrent_findings, check_no_concurrent_reach,
  state_findings, obligation_findings, check_obligations,
}

abbrev breaks_by : ConcurrentState → Bool → Bool
breaks_by concurrent_hit b = true
breaks_by concurrent_clean b = false
breaks_by concurrent_blind b = b
breaks_by concurrent_unbound b = b

breaks_by_iff :
    (s : ConcurrentState) (b : Bool)
    → (breaks_by s b ≡ false) ↔ ((s ≢ concurrent_hit) × (b ≡ true → s ≡ concurrent_clean))
breaks_by_iff concurrent_hit b = (λ h. cc, λ h. absurd (h.0 refl))
breaks_by_iff concurrent_clean b = (λ h. (λ k. cc, λ k. refl), λ h. refl)
breaks_by_iff concurrent_blind true = (λ h. cc, λ h. cc (h.1 refl))
breaks_by_iff concurrent_blind false = (λ h. (λ k. cc, λ k. cc), λ h. refl)
breaks_by_iff concurrent_unbound true = (λ h. cc, λ h. cc (h.1 refl))
breaks_by_iff concurrent_unbound false = (λ h. (λ k. cc, λ k. cc), λ h. refl)

module _ (rule : ConcurrentRule) where
  hits-breaks :
      (r : ConcurrentResult) (blind : Option BlindWitness)
      → breaks (concurrent_findings rule (conclude_hits r blind))
        ≡ breaks_by (conclude_hits r blind).state rule.require_proof
  unfolding concurrent_findings hit_finding blind_concurrent_finding
  hits-breaks r blind = by_cases r.hits blind refl
    where
      by_cases :
          (ws : List ConcurrentWitness) (b : Option BlindWitness)
          → r.hits ≡ ws
          → breaks (concurrent_findings rule (conclude_hits r b))
            ≡ breaks_by (conclude_hits r b).state rule.require_proof
      by_cases [] none e = rw e refl
      by_cases [] (some b) e = rw e (ground (arith, unproved-rank rule.require_proof))
      by_cases (w ∷ ws) b e = rw e refl

  targets-breaks :
      (s : ConcurrentSurface) (bound dead : List Str)
      → breaks (concurrent_findings rule (evaluate_targets s bound dead))
        ≡ breaks_by (evaluate_targets s bound dead).state rule.require_proof
  unfolding evaluate_targets concurrent_findings unbindable_target_finding
  targets-breaks s [] dead = ground (arith, unproved-rank rule.require_proof)
  targets-breaks s (t ∷ ts) dead =
      hits-breaks
        (record {
          state = concurrent_clean;
          to = t ∷ ts;
          hits = canonical_concurrent_witnesses (surface_hits s (t ∷ ts));
          blind = none;
          unbound_to = dead;
        })
        s.blind

module _ (g : Graph) (rule : ConcurrentRule) where
  abbrev answer : ConcurrentResult
  answer = evaluate_concurrent (build_concurrent_surface (some (new_index g))) rule.to

  pub record ConcurrentHolds : Type 0 where
    pub avoided : ¬ SurfaceHit g (bind_targets (new_index g) rule.to)
    pub proven :
        rule.require_proof ≡ true → (bind_targets (new_index g) rule.to ≢ []) × SurfaceIsVisible g

  answer-breaks :
      breaks (concurrent_findings rule answer) ≡ breaks_by answer.state rule.require_proof
  unfolding evaluate_concurrent build_concurrent_surface
  answer-breaks =
      targets-breaks rule (build_concurrent_surface (some (new_index g)))
        (bind_targets (new_index g) rule.to) (dead_selectors (new_index g) rule.to bind_targets)

  answer-ConcurrentHolds : (breaks (concurrent_findings rule answer) ≡ false) ↔ ConcurrentHolds
  answer-ConcurrentHolds =
      let hit = evaluate_concurrent-hit g rule.to in
      let s = breaks_by_iff answer.state rule.require_proof in
      (
        λ h.
            let (n, proof) = s.0 (sym answer-breaks ∙ h) in
            let avoided : ¬ SurfaceHit g (bind_targets (new_index g) rule.to) = λ k. n (hit.1 k) in
            record {
              avoided = avoided;
              proven = λ q. (evaluate_concurrent-clean g rule.to avoided).0 (proof q);
            },
        λ v.
            answer-breaks
            ∙ s.1 (
              λ k. v.avoided (hit.0 k),
              λ q. (evaluate_concurrent-clean g rule.to v.avoided).1 (v.proven q),
            ),
      )

-- The concurrency rules bring no violation exactly when each of them holds: no bound target is on the concurrent
-- surface, and where proof is required some target is bound and nothing concurrent is hidden.
pub check_no_concurrent_reach-ConcurrentHolds :
    (p : Policy) (g : Graph)
    → (breaks (check_no_concurrent_reach p (build_concurrent_surface (some (new_index g)))) ≡ false)
      ↔ All (ConcurrentHolds g) p.no_concurrent_reach
unfolding check_no_concurrent_reach
check_no_concurrent_reach-ConcurrentHolds p g =
    breaks-flat_map _ (ConcurrentHolds g) (answer-ConcurrentHolds g) p.no_concurrent_reach

pub record NotViolated (o : Obligation) : Type 0 where
  pub status : o.status ≢ status_violated

classify-violated :
    (status : Str) → (classify_obligation_status status ≡ violated) ↔ (status ≡ status_violated)
unfolding classify_obligation_status
classify-violated status = elim (Bool-cases (status == status_violated)) [
  | inl e ↦ rw e (λ h. (eq_iff status status_violated).0 e, λ h. refl)
  | inr n ↦ (
    λ h. absurd (other n h),
    λ h. absurd (true_ne_false (sym ((eq_iff status status_violated).1 h) ∙ n)),
  )
]
  where
    other : (status == status_violated) ≡ false → classify_obligation_status status ≡ violated → ⊥
    other n h = ground arith

state-breaks :
    (format : Format) (o : Obligation) (s : ObligationState)
    → (breaks (state_findings format o s) ≡ false) ↔ (s ≢ violated)
unfolding state_findings
state-breaks format o violated = (λ h. cc, λ v. absurd (v refl))
state-breaks format o missing_data = (λ h k. cc, λ v. refl)
state-breaks format o unresolved = (λ h k. cc, λ v. refl)
state-breaks format o unknown = (λ h k. cc, λ v. refl)
state-breaks format o cant_prove = (λ h k. cc, λ v. refl)
state-breaks format o unmatched = (λ h k. cc, λ v. refl)
state-breaks format o satisfied = (λ h k. cc, λ v. refl)

obligation-breaks :
    (format : Format) (o : Obligation)
    → (breaks (obligation_findings format o) ≡ false) ↔ NotViolated o
unfolding obligation_findings
obligation-breaks format o =
    let s = state-breaks format o (classify_obligation_status o.status) in
    let c = classify-violated o.status in
    (λ h. record { status = λ k. s.0 h (c.1 k) }, λ v. s.1 (λ k. v.status (c.0 k)))

-- The obligations bring no violation exactly when no record has the status VIOLATED.
pub check_obligations-NotViolated :
    (format : Format) (ix : Index)
    → (breaks (check_obligations format ix) ≡ false) ↔ All NotViolated (Surface.obligations ix)
unfolding check_obligations
check_obligations-NotViolated format ix =
    breaks-flat_map _ NotViolated (obligation-breaks format) (Surface.obligations ix)
