-- ===== src/Fitness/ReachLaws.antt =====
-- When checkMustNotReach of internal/groundwork/fitness/reach.go lets a rule pass.
use verdi_go.Prelude.{
  ◌≡◌, refl, sym, ◌∙◌, ◌≢◌, ◌↔◌, inl, inr, true, false, some, List, [], arith, Bool-cases,
  true_ne_false, is_nil, All, bool_Eq, nat_Eq, list_Eq, Str_Eq, pair_Eq,
}
use verdi_go.Graph.Types.{Graph}
use verdi_go.Graph.Index.{new_index}
use verdi_go.Facts.Types.{ReachResult, reach_unbound}
use verdi_go.Facts.Match.{bind_sources, bind_targets}
use verdi_go.Facts.Reach.{evaluate_reach}
use verdi_go.Facts.ReachVerdict.{SomeHit}
use verdi_go.Facts.ReachLaws.{
  AllClear, Report, nothing_bound, way_found, proved_absent, went_blind, evaluate_reach-Report,
  hit-families,
}
use verdi_go.Policy.Types.{Policy, ReachRule}
use verdi_go.Fitness.Findings.{Finding}
use verdi_go.Fitness.Messages.{inert_rule_finding, unbindable_target_finding}
use verdi_go.Fitness.Breaks.{breaks, unproved-rank, breaks-flat_map}
use verdi_go.Fitness.Reach.{
  reach_finding, blind_reach_finding, reach_findings, check_must_not_reach,
}

pub record ReachHolds (g : Graph) (rule : ReachRule) : Type 0 where
  pub avoided :
      ¬ SomeHit g (bind_targets (new_index g) rule.to) (bind_sources (new_index g) rule.from)
  pub proven :
      rule.require_proof ≡ true
      → (bind_sources (new_index g) rule.from ≢ [])
        × (bind_targets (new_index g) rule.to ≢ [])
        × AllClear g (bind_sources (new_index g) rule.from) (bind_targets (new_index g) rule.to)

module _ (g : Graph) (rule : ReachRule) where
  -- An answer that leaves the matter open breaks the rule exactly where proof is required.
  open_iff :
      (fs : List Finding)
      → breaks fs ≡ rule.require_proof
      → ¬ SomeHit g (bind_targets (new_index g) rule.to) (bind_sources (new_index g) rule.from)
      → ((bind_sources (new_index g) rule.from ≢ [])
            × (bind_targets (new_index g) rule.to ≢ [])
            × AllClear g (bind_sources (new_index g) rule.from) (bind_targets (new_index g) rule.to)
          → ⊥)
      → (breaks fs ≡ false) ↔ ReachHolds g rule
  open_iff fs e n u = (
    λ h. record { avoided = n; proven = λ p. absurd (true_ne_false (sym p ∙ sym e ∙ h)) },
    λ v. elim (Bool-cases rule.require_proof) [ inl p ↦ absurd (u (v.proven p)) | inr p ↦ e ∙ p ],
  )

  unbound-breaks :
      (r : ReachResult)
      → r.state ≡ reach_unbound
      → breaks (reach_findings rule r) ≡ rule.require_proof
  unfolding reach_findings inert_rule_finding unbindable_target_finding
  unbound-breaks r s = elim (Bool-cases (is_nil r.from)) [
    | inl e ↦ rw (s, e) (ground (arith, unproved-rank rule.require_proof))
    | inr e ↦ rw (s, e) (ground (arith, unproved-rank rule.require_proof))
  ]

  Report-iff :
      (r : ReachResult)
      → Report g (bind_sources (new_index g) rule.from) (bind_targets (new_index g) rule.to) r
      → (breaks (reach_findings rule r) ≡ false) ↔ ReachHolds g rule
  unfolding reach_findings reach_finding blind_reach_finding
  Report-iff r (nothing_bound (inl e) s p b) =
      open_iff (reach_findings rule r) (unbound-breaks r s) (λ h. (hit-families h).0 e) (λ k. k.0 e)
  Report-iff r (nothing_bound (inr e) s p b) =
      open_iff (reach_findings rule r) (unbound-breaks r s) (λ h. (hit-families h).1 e) (λ k. k.1 e)
  Report-iff r (way_found w s p b m x h) = rw (s, p) (λ k. cc, λ v. absurd (v.avoided h))
  Report-iff r (proved_absent ns nt s p b n c) =
      rw s (λ k. record { avoided = n; proven = λ q. (ns, nt, c) }, λ v. refl)
  Report-iff r (went_blind w ns nt s p b n c) =
      open_iff (reach_findings rule r) (rw s (ground (arith, unproved-rank rule.require_proof))) n
        (λ k. c k.2)

-- The rules against reaching bring no violation exactly when each of them holds: no bound source reaches a bound
-- target, and where proof is required both families bind something and nothing that a source reaches is
-- opaque.
pub check_must_not_reach-ReachHolds :
    (p : Policy) (g : Graph)
    → (breaks (check_must_not_reach p (new_index g)) ≡ false) ↔ All (ReachHolds g) p.must_not_reach
unfolding check_must_not_reach
check_must_not_reach-ReachHolds p g =
    breaks-flat_map _ (ReachHolds g)
      (λ rule.
        Report-iff g rule (evaluate_reach (some (new_index g)) rule.from rule.to)
          (evaluate_reach-Report g rule.from rule.to))
      p.must_not_reach
