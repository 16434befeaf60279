-- ===== src/Fitness/Upheld.antt =====
-- The gate of internal/groundwork/fitness against the policy: what a passing Check (fitness.go) says of the
-- graph.
use verdi_go.Prelude.{
  ◌≡◌, refl, sym, ap, ◌∙◌, ◌↔◌, inl, inr, true, false, ◌||◌, not, List, [], ◌∷◌, arith, Bool-cases,
  not-true, is_nil, All, bool_Eq, ◌==◌, nat_Eq, list_Eq, Str_Eq, pair_Eq, Format,
}
use verdi_go.Graph.Types.{Graph}
use verdi_go.Graph.Index.{new_index}
use verdi_go.Graph.Surface
use verdi_go.Policy.Types.{Policy, ConcurrentRule, effect_ratchet_coupling_caution}
use verdi_go.Fitness.Findings.{ok}
use verdi_go.Fitness.Gate.{ok-any, ok-sort}
use verdi_go.Fitness.Breaks.{breaks, breaks-append}
use verdi_go.Fitness.Reach.{check_must_not_reach}
use verdi_go.Fitness.ReachLaws.{ReachHolds, check_must_not_reach-ReachHolds}
use verdi_go.Fitness.PassThrough.{check_must_pass_through}
use verdi_go.Fitness.PassThroughLaws.{PassHolds, check_must_pass_through-PassHolds}
use verdi_go.Fitness.Concurrent.{check_obligations, check_ratchet_coupling}
use verdi_go.Fitness.ConcurrentLaws.{
  ConcurrentHolds, NotViolated, check_no_concurrent_reach-ConcurrentHolds,
  check_obligations-NotViolated,
}
use verdi_go.Fitness.Layering.{check_layering}
use verdi_go.Fitness.LayeringLaws.{LayeringHolds, check_layering-LayeringHolds}
use verdi_go.Fitness.Budget.{check_io_budget}
use verdi_go.Fitness.WriteBudget.{BudgetHolds, check_io_budget-BudgetHolds}
use verdi_go.Fitness.Check.{concurrent_part, check_all, check}

-- The policy as a statement about the graph, without findings.
pub record Upholds (p : Policy) (g : Graph) : Type 0 where
  pub layering : LayeringHolds p.layers (new_index g) p.layering
  pub reach : All (ReachHolds g) p.must_not_reach
  pub pass_through : All (PassHolds g) p.must_pass_through
  pub concurrent : All (ConcurrentHolds g) p.no_concurrent_reach
  pub budget : BudgetHolds p g p.io_budget
  pub obligations : All NotViolated g.obligations

breaks-coupling : (p : Policy) → breaks (check_ratchet_coupling p) ≡ false
unfolding check_ratchet_coupling
breaks-coupling p = elim (Bool-cases (effect_ratchet_coupling_caution p == [])) [
  | inl e ↦ rw e refl
  | inr e ↦ rw e refl
]

module _ (p : Policy) (g : Graph) where
  concurrent_part-ConcurrentHolds :
      (breaks (concurrent_part p (new_index g)) ≡ false)
      ↔ All (ConcurrentHolds g) p.no_concurrent_reach
  unfolding concurrent_part
  concurrent_part-ConcurrentHolds = elim (Bool-cases (is_nil p.no_concurrent_reach)) [
    | inl e ↦ rw e (λ h. nothing p.no_concurrent_reach e, λ v. refl)
    | inr e ↦ rw e (check_no_concurrent_reach-ConcurrentHolds p g)
  ]
    where
      nothing : (rs : List ConcurrentRule) → is_nil rs ≡ true → All (ConcurrentHolds g) rs
      nothing [] e = tt
      nothing (r ∷ rs) e = cc

  module _ (format : Format) where
    -- The parts, in the order in which they are checked.
    record AllQuiet : Type 0 where
      layering : breaks (check_layering format p (new_index g)) ≡ false
      reach : breaks (check_must_not_reach p (new_index g)) ≡ false
      pass_through : breaks (check_must_pass_through p (new_index g)) ≡ false
      concurrent : breaks (concurrent_part p (new_index g)) ≡ false
      budget : breaks (check_io_budget format p (new_index g)).0 ≡ false
      obligations : breaks (check_obligations format (new_index g)) ≡ false

    breaks-check_all : breaks (check_all format p (new_index g)) ≡ (
        breaks (check_layering format p (new_index g))
        || (breaks (check_must_not_reach p (new_index g))
            || (breaks (check_must_pass_through p (new_index g))
                || (breaks (concurrent_part p (new_index g))
                    || (breaks (check_io_budget format p (new_index g)).0
                        || (breaks (check_obligations format (new_index g))
                            || breaks (check_ratchet_coupling p)))))))
    unfolding check_all
    breaks-check_all =
        rw
          (
            breaks-append (check_layering format p (new_index g)) _,
            breaks-append (check_must_not_reach p (new_index g)) _,
            breaks-append (check_must_pass_through p (new_index g)) _,
            breaks-append (concurrent_part p (new_index g)) _,
            breaks-append (check_io_budget format p (new_index g)).0 _,
            breaks-append (check_obligations format (new_index g)) _,
          )
          refl

    all_quiet : (breaks (check_all format p (new_index g)) ≡ false) ↔ AllQuiet
    all_quiet = (
      λ h.
          let e = sym breaks-check_all ∙ h in
          record {
            layering = ground (arith, e);
            reach = ground (arith, e);
            pass_through = ground (arith, e);
            concurrent = ground (arith, e);
            budget = ground (arith, e);
            obligations = ground (arith, e);
          },
      λ q.
          breaks-check_all
          ∙ ground (
            arith,
            q.layering,
            q.reach,
            q.pass_through,
            q.concurrent,
            q.budget,
            q.obligations,
            breaks-coupling p,
          ),
    )

    ok-check :
        (ok (check format p (new_index g)).findings ≡ true)
        ↔ (breaks (check_all format p (new_index g)) ≡ false)
    unfolding check
    ok-check =
        let fs = check_all format p (new_index g) in
        let e = (ok-sort fs).1 ∙ ok-any fs in (λ h. not-true _ (sym e ∙ h), λ h. e ∙ ap not h)

    -- The gate passes exactly when the graph upholds the policy: the layering holds; no rule's sources have a way to
    -- its targets, nor one around its waypoints, and no concurrent surface has a forbidden target; where a rule
    -- requires proof, it binds something and nothing that it rests on is hidden; no route has more distinct
    -- writes than the budget allows; and no record of an obligation is VIOLATED.
    pub check-Upholds : (ok (check format p (new_index g)).findings ≡ true) ↔ Upholds p g
    unfolding Surface.obligations new_index
    check-Upholds = (
      λ h.
          let q = all_quiet.0 (ok-check.0 h) in
          record {
            layering = (check_layering-LayeringHolds format p (new_index g)).0 q.layering;
            reach = (check_must_not_reach-ReachHolds p g).0 q.reach;
            pass_through = (check_must_pass_through-PassHolds p g).0 q.pass_through;
            concurrent = concurrent_part-ConcurrentHolds.0 q.concurrent;
            budget = (check_io_budget-BudgetHolds format p g).0 q.budget;
            obligations = (check_obligations-NotViolated format (new_index g)).0 q.obligations;
          },
      λ u. ok-check.1 (
          all_quiet.1 (record {
            layering = (check_layering-LayeringHolds format p (new_index g)).1 u.layering;
            reach = (check_must_not_reach-ReachHolds p g).1 u.reach;
            pass_through = (check_must_pass_through-PassHolds p g).1 u.pass_through;
            concurrent = concurrent_part-ConcurrentHolds.1 u.concurrent;
            budget = (check_io_budget-BudgetHolds format p g).1 u.budget;
            obligations = (check_obligations-NotViolated format (new_index g)).1 u.obligations;
          })),
    )
