-- ===== src/Fitness/PassThroughLaws.antt =====
-- When checkMustPassThrough (internal/groundwork/fitness/passthrough.go), checkNoConcurrentReach
-- (concurrent.go) and checkObligations (obligations.go) let a rule pass.
use verdi_go.Prelude.{
  ◌≡◌, refl, sym, ◌∙◌, ◌≢◌, ◌↔◌, inl, inr, Bool, true, false, ◌||◌, Option, none, some, List, [],
  ◌∷◌, map, arith, Bool-cases, or_false, is_nil, All, bool_Eq, nat_Eq, list_Eq, Str, Str_Eq,
  pair_Eq,
}
use verdi_go.Graph.Types.{Graph}
use verdi_go.Graph.Index.{new_index}
use verdi_go.Facts.Types.{
  PassThroughResult, PathWitness, BlindWitness, PassThroughState, pass_through_unbound,
  pass_through_bypassed, pass_through_guarded, pass_through_blind,
}
use verdi_go.Facts.Match.{bind_sources, bind_functions, bind_targets, no_strings}
use verdi_go.Facts.PassThrough.{
  evaluate_pass_through, evaluate_bound, bound_families, verdict, visit_sources, nothing_visited,
  sorted_bypasses, sorted_bypass_occurrences, Bypasses,
}
use verdi_go.Facts.PassThroughAnswers.{SomeBypass, evaluate_pass_through-bypassed}
use verdi_go.Facts.PassThroughGuard.{IsProof, unbypassed-guarded}
use verdi_go.Policy.Types.{Policy, PassRule}
use verdi_go.Fitness.Messages.{inert_rule_finding, unbindable_target_finding}
use verdi_go.Fitness.Breaks.{breaks, unproved-rank, breaks-flat_map}
use verdi_go.Fitness.PassThrough.{
  bypass_finding, blind_pass_finding, allow_pair, pass_input, pass_findings,
  check_must_pass_through,
}

-- What a state decides: the rule's findings break it, keep it, or break it where proof is required.
abbrev breaks_by : PassThroughState → Bool → Bool
breaks_by pass_through_bypassed b = true
breaks_by pass_through_guarded b = false
breaks_by pass_through_blind b = b
breaks_by pass_through_unbound b = b

breaks_by_iff :
    (s : PassThroughState) (b : Bool)
    → (breaks_by s b ≡ false)
      ↔ ((s ≢ pass_through_bypassed) × (b ≡ true → s ≡ pass_through_guarded))
breaks_by_iff pass_through_bypassed b = (λ h. cc, λ h. absurd (h.0 refl))
breaks_by_iff pass_through_guarded b = (λ h. (λ k. cc, λ k. refl), λ h. refl)
breaks_by_iff pass_through_blind true = (λ h. cc, λ h. cc (h.1 refl))
breaks_by_iff pass_through_blind false = (λ h. (λ k. cc, λ k. cc), λ h. refl)
breaks_by_iff pass_through_unbound true = (λ h. cc, λ h. cc (h.1 refl))
breaks_by_iff pass_through_unbound false = (λ h. (λ k. cc, λ k. cc), λ h. refl)

module _ (rule : PassRule) where
  -- Of families that bind something, the verdict decides.
  verdict-breaks :
      (r : PassThroughResult) (blind : Option BlindWitness)
      → is_nil r.from ≡ false
      → is_nil r.to ≡ false
      → breaks (pass_findings rule (verdict r blind))
        ≡ breaks_by (verdict r blind).state rule.require_proof
  unfolding pass_findings bypass_finding blind_pass_finding
  verdict-breaks r blind nf nt = by_cases r.bypass_occurrences blind refl
    where
      by_cases :
          (ws : List PathWitness) (b : Option BlindWitness)
          → r.bypass_occurrences ≡ ws
          → breaks (pass_findings rule (verdict r b))
            ≡ breaks_by (verdict r b).state rule.require_proof
      by_cases [] none e = rw (e, nf, nt) refl
      by_cases [] (some b) e = rw (e, nf, nt) (ground (arith, unproved-rank rule.require_proof))
      by_cases (w ∷ ws) b e = rw (e, nf, nt) refl

  unbound-breaks :
      (r : PassThroughResult)
      → (is_nil r.from || is_nil r.to) ≡ true
      → breaks (pass_findings rule r) ≡ rule.require_proof
  unfolding pass_findings inert_rule_finding unbindable_target_finding
  unbound-breaks r h = elim (Bool-cases (is_nil r.from)) [
    | inl e ↦ rw e (ground (arith, unproved-rank rule.require_proof))
    | inr e ↦
        let t : is_nil r.to ≡ true = ground arith in
        rw (e, t) (ground (arith, unproved-rank rule.require_proof))
  ]

no_strings_lem : (xs : List Str) → is_nil xs ≡ no_strings xs
no_strings_lem [] = refl
no_strings_lem (x ∷ xs) = refl

module _ (g : Graph) (rule : PassRule) where
  -- The bypasses, over the families that the rule binds.
  pub record PassHolds : Type 0 where
    pub guarded :
        ¬ SomeBypass g
          (map allow_pair rule.allow)
          (bind_functions (new_index g) rule.through)
          (bind_targets (new_index g) rule.to)
          (bind_sources (new_index g) rule.from)
    pub proven : rule.require_proof ≡ true → IsProof g (pass_input rule)

  fact-breaks :
      breaks (pass_findings rule (evaluate_pass_through (some (new_index g)) (pass_input rule)))
      ≡ breaks_by
          (evaluate_pass_through (some (new_index g)) (pass_input rule)).state
          rule.require_proof
  unfolding evaluate_pass_through evaluate_bound
  fact-breaks =
      let sources = bind_sources (new_index g) rule.from in
      let bound = bind_targets (new_index g) rule.to in
      elim (Bool-cases (no_strings sources || no_strings bound)) [
        | inl e ↦ rw e (
            unbound-breaks rule (bound_families (new_index g) (pass_input rule))
              (ground (arith, e, no_strings_lem sources, no_strings_lem bound)))
        | inr e ↦
            let (f, t) = or_false _ _ e in
            rw e (
              verdict-breaks rule
                (record (bound_families (new_index g) (pass_input rule)) {
                  bypasses = sorted_bypasses done.by_pair;
                  bypass_occurrences = sorted_bypass_occurrences done.occurrences;
                })
                done.first_blind (no_strings_lem sources ∙ f) (no_strings_lem bound ∙ t))
      ]
    where
      done : Bypasses
      done =
          visit_sources (new_index g) (map allow_pair rule.allow)
            (bind_functions (new_index g) rule.through) (bind_targets (new_index g) rule.to)
            (bind_sources (new_index g) rule.from) nothing_visited

  fact-PassHolds :
      (breaks (pass_findings rule (evaluate_pass_through (some (new_index g)) (pass_input rule)))
        ≡ false)
      ↔ PassHolds
  fact-PassHolds =
      let b = evaluate_pass_through-bypassed g (pass_input rule) in
      let state = (evaluate_pass_through (some (new_index g)) (pass_input rule)).state in
      let s = breaks_by_iff state rule.require_proof in
      (
        λ h.
            let (n, proof) = s.0 (sym fact-breaks ∙ h) in
            record {
              guarded = λ k. n (b.1 k);
              proven = λ q. (unbypassed-guarded g (pass_input rule) n).0 (proof q);
            },
        λ v.
            let n : state ≢ pass_through_bypassed = λ k. v.guarded (b.0 k) in
            fact-breaks ∙ s.1 (n, λ q. (unbypassed-guarded g (pass_input rule) n).1 (v.proven q)),
      )

-- The waypoint rules bring no violation exactly when each of them holds: no bound source outside the waypoints
-- has a way to a bound target that enters no waypoint and that no exception allows, and where proof is required
-- both families bind something and nothing on the ways around the waypoints is hidden.
pub check_must_pass_through-PassHolds :
    (p : Policy) (g : Graph)
    → (breaks (check_must_pass_through p (new_index g)) ≡ false)
      ↔ All (PassHolds g) p.must_pass_through
unfolding check_must_pass_through
check_must_pass_through-PassHolds p g =
    breaks-flat_map _ (PassHolds g) (fact-PassHolds g) p.must_pass_through
