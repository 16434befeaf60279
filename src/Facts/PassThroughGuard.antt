-- ===== src/Facts/PassThroughGuard.antt =====
-- When the pass-through evaluation is a proof: the "guarded" answer of
-- internal/groundwork/facts/passthrough.go.
use verdi_go.Prelude.{
  ◌≡◌, refl, ◌∙◌, ◌≢◌, ◌↔◌, inl, inr, true, false, ◌&&◌, ◌||◌, Option, none, some, List, [], ◌∷◌,
  arith, Bool-cases, or_false, true_ne_false, any, keep, In, not-In_nil, any-keep, any-pointwise,
  bool_Eq, nat_Eq, contains, list_Eq, Str, Str_Eq, sort_by, any-sort_by, pair_Eq, here, there,
}
use verdi_go.Graph.Types.{Graph, Edge, is_boundary}
use verdi_go.Graph.Index.{new_index}
use verdi_go.Graph.Surface.{edges}
use verdi_go.Facts.Types.{
  PathWitness, BlindWitness, AllowPair, PassThroughInput, pass_through_guarded,
  pass_through_bypassed, PassThroughResult,
}
use verdi_go.Facts.Match.{
  bind_sources, bind_functions, bind_targets, no_strings, sort_boundary_edges, boundary_edge_less,
}
use verdi_go.Facts.Frontier.{blind_frontier}
use verdi_go.Facts.Visibility.{dynamic_at, IsVisible, or_else-none}
use verdi_go.Facts.FrontierLaws.{dynamic_of, dynamic_of-owned, blind_frontier_iff}
use verdi_go.Facts.PassThrough.{
  Bypasses, set_from, boundary_edge_occurrences, visit_source, visit_sources, nothing_visited,
  sorted_bypasses, sorted_bypass_occurrences, bound_families, verdict, evaluate_bound,
  evaluate_pass_through,
}
use verdi_go.Facts.PassThroughLaws.{GuardedTrail, guarded_cone, contains-guarded_cone}
use verdi_go.Facts.PassThroughAnswers.{SomeBypass, evaluate_pass_through-bypassed}

set_from-none : (s : Str) (b : Option BlindWitness) → (set_from s b ≡ none) ↔ (b ≡ none)
set_from-none s none = (λ h. refl, λ h. refl)
set_from-none s (some b) = (λ h. cc, λ h. cc)

module _ (g : Graph) (allow : List AllowPair) (through bound : List Str) where
  -- The boundary edges that one visit looks at.
  abbrev own_edges : Str → List Edge
  own_edges s =
      keep (λ (e : Edge). contains e.from (guarded_cone g allow through bound s))
        (boundary_edge_occurrences (new_index g))

  -- The blind witness that one visit may add.
  abbrev own_blind : Str → Option BlindWitness
  own_blind s = blind_frontier (new_index g) [] (guarded_cone g allow through bound s) (own_edges s)

  owned :
      (s fn : Str)
      → contains fn (guarded_cone g allow through bound s) ≡ true
      → any (dynamic_of fn) (own_edges s) ≡ dynamic_at g fn
  unfolding boundary_edge_occurrences sort_boundary_edges edges new_index
  owned s fn m =
      let cone = guarded_cone g allow through bound s in
      any-keep (dynamic_of fn) (λ (e : Edge). contains e.from cone)
        (sort_by boundary_edge_less (keep is_boundary g.edges))
      ∙ any-sort_by boundary_edge_less (λ (e : Edge). contains e.from cone && dynamic_of fn e)
          (keep is_boundary g.edges)
      ∙ any-keep (λ (e : Edge). contains e.from cone && dynamic_of fn e) is_boundary g.edges
      ∙ any-pointwise _ (dynamic_of fn) g.edges (dynamic_of-owned fn cone m)

  -- A visit finds nothing hidden exactly when all that it reaches outside the waypoints is visible.
  own_blind_iff :
      (s : Str) → (own_blind s ≡ none) ↔ ((fn : Str) → GuardedTrail g through s fn → IsVisible g fn)
  own_blind_iff s =
      let cone = guarded_cone g allow through bound s in
      let i = blind_frontier_iff g [] cone (own_edges s) (owned s) in
      let c = contains-guarded_cone g allow through bound s in
      (λ h fn trail. i.0 h fn ((c fn).1 trail), λ v. i.1 (λ fn m. v fn ((c fn).0 m)))

  visit_source-none :
      (s : Str) (st : Bypasses)
      → ((visit_source (new_index g) allow through bound s st).first_blind ≡ none)
        ↔ ((st.first_blind ≡ none) × (contains s through ≡ false → own_blind s ≡ none))
  unfolding visit_source
  visit_source-none s st = elim (Bool-cases (contains s through)) [
    | inl e ↦ rw e (λ h. (h, λ k. absurd (true_ne_false k)), λ v. v.0)
    | inr e ↦
        let both = or_else-none st.first_blind (set_from s (own_blind s)) in
        let own = set_from-none s (own_blind s) in
        rw e (
          λ h. let (before, mine) = both.0 h in (before, λ k. own.0 mine),
          λ v. both.1 (v.0, own.1 (v.1 refl)),
        )
  ]

  visit_sources-none :
      (sources : List Str) (st : Bypasses)
      → ((visit_sources (new_index g) allow through bound sources st).first_blind ≡ none) ↔ (
          (st.first_blind ≡ none)
          × ((s : Str) → In s sources → contains s through ≡ false → own_blind s ≡ none))
  unfolding visit_sources
  visit_sources-none [] st = (λ h. (h, λ s m. absurd (not-In_nil m)), λ v. v.0)
  visit_sources-none (x ∷ sources) st =
      let later =
        visit_sources-none sources (visit_source (new_index g) allow through bound x st) in
      let first = visit_source-none x st in
      (
        λ h.
            let (after, rest) = later.0 h in
            let (before, own) = first.0 after in (before, here_or_later own rest),
        λ v. later.1 (first.1 (v.0, v.1 x here), λ s m. v.1 s (there m)),
      )
    where
      here_or_later :
          (contains x through ≡ false → own_blind x ≡ none)
          → ((s : Str) → In s sources → contains s through ≡ false → own_blind s ≡ none)
          → (s : Str) → In s (x ∷ sources)
          → contains s through ≡ false
          → own_blind s ≡ none
      here_or_later own rest s here = own
      here_or_later own rest s (there m) = rest s m

-- What every bound source outside the waypoints reaches without entering a waypoint is visible.
abbrev pub WaysAreVisible : Graph → List Str → List Str → Type 0
WaysAreVisible g through sources =
    (source fn : Str)
    → In source sources
    → contains source through ≡ false
    → GuardedTrail g through source fn
    → IsVisible g fn

-- Without a bypass, the verdict is guarded exactly when no blind witness is there.
verdict-guarded :
    (r : PassThroughResult) (blind : Option BlindWitness)
    → (verdict r blind).state ≢ pass_through_bypassed
    → ((verdict r blind).state ≡ pass_through_guarded) ↔ (blind ≡ none)
verdict-guarded r blind n = by_cases r.bypass_occurrences blind refl n
  where
    by_cases :
        (ws : List PathWitness) (b : Option BlindWitness)
        → r.bypass_occurrences ≡ ws
        → (verdict r b).state ≢ pass_through_bypassed
        → ((verdict r b).state ≡ pass_through_guarded) ↔ (b ≡ none)
    by_cases [] none e k = rw e (λ h. refl, λ h. refl)
    by_cases [] (some b) e k = rw e (λ h. cc, λ h. cc)
    by_cases (w ∷ ws) b e k = absurd (k (rw e refl))

bound-guarded :
    (g : Graph) (allow : List AllowPair) (r : PassThroughResult)
    → (evaluate_bound (new_index g) allow r).state ≢ pass_through_bypassed
    → ((evaluate_bound (new_index g) allow r).state ≡ pass_through_guarded)
      ↔ WaysAreVisible g r.through r.from
unfolding evaluate_bound
bound-guarded g allow r n =
    let done = visit_sources (new_index g) allow r.through r.to r.from nothing_visited in
    let v =
      verdict-guarded
        (record r {
          bypasses = sorted_bypasses done.by_pair;
          bypass_occurrences = sorted_bypass_occurrences done.occurrences;
        })
        done.first_blind n in
    let w = visit_sources-none g allow r.through r.to r.from nothing_visited in
    let own = own_blind_iff g allow r.through r.to in
    (
      λ h s fn m out trail. (own s).0 ((w.0 (v.0 h)).1 s m out) fn trail,
      λ k. v.1 (w.1 (refl, λ s m out. (own s).1 (λ fn trail. k s fn m out trail))),
    )

no_strings_iff : (xs : List Str) → (no_strings xs ≡ false) ↔ (xs ≢ [])
no_strings_iff [] = (λ h. cc, λ n. absurd (n refl))
no_strings_iff (x ∷ xs) = (λ h k. cc, λ n. refl)

-- When a bypass-free answer is a proof: both families bind something and nothing on the ways is hidden.
pub record IsProof (g : Graph) (input : PassThroughInput) : Type 0 where
  pub some_source : bind_sources (new_index g) input.from ≢ []
  pub some_target : bind_targets (new_index g) input.to ≢ []
  pub visible :
      WaysAreVisible g
        (bind_functions (new_index g) input.through)
        (bind_sources (new_index g) input.from)

pub unbypassed-guarded :
    (g : Graph) (input : PassThroughInput)
    → (evaluate_pass_through (some (new_index g)) input).state ≢ pass_through_bypassed
    → ((evaluate_pass_through (some (new_index g)) input).state ≡ pass_through_guarded)
      ↔ IsProof g input
unfolding evaluate_pass_through
unbypassed-guarded g input n =
    let sources = bind_sources (new_index g) input.from in
    let bound = bind_targets (new_index g) input.to in
    elim (Bool-cases (no_strings sources || no_strings bound)) [
      | inl e ↦ rw e (λ h. cc, λ p. absurd (unbound p e))
      | inr e ↦
          let (f, t) = or_false _ _ e in
          let b = bound-guarded g input.allow (bound_families (new_index g) input) (rw e at n) in
          rw e (
            λ h. record {
              some_source = (no_strings_iff sources).0 f;
              some_target = (no_strings_iff bound).0 t;
              visible = b.0 h;
            },
            λ p. b.1 p.visible,
          )
    ]
  where
    unbound :
        IsProof g input
        → (no_strings (bind_sources (new_index g) input.from)
            || no_strings (bind_targets (new_index g) input.to))
          ≡ true
        → ⊥
    unbound p e = ground (
      arith,
      e,
      (no_strings_iff (bind_sources (new_index g) input.from)).1 p.some_source,
      (no_strings_iff (bind_targets (new_index g) input.to)).1 p.some_target,
    )

-- The answer is "guarded" exactly when both families bind something, no bound source outside the waypoints has a
-- way to a bound target that enters no waypoint and that no exception allows, and at every function that such a
-- source reaches without entering a waypoint nothing is hidden: no blind spot but the two kinds that only
-- disclose stands there or at its package, and no boundary effect of it has a label that could not be named.
pub evaluate_pass_through-guarded :
    (g : Graph) (input : PassThroughInput)
    → ((evaluate_pass_through (some (new_index g)) input).state ≡ pass_through_guarded) ↔ (
        (¬ SomeBypass g input.allow
          (bind_functions (new_index g) input.through)
          (bind_targets (new_index g) input.to)
          (bind_sources (new_index g) input.from))
        × IsProof g input)
evaluate_pass_through-guarded g input =
    let b = evaluate_pass_through-bypassed g input in
    (
      λ h.
          let n : (evaluate_pass_through (some (new_index g)) input).state ≢ pass_through_bypassed =
            λ k. cc in
          (λ s. n (b.1 s), (unbypassed-guarded g input n).0 h),
      λ v. (unbypassed-guarded g input (λ k. v.0 (b.0 k))).1 v.1,
    )
