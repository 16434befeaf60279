-- ===== src/Facts/PassThroughAnswers.antt =====
-- EvaluatePassThrough as its callers see it (internal/groundwork/facts/passthrough.go).
use verdi_go.Prelude.{
  ◌≡◌, refl, sym, ap, subst, ◌∙◌, ◌≢◌, ◌↔◌, inl, inr, Bool, true, false, ◌&&◌, ◌||◌, not, Option,
  none, some, List, [], ◌∷◌, arith, Bool-cases, and_true, or_true, true_ne_false, not-true,
  and_both, any, any-append, In, any-In, any_witness, not-In_nil, bool_Eq, nat_Eq, contains,
  list_Eq, contains_nil, Str, Str_Eq, sort_by, any-sort_by, pair_Eq,
}
use verdi_go.Graph.Types.{Graph}
use verdi_go.Graph.Index.{new_index}
use verdi_go.Facts.Types.{
  PathWitness, BlindWitness, AllowPair, PassThroughInput, PassThroughState, pass_through_unbound,
  pass_through_bypassed, PassThroughResult,
}
use verdi_go.Facts.Match.{bind_sources, bind_functions, bind_targets, no_strings}
use verdi_go.Facts.PassThrough.{
  Bypasses, occurrence_less, visit_source, visit_sources, nothing_visited, sorted_bypasses,
  bound_families, sorted_bypass_occurrences, verdict, evaluate_bound, evaluate_pass_through,
}
use verdi_go.Facts.PassThroughLaws.{
  Bypass, past_function, past_effect, some_element, found, found_iff,
}
use verdi_go.Facts.ReachLaws.{no_strings_iff}

module _ (g : Graph) (allow : List AllowPair) (through bound : List Str) where
  -- A source outside the waypoints with a bypass.
  pub record SomeBypass (sources : List Str) : Type 0 where
    pub source : Str
    pub is_source : In source sources
    pub outside : contains source through ≡ false
    pub way : Bypass g allow through bound source

  abbrev adds : Str → Bool
  adds s = not (contains s through) && some_element (found g allow through bound s)

  visit_source-occurrences :
      (s : Str) (st : Bypasses)
      → some_element (visit_source (new_index g) allow through bound s st).occurrences
        ≡ (some_element st.occurrences || adds s)
  unfolding visit_source
  visit_source-occurrences s st = elim (Bool-cases (contains s through)) [
    | inl e ↦ rw e (ground arith)
    | inr e ↦ rw e (any-append (λ x. true) st.occurrences (found g allow through bound s))
  ]

  visit_sources-occurrences :
      (sources : List Str) (st : Bypasses)
      → some_element (visit_sources (new_index g) allow through bound sources st).occurrences
        ≡ (some_element st.occurrences || any adds sources)
  unfolding visit_sources
  visit_sources-occurrences [] st = ground arith
  visit_sources-occurrences (s ∷ sources) st = ground (
    arith,
    visit_sources-occurrences sources (visit_source (new_index g) allow through bound s st),
    visit_source-occurrences s st,
  )

  SomeBypass-iff : (sources : List Str) → (any adds sources ≡ true) ↔ SomeBypass sources
  SomeBypass-iff sources = (
    λ h.
        let (s, m, p) = any_witness adds sources h in
        let (out, some_found) = and_true _ _ p in
        record {
          source = s;
          is_source = m;
          outside = not-true _ out;
          way = (found_iff g allow through bound s).0 some_found;
        },
    λ b.
        any-In adds b.is_source
          (and_both _ _ (ap not b.outside) ((found_iff g allow through bound b.source).1 b.way)),
  )

abbrev is_bypassed : PassThroughState → Bool
is_bypassed pass_through_bypassed = true
is_bypassed _ = false

is_bypassed_iff : (s : PassThroughState) → (is_bypassed s ≡ true) ↔ (s ≡ pass_through_bypassed)
is_bypassed_iff s = ground arith

abbrev is_unbound : PassThroughState → Bool
is_unbound pass_through_unbound = true
is_unbound _ = false

is_unbound_iff : (s : PassThroughState) → (is_unbound s ≡ true) ↔ (s ≡ pass_through_unbound)
is_unbound_iff s = ground arith

bypassed-verdict :
    (r : PassThroughResult) (blind : Option BlindWitness)
    → is_bypassed (verdict r blind).state ≡ some_element r.bypass_occurrences
bypassed-verdict r blind = by_cases r.bypass_occurrences blind refl
  where
    by_cases :
        (ws : List PathWitness) (b : Option BlindWitness)
        → r.bypass_occurrences ≡ ws
        → is_bypassed (verdict r b).state ≡ some_element r.bypass_occurrences
    by_cases [] none e = rw e refl
    by_cases [] (some b) e = rw e refl
    by_cases (w ∷ ws) b e = rw e refl

module _ (g : Graph) (allow : List AllowPair) (r : PassThroughResult) where
  bound_lem :
      is_bypassed (evaluate_bound (new_index g) allow r).state
      ≡ any (adds g allow r.through r.to) r.from
  unfolding evaluate_bound sorted_bypass_occurrences
  bound_lem =
      bypassed-verdict
        (record r {
          bypasses = sorted_bypasses done.by_pair;
          bypass_occurrences = sort_by occurrence_less done.occurrences;
        })
        done.first_blind
      ∙ any-sort_by occurrence_less (λ w. true) done.occurrences
      ∙ visit_sources-occurrences g allow r.through r.to r.from nothing_visited
    where
      done : Bypasses
      done = visit_sources (new_index g) allow r.through r.to r.from nothing_visited

-- A source that is bound, with a bypass to a target that is bound.
pub bypass-families :
    {g : Graph} {allow : List AllowPair} {through bound sources : List Str}
    → SomeBypass g allow through bound sources
    → (sources ≢ []) × (bound ≢ [])
bypass-families {g} {allow} {through} {bound} {sources} b =
    (λ e. not-In_nil (subst (In b.source) e b.is_source), λ e. no_target e b.way)
  where
    no_target : bound ≡ [] → Bypass g allow through bound b.source → ⊥
    no_target e (past_function t n trail target denied) =
        true_ne_false (sym (subst (λ xs. contains t xs ≡ true) e target) ∙ contains_nil t)
    no_target e (past_effect x m p trail target denied) =
        true_ne_false (sym (subst (λ xs. contains x.to xs ≡ true) e target) ∙ contains_nil x.to)

no_family : (xs ys : List Str) → (no_strings xs || no_strings ys) ≡ true → (xs ≢ []) × (ys ≢ []) → ⊥
no_family xs ys h k = elim (or_true _ _ h) [
  | inl e ↦ k.0 ((no_strings_iff xs).0 e)
  | inr e ↦ k.1 ((no_strings_iff ys).0 e)
]

-- The answer is "bypassed" exactly when some bound source outside the waypoints has a way to a bound target
-- that enters no waypoint and that no exception allows: to another function, or to the owner of a boundary
-- edge with the target's label.
pub evaluate_pass_through-bypassed :
    (g : Graph) (input : PassThroughInput)
    → ((evaluate_pass_through (some (new_index g)) input).state ≡ pass_through_bypassed)
      ↔ SomeBypass g input.allow
          (bind_functions (new_index g) input.through)
          (bind_targets (new_index g) input.to)
          (bind_sources (new_index g) input.from)
unfolding evaluate_pass_through
evaluate_pass_through-bypassed g input =
    let sources = bind_sources (new_index g) input.from in
    let bound = bind_targets (new_index g) input.to in
    let through = bind_functions (new_index g) input.through in
    elim (Bool-cases (no_strings sources || no_strings bound)) [
      | inl e ↦ rw e (λ h. cc, λ b. absurd (no_family sources bound e (bypass-families b)))
      | inr e ↦ rw e (
        λ h. (SomeBypass-iff g input.allow through bound sources).0 (
            sym (bound_lem g input.allow (bound_families (new_index g) input))
            ∙ (is_bypassed_iff _).1 h),
        λ b. (is_bypassed_iff _).0 (
            bound_lem g input.allow (bound_families (new_index g) input)
            ∙ (SomeBypass-iff g input.allow through bound sources).1 b),
      )
    ]
