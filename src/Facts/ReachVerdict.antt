-- ===== src/Facts/ReachVerdict.antt =====
-- What the loop over the sources returns (EvaluateReachBindings of internal/groundwork/facts/reach.go).
use verdi_go.Prelude.{
  ◌≡◌, sym, subst, ◌∙◌, ◌↔◌, Option, none, some, List, [], ◌∷◌, In, not-In_nil, nat_Eq, bool_Eq,
  list_Eq, contains-In, In-contains, Str, Str_Eq, pair_Eq, here, there,
}
use verdi_go.Graph.Types.{Graph}
use verdi_go.Graph.Index.{new_index}
use verdi_go.Facts.Types.{PathWitness, BlindWitness}
use verdi_go.Facts.Frontier.{effects_by_owner, blind_for_cone, or_else}
use verdi_go.Facts.Visibility.{IsVisible, or_else-none}
use verdi_go.Facts.Blindness.{blind_for_cone_iff}
use verdi_go.Facts.Reach.{
  SourceSearch, Searched, path_found, no_path, search_from, search_all, continue_search,
}
use verdi_go.Facts.Cone.{InCone, cone, cone_iff}
use verdi_go.Facts.ReachSearch.{Hit, IsWitness, Outcome, hit, miss, search_from-Outcome}

-- Nothing that the source reaches hides anything.
pub record IsClear (g : Graph) (source : Str) : Type 0 where
  pub visible : (fn : Str) → InCone g source fn → IsVisible g fn

-- The cone of a source has no blind witness exactly when it is clear.
pub IsClear-iff :
    (g : Graph) (source : Str)
    → (blind_for_cone (new_index g) source (cone g source) (effects_by_owner (new_index g)) ≡ none)
      ↔ IsClear g source
IsClear-iff g source =
    let i = blind_for_cone_iff g source (cone g source) in
    (
      λ h. record {
        visible = λ fn c. i.0 h fn (contains-In fn (cone g source) ((cone_iff g source fn).1 c));
      },
      λ h. i.1 (λ fn m. h.visible fn ((cone_iff g source fn).0 (In-contains m))),
    )

module _ (g : Graph) (targets : List Str) where
  -- Some source has a way to a target.
  pub record SomeHit (sources : List Str) : Type 0 where
    pub source : Str
    pub is_source : In source sources
    pub way : Hit g source targets

  -- What is known of the result of the loop, given the blind witness it started with.
  pub data Verdict (sources : List Str) (first_blind : Option BlindWitness)
      : Searched → Type 0 where
    witnessed :
        (w : PathWitness)
        → In w.from sources
        → IsWitness g targets w
        → Hit g w.from targets
        → Verdict sources first_blind (path_found w)
    missed :
        (b : Option BlindWitness)
        → ((s : Str) → In s sources → ¬ Hit g s targets)
        → ((b ≡ none) ↔ ((first_blind ≡ none) × ((s : Str) → In s sources → IsClear g s)))
        → Verdict sources first_blind (no_path b)

  later_verdict :
      {source : Str} {sources : List Str} {b0 : Option BlindWitness} (s : SourceSearch)
      {r : Searched}
      → s.blind
        ≡ blind_for_cone (new_index g) source (cone g source) (effects_by_owner (new_index g))
      → ¬ Hit g source targets
      → Verdict sources (or_else b0 s.blind) r
      → Verdict (source ∷ sources) b0 r
  later_verdict s e n (witnessed w m p q) = witnessed w (there m) p q
  later_verdict {source} {sources} {b0} s e n (missed b p i) =
      let j = or_else-none b0 s.blind in
      missed b (no_hit p) (
        λ h.
            let (before, clear) = i.0 h in
            let (none_yet, own) = j.0 before in
            (none_yet, all_clear ((IsClear-iff g source).0 (sym e ∙ own)) clear),
        λ h.
            i.1 (j.1 (h.0, e ∙ (IsClear-iff g source).1 (h.1 source here)), λ s m. h.1 s (there m)),
      )
    where
      no_hit :
          ((s : Str) → In s sources → ¬ Hit g s targets)
          → (s : Str) → In s (source ∷ sources)
          → ¬ Hit g s targets
      no_hit p s here = n
      no_hit p s (there m) = p s m

      all_clear :
          IsClear g source
          → ((s : Str) → In s sources → IsClear g s)
          → (s : Str) → In s (source ∷ sources)
          → IsClear g s
      all_clear own clear s here = own
      all_clear own clear s (there m) = clear s m

  abbrev step_verdict :
      (source : Str) (sources : List Str) (b0 : Option BlindWitness) (s : SourceSearch)
      (next : Option BlindWitness → Searched)
      → Outcome g targets source s
      → ((b : Option BlindWitness) → Verdict sources b (next b))
      → Verdict (source ∷ sources) b0 (continue_search s b0 next)
  step_verdict source sources b0 s next (hit w path from witness way) rest =
      subst
        (λ (p : Option PathWitness).
          Verdict (source ∷ sources) b0
            (elim p [ some w ↦ path_found w | none ↦ next (or_else b0 s.blind) ]))
        (sym path)
        (witnessed w (subst (λ x. In x (source ∷ sources)) (sym from) here) witness
          (subst (λ x. Hit g x targets) (sym from) way))
  step_verdict source sources b0 s next (miss path blind no_way) rest =
      subst
        (λ (p : Option PathWitness).
          Verdict (source ∷ sources) b0
            (elim p [ some w ↦ path_found w | none ↦ next (or_else b0 s.blind) ]))
        (sym path) (later_verdict s blind no_way (rest (or_else b0 s.blind)))

  pub search_all-Verdict :
      (sources : List Str) (b0 : Option BlindWitness)
      → Verdict sources b0
          (search_all (new_index g) sources targets (effects_by_owner (new_index g)) b0)
  unfolding search_all
  search_all-Verdict [] b0 =
      missed b0 (λ s m. absurd (not-In_nil m)) (λ h. (h, λ s m. absurd (not-In_nil m)), λ h. h.0)
  search_all-Verdict (s ∷ sources) b0 =
      step_verdict s sources b0
        (search_from (new_index g) s targets (effects_by_owner (new_index g)))
        (λ b. search_all (new_index g) sources targets (effects_by_owner (new_index g)) b)
        (search_from-Outcome g targets s) (λ b. search_all-Verdict sources b)
