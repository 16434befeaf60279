-- ===== src/Facts/ReachSearch.antt =====
-- The search from one source: what it returns is a witness, and it returns one whenever there is one
-- (searchFrom of internal/groundwork/facts/reach.go).
use verdi_go.Prelude.{
  ◌≡◌, refl, sym, ap, subst, ◌∙◌, ◌≢◌, inl, inr, Bool, true, false, ◌&&◌, not, Option, none, some,
  List, [], ◌∷◌, ◌++◌, Option-cases, and_true, true_ne_false, not-true, and_both, any, keep,
  first_where, any-In, any_witness, ◌==◌, eq_iff, eq_self, nat_Eq, bool_Eq, ne_not, contains,
  list_Eq, contains-In, In-contains, contains_cons, first_where-some, first_where-none,
  contains_nil, Str, Str_Eq, sort_strings, pair_Eq, keys, at_key, here, there,
}
use mathlib.Core.Option.{some-injective}
use verdi_go.Graph.Types.{Graph, Edge, is_boundary}
use verdi_go.Graph.Index.{new_index}
use verdi_go.Graph.Reachability.{CallPath}
use verdi_go.Facts.Types.{PathWitness}
use verdi_go.Facts.Traversal.{search_tree, canonical_cone}
use verdi_go.Facts.Frontier.{
  BoundaryEffect, BoundaryEffect_Eq, effect_of, effects_by_owner, blind_for_cone,
}
use verdi_go.Facts.Reach.{
  SourceSearch, search_from, search_decision, cone_matching_effect, function_witness,
  effect_witness,
}
use verdi_go.Facts.Cone.{
  InCone, CallChain, cone, cone_iff, contains-cone_rest, reconstruct_path-CallChain, has_effect,
  is_effect, contains-effects_by_owner,
}

-- A way from `source` to a target: a function other than the source itself that calls lead to, or a
-- boundary effect of the source or of a function that calls lead to.
pub data Hit (g : Graph) (source : Str) (targets : List Str) : Type 0 where
  at_function :
      (t : Str)
      → t ≢ source
      → CallPath g source t
      → contains t targets ≡ true
      → Hit g source targets
  at_effect :
      (owner to : Str)
      → InCone g source owner
      → has_effect g owner to ≡ true
      → contains to targets ≡ true
      → Hit g source targets

-- A witness that a reader can follow: each step is a call of the graph, and a label is reached through a
-- boundary edge of the last function.
pub data IsWitness (g : Graph) (targets : List Str) (w : PathWitness) : Type 0 where
  to_function :
      w.to ≢ w.from
      → CallChain g w.to w.from w.path
      → contains w.to targets ≡ true
      → IsWitness g targets w
  to_effect :
      (owner : Str) (calls_to : List Str)
      → w.path ≡ calls_to ++ w.to ∷ []
      → CallChain g owner w.from calls_to
      → has_effect g owner w.to ≡ true
      → contains w.to targets ≡ true
      → IsWitness g targets w

has_effect-is_effect :
    (g : Graph) (owner to : Str)
    → has_effect g owner to ≡ true
    → (b : BoundaryEffect) × ((any (is_effect b) g.edges && b.from == owner) ≡ true) × (b.to ≡ to)
has_effect-is_effect g owner to h =
    let (e, m, p) =
      any_witness (λ (x : Edge). is_boundary x && (x.from == owner && x.to == to)) g.edges h in
    let (bound, ends) = and_true _ _ p in
    (
      effect_of e,
      and_both _ _ (any-In (is_effect (effect_of e)) m (and_both _ _ bound (eq_self (effect_of e))))
          (and_true _ _ ends).0,
      (eq_iff e.to to).0 (and_true _ _ ends).1,
    )

is_effect-has_effect :
    (g : Graph) (owner : Str) (b : BoundaryEffect)
    → (any (is_effect b) g.edges && b.from == owner) ≡ true
    → has_effect g owner b.to ≡ true
is_effect-has_effect g owner b h =
    let (some_edge, from) = and_true _ _ h in
    let (e, m, p) = any_witness (is_effect b) g.edges some_edge in
    let (bound, same) = and_true _ _ p in
    let eq : b ≡ effect_of e = (eq_iff b (effect_of e)).0 same in
    any-In (λ (x : Edge). is_boundary x && (x.from == owner && x.to == b.to)) m
      (and_both _ _ bound (
        and_both _ _ (subst (λ (x : BoundaryEffect). (x.from == owner) ≡ true) eq from)
          ((eq_iff e.to b.to).1 (ap (λ (x : BoundaryEffect). x.to) (sym eq)))))

module _ (g : Graph) (targets : List Str) where
  abbrev wanted : BoundaryEffect → Bool
  wanted e = contains e.to targets

  owner_effect :
      (owner : Str) (owners : List Str) (b : BoundaryEffect)
      → first_where wanted (at_key owner (effects_by_owner (new_index g))) ≡ some b
      → (contains b.from (owner ∷ owners) ≡ true)
        × (has_effect g b.from b.to ≡ true)
        × (contains b.to targets ≡ true)
  owner_effect owner owners b e =
      let (m, t) = first_where-some wanted (at_key owner (effects_by_owner (new_index g))) e in
      let k : (any (is_effect b) g.edges && b.from == owner) ≡ true =
        sym (contains-effects_by_owner g owner b) ∙ m in
      let from : b.from ≡ owner = (eq_iff b.from owner).0 (and_true _ _ k).1 in
      (
        subst (λ x. contains x (owner ∷ owners) ≡ true) (sym from)
            (In-contains {a = owner} {xs = owner ∷ owners} here),
        subst (λ x. has_effect g x b.to ≡ true) (sym from) (is_effect-has_effect g owner b k),
        t,
      )

  cone_matching_effect-some :
      (owners : List Str) {b : BoundaryEffect}
      → cone_matching_effect owners targets (effects_by_owner (new_index g)) ≡ some b
      → (contains b.from owners ≡ true)
        × (has_effect g b.from b.to ≡ true)
        × (contains b.to targets ≡ true)
  unfolding cone_matching_effect
  cone_matching_effect-some [] h = cc
  cone_matching_effect-some (owner ∷ owners) {b} h =
      elim (Option-cases (first_where wanted (at_key owner (effects_by_owner (new_index g))))) [
        | inl e ↦
            let (m, f, t) = cone_matching_effect-some owners {b = b} (rw e at h) in
            (In-contains (there {x = owner} (contains-In b.from owners m)), f, t)
        | inr (b', e) ↦
            subst
              (λ (x : BoundaryEffect).
                (contains x.from (owner ∷ owners) ≡ true)
                × (has_effect g x.from x.to ≡ true)
                × (contains x.to targets ≡ true))
              (some-injective b' b (rw e at h)) (owner_effect owner owners b' e)
      ]

  cone_matching_effect-none :
      (owners : List Str) (owner to : Str)
      → cone_matching_effect owners targets (effects_by_owner (new_index g)) ≡ none
      → contains owner owners ≡ true
      → has_effect g owner to ≡ true
      → contains to targets ≡ false
  unfolding cone_matching_effect
  cone_matching_effect-none [] owner to h m e = absurd (true_ne_false (sym m ∙ contains_nil owner))
  cone_matching_effect-none (o ∷ owners) owner to h m e =
      elim (Option-cases (first_where wanted (at_key o (effects_by_owner (new_index g))))) [
        | inr (b, found) ↦ absurd (some_ne_none (rw found at h))
        | inl nothing ↦ elim (contains_cons owner o owners m) [
          | inl later ↦ cone_matching_effect-none owners owner to (rw nothing at h) later e
          | inr same ↦
              let (b, is_b, at_to) = has_effect-is_effect g owner to e in
              ap (λ x. contains x targets) (sym at_to)
              ∙ first_where-none wanted b (at_key o (effects_by_owner (new_index g))) nothing (
                  subst (λ x. contains b (at_key x (effects_by_owner (new_index g))) ≡ true) same
                    (contains-effects_by_owner g owner b ∙ is_b))
        ]
      ]
    where
      some_ne_none : {b : BoundaryEffect} → some b ≡ none → ⊥
      some_ne_none k = cc

  module _ (source : Str) where
    abbrev found : SourceSearch
    found = search_from (new_index g) source targets (effects_by_owner (new_index g))

    -- The functions that are looked at first.
    abbrev others : List Str
    others =
        sort_strings (keep (λ fn. not (fn == source)) (keys (search_tree (new_index g) source)))

    hit_function : Option Str
    hit_function = first_where (λ fn. contains fn targets) others

    hit_effect : Option BoundaryEffect
    hit_effect = cone_matching_effect (cone g source) targets (effects_by_owner (new_index g))

    found_lem :
        found
        ≡ search_decision
            (new_index g)
            source
            (search_tree (new_index g) source)
            hit_function
            hit_effect
            (blind_for_cone (new_index g) source (cone g source) (effects_by_owner (new_index g)))
    unfolding search_from canonical_cone hit_function hit_effect
    found_lem = refl

    -- The two ways in which the search from a source ends: with a witness that can be followed, or
    -- with no way to a target at all and the blind witness of the cone.
    pub data Outcome (s : SourceSearch) : Type 0 where
      hit :
          (w : PathWitness)
          → s.path ≡ some w
          → w.from ≡ source
          → IsWitness g targets w
          → Hit g source targets
          → Outcome s
      miss :
          s.path ≡ none
          → s.blind
            ≡ blind_for_cone (new_index g) source (cone g source) (effects_by_owner (new_index g))
          → ¬ Hit g source targets
          → Outcome s

    function_hit :
        (fn : Str)
        → hit_function ≡ some fn
        → (fn ≢ source) × CallPath g source fn × (contains fn targets ≡ true)
    unfolding hit_function
    function_hit fn h =
        let (m, t) = first_where-some (λ x. contains x targets) others h in
        let (in_cone, other) = and_true _ _ (sym (contains-cone_rest g source fn) ∙ m) in
        let differs : fn ≢ source =
          λ e. true_ne_false (sym ((eq_iff fn source).1 e) ∙ not-true _ other) in
        (
          differs,
          elim ((cone_iff g source fn).0 in_cone) [
            | inl same ↦ absurd (differs same)
            | inr path ↦ path
          ],
          t,
        )

    no_function :
        (t : Str)
        → hit_function ≡ none
        → t ≢ source
        → CallPath g source t
        → contains t targets ≡ false
    unfolding hit_function
    no_function t h n path =
        first_where-none (λ x. contains x targets) t others h
          (contains-cone_rest g source t
            ∙ and_both _ _ ((cone_iff g source t).1 (inr path)) (ne_not t source n))

    effect_hit :
        (b : BoundaryEffect)
        → hit_effect ≡ some b
        → InCone g source b.from
          × (has_effect g b.from b.to ≡ true)
          × (contains b.to targets ≡ true)
    unfolding hit_effect
    effect_hit b h =
        let (m, f, t) = cone_matching_effect-some (cone g source) h in
        ((cone_iff g source b.from).0 m, f, t)

    no_effect :
        (owner to : Str)
        → hit_effect ≡ none
        → InCone g source owner
        → has_effect g owner to ≡ true
        → contains to targets ≡ false
    unfolding hit_effect
    no_effect owner to h c f =
        cone_matching_effect-none (cone g source) owner to h ((cone_iff g source owner).1 c) f

    Outcome-of :
        (fn : Option Str) (effect : Option BoundaryEffect)
        → hit_function ≡ fn
        → hit_effect ≡ effect
        → Outcome (
            search_decision (new_index g) source (search_tree (new_index g) source) fn effect (
              blind_for_cone (new_index g) source (cone g source) (effects_by_owner (new_index g))))
    unfolding function_witness effect_witness
    Outcome-of (some fn) effect h k =
        let (n, path, t) = function_hit fn h in
        hit (function_witness (new_index g) source (search_tree (new_index g) source) fn) refl refl
          (to_function n (reconstruct_path-CallChain g source fn (inr path)) t)
          (at_function fn n path t)
    Outcome-of none (some b) h k =
        let (c, f, t) = effect_hit b k in
        hit (effect_witness (new_index g) source (search_tree (new_index g) source) b) refl refl
          (to_effect b.from _ refl (reconstruct_path-CallChain g source b.from c) f t)
          (at_effect b.from b.to c f t)
    Outcome-of none none h k = miss refl refl (λ p. elim p [
      | at_function t n path m ↦ true_ne_false (sym m ∙ no_function t h n path)
      | at_effect owner to c f m ↦ true_ne_false (sym m ∙ no_effect owner to k c f)
    ])

    -- The search from a source ends in one of the two ways.
    pub search_from-Outcome : Outcome found
    search_from-Outcome =
        subst Outcome (sym found_lem) (Outcome-of hit_function hit_effect refl refl)
