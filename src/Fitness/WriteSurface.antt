-- ===== src/Fitness/WriteSurface.antt =====
-- The write surface of a route against the graph (internal/groundwork/fitness/budget.go: RouteWrites).
use verdi_go.Prelude.{
  ◌≡◌, sym, ap, subst, ◌∙◌, ◌↔◌, ◌⊎◌, inl, inr, Bool, true, ◌&&◌, Option, none, some, List, [], ◌∷◌,
  arith, Option-cases, and_true, or_true, true_ne_false, and_both, or_left, or_right, In,
  not-In_nil, In-append_left, In-append_right, In-cases, In-keep, In-append_cases, bool_Eq, ◌==◌,
  eq_iff, eq_self, nat_Eq, contains, list_Eq, contains_cons, contains_nil, Str, Str_Eq, sorted_keys,
  contains-sorted_keys, pair_Eq, here, there,
}
use verdi_go.Graph.Types.{Graph, Edge, is_boundary}
use verdi_go.Graph.Index.{new_index, reachable}
use verdi_go.Graph.Surface
use verdi_go.Graph.Disclosure.{own_effects, effects_lem}
use verdi_go.Graph.Reachability.{CallPath, reachable_iff}
use verdi_go.Fitness.Effects.{labels, write_label, unclassified_db_label, unclassified_effect_label}
use verdi_go.Fitness.Budget.{route_io}

-- A boundary edge of one of the functions.
pub record Performs (g : Graph) (fs : List Str) (e : Edge) : Type 0 where
  pub declared : In e g.edges
  pub boundary : is_boundary e ≡ true
  pub owned : contains e.from fs ≡ true

In-effects :
    (g : Graph) (fs : List Str) (e : Edge)
    → In e (Surface.effects (new_index g) fs) ↔ Performs g fs e
unfolding Surface.effects contains
In-effects g [] e = (λ i. absurd (not-In_nil i), λ q. absurd (true_ne_false (sym q.owned)))
In-effects g (f ∷ fs) e = (
  λ i. elim (In-append_cases (own_effects g f) rest (subst (In e) (effects_lem g f fs) i)) [
    | inl mine ↦
        let (m, q) = (In-keep (own f) g.edges).0 mine in
        let (b, s) = and_true _ _ q in record { declared = m; boundary = b; owned = or_left _ _ s }
    | inr later ↦
        let q = (In-effects g fs e).0 later in
        record { declared = q.declared; boundary = q.boundary; owned = or_right _ _ q.owned }
  ],
  λ q. subst (In e) (sym (effects_lem g f fs)) (elim (or_true _ _ q.owned) [
    | inl s ↦
        In-append_left rest ((In-keep (own f) g.edges).1 (q.declared, and_both _ _ q.boundary s))
    | inr later ↦ In-append_right (own_effects g f) (
        (In-effects g fs e).1
          (record { declared = q.declared; boundary = q.boundary; owned = later }))
  ]),
)
  where
    own : Str → Edge → Bool
    own x d = is_boundary d && d.from == x

    rest : List Edge
    rest = Surface.effects (new_index g) fs

-- A label that the reading gives for some edge.
pub record Reads (read : Edge → Option Str) (es : List Edge) (l : Str) : Type 0 where
  pub edge : Edge
  pub listed : In edge es
  pub labelled : read edge ≡ some l

pub contains-labels :
    (read : Edge → Option Str) (es : List Edge) (l : Str)
    → (contains l (labels read es) ≡ true) ↔ Reads read es l
unfolding labels contains
contains-labels read [] l = (λ h. cc, λ r. absurd (not-In_nil r.listed))
contains-labels read (e ∷ es) l = elim (Option-cases (read e)) [
  | inl q ↦ rw q (
    λ h.
        let r = (contains-labels read es l).0 h in
        record { edge = r.edge; listed = there r.listed; labelled = r.labelled },
    λ r. elim (In-cases r.listed) [
      | inl s ↦ absurd (clash (sym q ∙ ap read (sym s) ∙ r.labelled))
      | inr m ↦
          (contains-labels read es l).1
            (record { edge = r.edge; listed = m; labelled = r.labelled })
    ],
  )
  | inr (k, q) ↦ rw q (
    λ h. elim (contains_cons l k (labels read es) h) [
      | inl later ↦
          let r = (contains-labels read es l).0 later in
          record { edge = r.edge; listed = there r.listed; labelled = r.labelled }
      | inr s ↦ record { edge = e; listed = here; labelled = q ∙ ap some (sym s) }
    ],
    λ r. elim (In-cases r.listed) [
      | inl s ↦ or_left _ _ ((eq_iff l k).1 (same (sym r.labelled ∙ ap read s ∙ q)))
      | inr m ↦ or_right _ _ (
          (contains-labels read es l).1
            (record { edge = r.edge; listed = m; labelled = r.labelled }))
    ],
  )
]
  where
    clash : {a : Str} → none ≡ some a → ⊥
    clash h = cc

    same : {a b : Str} → some a ≡ some b → a ≡ b
    same h = ground arith

-- A boundary edge of the function, or of one that calls lead to from it, which reads as the label.
pub record Surfaces (g : Graph) (read : Edge → Option Str) (src l : Str) : Type 0 where
  pub edge : Edge
  pub declared : In edge g.edges
  pub boundary : is_boundary edge ≡ true
  pub owned : (edge.from ≡ src) ⊎ CallPath g src edge.from
  pub labelled : read edge ≡ some l

module _ (g : Graph) (src : Str) where
  in_cone :
      (f : Str)
      → (contains f (src ∷ reachable (new_index g) (src ∷ [])) ≡ true)
        ↔ ((f ≡ src) ⊎ CallPath g src f)
  unfolding contains
  in_cone f = (
    λ h. elim (contains_cons f src (reachable (new_index g) (src ∷ [])) h) [
      | inr s ↦ inl s
      | inl r ↦
          let (s, m, p) = (reachable_iff g (src ∷ []) f).0 r in
          inr (subst (λ x. CallPath g x f) (only s m) p)
    ],
    λ o. elim o [
      | inl s ↦ or_left _ _ ((eq_iff f src).1 s)
      | inr p ↦ or_right _ _ ((reachable_iff g (src ∷ []) f).1 (src, or_left _ _ (eq_self src), p))
    ],
  )
    where
      only : (s : Str) → contains s (src ∷ []) ≡ true → s ≡ src
      only s m = ground (arith, eq_iff s src, contains_nil s)

  surface_iff :
      (read : Edge → Option Str) (l : Str)
      → (contains l
            (labels read (Surface.effects (new_index g) (src ∷ reachable (new_index g) (src ∷ []))))
          ≡ true)
        ↔ Surfaces g read src l
  surface_iff read l = (
    λ h.
        let r = (contains-labels read _ l).0 h in
        let q = (In-effects g _ r.edge).0 r.listed in
        record {
          edge = r.edge;
          declared = q.declared;
          boundary = q.boundary;
          owned = (in_cone r.edge.from).0 q.owned;
          labelled = r.labelled;
        },
    λ s. (contains-labels read _ l).1 (record {
      edge = s.edge;
      listed = (In-effects g _ s.edge).1 (record {
        declared = s.declared;
        boundary = s.boundary;
        owned = (in_cone s.edge.from).1 s.owned;
      });
      labelled = s.labelled;
    }),
  )

  -- The three surfaces of a route are exactly the labels of the boundary edges of the route and of what calls lead
  -- to from it: those that read as writes, as unclassified database effects and as unclassified effects.
  pub route_io-Surfaces :
      (l : Str)
      → ((contains l (route_io (new_index g) src).writes ≡ true) ↔ Surfaces g write_label src l)
        × ((contains l (route_io (new_index g) src).unclassified ≡ true)
            ↔ Surfaces g unclassified_db_label src l)
        × ((contains l (route_io (new_index g) src).unclassified_effects ≡ true)
            ↔ Surfaces g unclassified_effect_label src l)
  unfolding route_io
  route_io-Surfaces l =
      (sorted write_label, sorted unclassified_db_label, sorted unclassified_effect_label)
    where
      all : (Edge → Option Str) → List Str
      all read =
          labels read (Surface.effects (new_index g) (src ∷ reachable (new_index g) (src ∷ [])))

      sorted :
          (read : Edge → Option Str)
          → (contains l (sorted_keys (all read)) ≡ true) ↔ Surfaces g read src l
      sorted read = (
        λ h. (surface_iff read l).0 (sym (contains-sorted_keys l (all read)) ∙ h),
        λ s. contains-sorted_keys l (all read) ∙ (surface_iff read l).1 s,
      )
