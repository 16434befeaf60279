-- ===== src/Graph/Reachability.antt =====
-- What the index answers about reachability (internal/groundwork/graph/index.go): Reachable and Reaching
-- against paths of calls, the sources, and the entry points that cover a function.
use verdi_go.Prelude.{
  ◌≡◌, refl, sym, subst, ◌∙◌, ◌↔◌, ◌⊎◌, inl, inr, true, false, ◌&&◌, ◌||◌, List, [], ◌∷◌, map,
  arith, and_true, or_true, and_both, or_left, or_right, Bool-ext, length, any, not-In_nil,
  length-map, ◌==◌, eq_iff, nat_Eq, bool_Eq, contains, list_Eq, contains-In, In-contains,
  contains_cons, contains-keep, contains_nil, Str, Str_Eq, str_lt, contains-sort_by, sort_strings,
  pair_Eq, keys, here,
}
use verdi_go.Graph.Types.{Graph, Edge}
use verdi_go.Graph.Index.{
  is_empty, new_index, node_map, is_key, has, callees, callers, reachable, reaching, sources,
  source_nodes, entrypoint_cover, entrypoint_cover_from,
}
use verdi_go.Graph.Adjacency.{fqns, is_call, calls, has-fqns, contains-callees, contains-callers}
use verdi_go.Graph.Walk.{Reaches, one, onward, Within, walk_iff}

-- A path of one or more calls.
pub data CallPath (g : Graph) (s : Str) : Str → Type 0 where
  call : {t : Str} → calls g s t ≡ true → CallPath g s t
  then_call : {t u : Str} → CallPath g s u → calls g u t ≡ true → CallPath g s t

pub CallPath-prepend :
    {g : Graph} {s u t : Str} → calls g s u ≡ true → CallPath g u t → CallPath g s t
CallPath-prepend c (call d) = then_call (call c) d
CallPath-prepend c (then_call p d) = then_call (CallPath-prepend c p) d

-- The ends of the edges.
abbrev pub targets : Graph → List Str
targets g = map (λ (e : Edge). e.to) g.edges

abbrev pub origins : Graph → List Str
origins g = map (λ (e : Edge). e.from) g.edges

any_call-ends :
    (declared : List Str) (f t : Str) (es : List Edge)
    → any (is_call declared f t) es ≡ true
    → (contains f (map (λ (e : Edge). e.from) es) ≡ true)
      × (contains t (map (λ (e : Edge). e.to) es) ≡ true)
unfolding contains
any_call-ends declared f t [] h = cc
any_call-ends declared f t (e ∷ es) h = ground (
  arith,
  eq_iff e.from f,
  eq_iff f e.from,
  eq_iff e.to t,
  eq_iff t e.to,
  any_call-ends declared f t es,
)

member_self : (a : Str) → contains a (a ∷ []) ≡ true
member_self a = In-contains {a = a} {xs = a ∷ []} here

member_single : (a b : Str) → contains a (b ∷ []) ≡ true → a ≡ b
member_single a b h = elim (contains_cons a b [] h) [
  | inl none_left ↦ absurd (not-In_nil (contains-In a [] none_left))
  | inr same ↦ same
]

is_empty-contains : (xs : List Str) → is_empty xs ≡ true → (a : Str) → contains a xs ≡ false
is_empty-contains [] h a = contains_nil a
is_empty-contains (x ∷ xs) h a = cc

contains-is_empty : (xs : List Str) → ((a : Str) → contains a xs ≡ false) → is_empty xs ≡ true
contains-is_empty [] h = refl
contains-is_empty (x ∷ xs) h = cc (h x, In-contains {a = x} {xs = x ∷ xs} here)

module _ (g : Graph) where
  pub callees-Within : (s : Str) → Within (targets g) (callees (new_index g) s)
  callees-Within s t h = (any_call-ends (fqns g) s t g.edges (sym (contains-callees g s t) ∙ h)).1

  callers-Within : (t : Str) → Within (origins g) (callers (new_index g) t)
  callers-Within t s h = (any_call-ends (fqns g) s t g.edges (sym (contains-callers g s t) ∙ h)).0

  edges_of_index : length (new_index g).g.edges ≡ length g.edges
  unfolding new_index
  edges_of_index = refl

  Reaches-CallPath : {s t : Str} → Reaches (callees (new_index g)) s t → CallPath g s t
  Reaches-CallPath {s} (one {t} h) = call (sym (contains-callees g s t) ∙ h)
  Reaches-CallPath (onward {t} {u} r h) =
      then_call (Reaches-CallPath r) (sym (contains-callees g u t) ∙ h)

  CallPath-Reaches : {s t : Str} → CallPath g s t → Reaches (callees (new_index g)) s t
  CallPath-Reaches {s} (call {t} h) = one (contains-callees g s t ∙ h)
  CallPath-Reaches (then_call {t} {u} p h) =
      onward (CallPath-Reaches p) (contains-callees g u t ∙ h)

  Reaches-back : {t s : Str} → Reaches (callers (new_index g)) t s → CallPath g s t
  Reaches-back {t} (one {t = s} h) = call (sym (contains-callers g s t) ∙ h)
  Reaches-back (onward {t = s} {u} r h) =
      CallPath-prepend (sym (contains-callers g s u) ∙ h) (Reaches-back r)

  back-prepend :
      {t u s : Str}
      → contains u (callers (new_index g) t) ≡ true
      → Reaches (callers (new_index g)) u s
      → Reaches (callers (new_index g)) t s
  back-prepend h (one k) = onward (one h) k
  back-prepend h (onward r k) = onward (back-prepend h r) k

  back-Reaches : {s t : Str} → CallPath g s t → Reaches (callers (new_index g)) t s
  back-Reaches {s} (call {t} h) = one (contains-callers g s t ∙ h)
  back-Reaches (then_call {t} {u} p h) = back-prepend (contains-callers g u t ∙ h) (back-Reaches p)

  -- `Reachable` returns exactly the functions that a path of one or more calls leads to from some
  -- seed; a seed itself is among them only if such a path comes back to it.
  pub reachable_iff :
      (seeds : List Str) (t : Str)
      → (contains t (reachable (new_index g) seeds) ≡ true)
        ↔ ((s : Str) × (contains s seeds ≡ true) × CallPath g s t)
  unfolding reachable
  reachable_iff seeds t =
      let w =
        walk_iff (callees (new_index g)) (new_index g) (targets g)
          (omega (arith, length-map (λ (e : Edge). e.to) g.edges, edges_of_index)) callees-Within
          seeds t in
      (
        λ h. let (s, m, r) = w.0 h in (s, m, Reaches-CallPath r),
        λ (s, m, p). w.1 (s, m, CallPath-Reaches p),
      )

  -- `Reaching` returns exactly the functions from which a path of one or more calls leads to a seed.
  pub reaching_iff :
      (seeds : List Str) (s : Str)
      → (contains s (reaching (new_index g) seeds) ≡ true)
        ↔ ((t : Str) × (contains t seeds ≡ true) × CallPath g s t)
  unfolding reaching
  reaching_iff seeds s =
      let w =
        walk_iff (callers (new_index g)) (new_index g) (origins g)
          (omega (arith, length-map (λ (e : Edge). e.from) g.edges, edges_of_index)) callers-Within
          seeds s in
      (
        λ h. let (t, m, r) = w.0 h in (t, m, Reaches-back r),
        λ (t, m, p). w.1 (t, m, back-Reaches p),
      )

  -- A function is downstream of another exactly when that one is upstream of it.
  pub reachable-reaching :
      (s t : Str)
      → contains t (reachable (new_index g) (s ∷ [])) ≡ contains s (reaching (new_index g) (t ∷ []))
  reachable-reaching s t =
      Bool-ext _ _
        (λ h.
          let (s', m, p) = (reachable_iff (s ∷ []) t).0 h in
          (reaching_iff (t ∷ []) s).1
            (t, member_self t, subst (λ x. CallPath g x t) (member_single s' s m) p))
        (λ h.
          let (t', m, p) = (reaching_iff (t ∷ []) s).0 h in
          (reachable_iff (s ∷ []) t).1
            (s, member_self s, subst (λ x. CallPath g s x) (member_single t' t m) p))

  -- A source: a declared function that nothing calls.
  pub record IsSource (s : Str) : Type 0 where
    pub declared : contains s (fqns g) ≡ true
    pub uncalled : (f : Str) → calls g f s ≡ false

  contains-sources :
      (s : Str)
      → contains s (sources (new_index g))
        ≡ (has (new_index g) s && is_empty (callers (new_index g) s))
  unfolding sources new_index source_nodes sort_strings has is_key callers
  contains-sources s = contains-sort_by str_lt s _ ∙ contains-keep _ s (keys (node_map g.nodes []))

  contains-cover :
      (fqn s : Str)
      → contains s (entrypoint_cover (new_index g) fqn) ≡ (
          contains s (sources (new_index g))
          && ((s == fqn) || contains s (reaching (new_index g) (fqn ∷ []))))
  unfolding entrypoint_cover entrypoint_cover_from sort_strings sources
  contains-cover fqn s = contains-sort_by str_lt s _ ∙ contains-keep _ s (new_index g).sources

  -- `Sources` lists exactly the declared functions that no call edge of the graph leads to.
  pub sources_iff : (s : Str) → (contains s (sources (new_index g)) ≡ true) ↔ IsSource s
  sources_iff s = (
    λ h.
        let k = sym (contains-sources s) ∙ h in
        record {
          declared = sym (has-fqns g s) ∙ (and_true _ _ k).0;
          uncalled = λ f.
              sym (contains-callers g f s)
              ∙ is_empty-contains (callers (new_index g) s) (and_true _ _ k).1 f;
        },
    λ i.
        contains-sources s
        ∙ and_both _ _ (has-fqns g s ∙ i.declared) (
            contains-is_empty (callers (new_index g) s)
              (λ f. contains-callers g f s ∙ i.uncalled f)),
  )

  -- The cover of a function is exactly the sources that are the function or have a path of calls to it.
  pub entrypoint_cover_iff :
      (fqn s : Str)
      → (contains s (entrypoint_cover (new_index g) fqn) ≡ true)
        ↔ (IsSource s × ((s ≡ fqn) ⊎ CallPath g s fqn))
  entrypoint_cover_iff fqn s = (
    λ h.
        let (i, e) = and_true _ _ (sym (contains-cover fqn s) ∙ h) in
        (
          (sources_iff s).0 i,
          elim (or_true _ _ e) [
            | inl same ↦ inl ((eq_iff s fqn).0 same)
            | inr up ↦
                let (t, m, p) = (reaching_iff (fqn ∷ []) s).0 up in
                inr (subst (λ x. CallPath g s x) (member_single t fqn m) p)
          ],
        ),
    λ (i, e).
        contains-cover fqn s
        ∙ and_both _ _ ((sources_iff s).1 i) (elim e [
          | inl same ↦ or_left _ _ ((eq_iff s fqn).1 same)
          | inr p ↦ or_right _ _ ((reaching_iff (fqn ∷ []) s).1 (fqn, member_self fqn, p))
        ]),
  )
