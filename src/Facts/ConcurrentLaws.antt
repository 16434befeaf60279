-- ===== src/Facts/ConcurrentLaws.antt =====
-- When a target is on the concurrent surface (internal/groundwork/facts/concurrent.go).
use verdi_go.Prelude.{
  ◌≡◌, refl, sym, ap, ◌∙◌, ◌↔◌, ◌⊎◌, inl, inr, Bool, true, ◌&&◌, ◌||◌, not, some, List, [], ◌∷◌,
  ◌++◌, map, arith, and_true, or_true, and_both, or_left, or_right, Bool-ext, any, keep, any-append,
  In, any-In, any_witness, Eq, bool_Eq, ◌==◌, nat_Eq, contains, list_Eq, contains-In, In-contains,
  contains-append, contains-compact, Str, Str_Eq, contains-sort_by, contains-sorted_keys, pair_Eq,
}
use verdi_go.Graph.Types.{Graph, Edge, is_boundary}
use verdi_go.Graph.Index.{Index, new_index}
use verdi_go.Graph.Index as GraphIndex
use verdi_go.Graph.Surface.{edges}
use verdi_go.Graph.Adjacency.{fqns, has-fqns}
use verdi_go.Graph.Reachability.{CallPath, reachable_iff}
use verdi_go.Facts.Types.{Edge_Eq}
use verdi_go.Facts.Match.{canonical_boundary_edges, sort_boundary_edges, boundary_edge_less}
use verdi_go.Facts.PassThroughLaws.{some_element, some-map-keep, any-keep}
use verdi_go.Facts.Concurrent.{
  ConcurrentWitness, ConcurrentWitness_Eq, ConcurrentSurface, concurrent_seeds, concurrent_cone,
  concurrent_direct, concurrent_cone_effects, build_concurrent_surface, edge_witness, function_hit,
  surface_hits,
}

pub any-members {ℓ} :
    {A : Type ℓ} ⦃e : Eq A⦄ (p : A → Bool) (xs ys : List A)
    → ((a : A) → contains a xs ≡ contains a ys)
    → any p xs ≡ any p ys
any-members p xs ys h =
    Bool-ext _ _
      (λ k.
        let (a, m, pa) = any_witness p xs k in
        any-In p (contains-In a ys (sym (h a) ∙ In-contains m)) pa)
      (λ k.
        let (a, m, pa) = any_witness p ys k in any-In p (contains-In a xs (h a ∙ In-contains m)) pa)

any-pointwise {ℓ} :
    {A : Type ℓ} (p q : A → Bool) (xs : List A) → ((a : A) → p a ≡ q a) → any p xs ≡ any q xs
any-pointwise p q [] h = refl
any-pointwise p q (x ∷ xs) h = rw (h x, any-pointwise p q xs h) refl

contains-map-keep :
    (p : Edge → Bool) (s : Str) (es : List Edge)
    → contains s (map (λ (e : Edge). e.to) (keep p es)) ≡ any (λ (e : Edge). p e && s == e.to) es
unfolding contains
contains-map-keep p s [] = refl
contains-map-keep p s (e ∷ es) = ground (arith, contains-map-keep p s es)

-- A concurrent call edge leads to the function, which is declared.
abbrev pub spawned : Graph → Str → Bool
spawned g s =
    any
      (λ (e : Edge). (e.concurrent && (not (is_boundary e) && contains e.to (fqns g))) && s == e.to)
      g.edges

-- The function is spawned, or a spawned one has a path of calls to it.
abbrev pub InSurface : Graph → Str → Type 0
InSurface g t = (spawned g t ≡ true) ⊎ ((s : Str) × (spawned g s ≡ true) × CallPath g s t)

-- A target on the surface: a concurrent boundary effect, a function of the surface, or a boundary effect of one.
pub data SurfaceHit (g : Graph) (targets : List Str) : Type 0 where
  on_direct :
      (e : Edge)
      → In e g.edges
      → is_boundary e ≡ true
      → e.concurrent ≡ true
      → contains e.to targets ≡ true
      → SurfaceHit g targets
  on_function : (t : Str) → InSurface g t → contains t targets ≡ true → SurfaceHit g targets
  on_effect :
      (e : Edge)
      → In e g.edges
      → is_boundary e ≡ true
      → InSurface g e.from
      → contains e.to targets ≡ true
      → SurfaceHit g targets

module _ (g : Graph) where
  contains-seeds : (s : Str) → contains s (concurrent_seeds (new_index g)) ≡ spawned g s
  unfolding concurrent_seeds edges new_index
  contains-seeds s =
      contains-sorted_keys s _
      ∙ contains-map-keep _ s g.edges
      ∙ any-pointwise _ _ g.edges (λ e.
        ap (λ b. (e.concurrent && (not (is_boundary e) && b)) && s == e.to) (has-fqns g e.to))

  pub surface_cone_iff :
      (t : Str) → (contains t (concurrent_cone (new_index g)) ≡ true) ↔ InSurface g t
  unfolding concurrent_cone
  surface_cone_iff t =
      let seeds = concurrent_seeds (new_index g) in
      let members : contains t (concurrent_cone (new_index g))
          ≡ (contains t seeds || contains t (GraphIndex.reachable (new_index g) seeds)) =
        contains-sorted_keys t _
        ∙ contains-append t seeds (GraphIndex.reachable (new_index g) seeds) in
      let i = reachable_iff g seeds t in
      (
        λ h. elim (or_true _ _ (sym members ∙ h)) [
          | inl seed ↦ inl (sym (contains-seeds t) ∙ seed)
          | inr later ↦ let (s, m, path) = i.0 later in inr (s, sym (contains-seeds s) ∙ m, path)
        ],
        λ k. members ∙ elim k [
          | inl seed ↦ or_left _ _ (contains-seeds t ∙ seed)
          | inr (s, m, path) ↦ or_right _ _ (i.1 (s, contains-seeds s ∙ m, path))
        ],
      )

  pub any-canonical :
      (p : Edge → Bool)
      → any p (canonical_boundary_edges (new_index g))
        ≡ any (λ (e : Edge). is_boundary e && p e) g.edges
  unfolding canonical_boundary_edges sort_boundary_edges edges new_index
  any-canonical p =
      any-members p _ (keep is_boundary g.edges) (λ e.
        contains-compact e _ ∙ contains-sort_by boundary_edge_less e (keep is_boundary g.edges))
      ∙ any-keep p is_boundary g.edges

  module _ (bound : List Str) where
    abbrev wanted : Edge → Bool
    wanted e = contains e.to bound

    abbrev surface : ConcurrentSurface
    surface = build_concurrent_surface (some (new_index g))

    abbrev cone : List Str
    cone = concurrent_cone (new_index g)

    abbrev target_fn : Str → Bool
    target_fn fn = contains fn bound

    abbrev direct_hit : Edge → Bool
    direct_hit e = is_boundary e && (e.concurrent && wanted e)

    abbrev effect_hit : Edge → Bool
    effect_hit e = is_boundary e && (contains e.from cone && wanted e)

    some_direct : any wanted (concurrent_direct (new_index g)) ≡ any direct_hit g.edges
    unfolding concurrent_direct
    some_direct =
        any-keep wanted (λ (e : Edge). e.concurrent) (canonical_boundary_edges (new_index g))
        ∙ any-canonical (λ (e : Edge). e.concurrent && wanted e)

    some_effect : any wanted (concurrent_cone_effects (new_index g) cone) ≡ any effect_hit g.edges
    unfolding concurrent_cone_effects
    some_effect =
        any-keep wanted (λ (e : Edge). contains e.from cone)
          (canonical_boundary_edges (new_index g))
        ∙ any-canonical (λ (e : Edge). contains e.from cone && wanted e)

    some_hits :
        some_element (surface_hits surface bound)
        ≡ (any direct_hit g.edges || (any target_fn cone || any effect_hit g.edges))
    unfolding surface_hits build_concurrent_surface
    some_hits =
        three_lists (map edge_witness (keep wanted (concurrent_direct (new_index g))))
          (map function_hit (keep target_fn cone))
          (map edge_witness (keep wanted (concurrent_cone_effects (new_index g) cone)))
          (some-map-keep edge_witness wanted (concurrent_direct (new_index g)) ∙ some_direct)
          (some-map-keep function_hit target_fn cone)
          (some-map-keep edge_witness wanted (concurrent_cone_effects (new_index g) cone)
            ∙ some_effect)
      where
        three_lists :
            {p q r : Bool} (a b c : List ConcurrentWitness)
            → some_element a ≡ p
            → some_element b ≡ q
            → some_element c ≡ r
            → some_element (a ++ (b ++ c)) ≡ (p || (q || r))
        three_lists a b c h k l =
            any-append (λ x. true) a (b ++ c)
            ∙ rw (any-append (λ (x : ConcurrentWitness). true) b c, h, k, l) refl

    pub hits_iff : (some_element (surface_hits surface bound) ≡ true) ↔ SurfaceHit g bound
    hits_iff = (
      λ h.
          elim (or_true (any direct_hit g.edges) (any target_fn cone || any effect_hit g.edges)
            (sym some_hits ∙ h)) [
              | inl d ↦
                  let (e, m, p) = any_witness direct_hit g.edges d in
                  let (b, rest) = and_true _ _ p in
                  on_direct e m b (and_true _ _ rest).0 (and_true _ _ rest).1
              | inr later ↦ elim (or_true (any target_fn cone) (any effect_hit g.edges) later) [
                | inl f ↦
                    let (t, m, p) = any_witness target_fn cone f in
                    on_function t ((surface_cone_iff t).0 (In-contains m)) p
                | inr f ↦
                    let (e, m, p) = any_witness effect_hit g.edges f in
                    let (b, rest) = and_true _ _ p in
                    on_effect e m b ((surface_cone_iff e.from).0 (and_true _ _ rest).0)
                      (and_true _ _ rest).1
              ]
            ],
      λ k. some_hits ∙ by_kind k,
    )
      where
        by_kind :
            SurfaceHit g bound
            → (any direct_hit g.edges || (any target_fn cone || any effect_hit g.edges)) ≡ true
        by_kind (on_direct e m b c t) =
            or_left _ _ (any-In direct_hit m (and_both _ _ b (and_both _ _ c t)))
        by_kind (on_function f s t) =
            or_right _ _
              (or_left _ _ (any-In target_fn (contains-In f cone ((surface_cone_iff f).1 s)) t))
        by_kind (on_effect e m b s t) = or_right _ _ (
            or_right _ _ (
              any-In effect_hit m
                (and_both _ _ b (and_both _ _ ((surface_cone_iff e.from).1 s) t))))
