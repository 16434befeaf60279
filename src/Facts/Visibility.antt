-- ===== src/Facts/Visibility.antt =====
-- When a cone is visible: blindForCone of internal/groundwork/facts/reach.go names no witness exactly
-- when nothing in the cone hides anything.
use verdi_go.Prelude.{
  ◌≡◌, refl, sym, ap, subst, ◌∙◌, ◌↔◌, inl, inr, Bool, true, false, ◌&&◌, Option, none, some, List,
  [], ◌∷◌, map, Bool-cases, and_true, or_false, true_ne_false, and_both, Bool-ext, any, keep, In,
  any-In, any_witness, not-In_nil, ◌==◌, eq_iff, eq_self, nat_Eq, bool_Eq, contains, compact,
  list_Eq, contains-In, In-contains, contains_nil, contains-compact, Str, Str_Eq, sort_by,
  contains-sort_by, pair_Eq, at_key, here, there,
}
use verdi_go.Graph.Types.{Graph, Edge, BlindSpot, is_boundary, is_dynamic}
use verdi_go.Graph.Index.{new_index}
use verdi_go.Graph.Surface
use verdi_go.Graph.Disclosure.{blind_spots_at_lem}
use verdi_go.Facts.Types.{
  BlindWitness, BlindWitness_Eq, BlindLocation, blind_at_function, blind_in_package,
}
use verdi_go.Facts.Match.{package_of}
use verdi_go.Facts.Frontier.{
  BoundaryEffect, BoundaryEffect_Eq, effect_of, effects_by_owner, witness_less,
  canonical_blind_witnesses, is_opaque, spot_witness, site_witnesses, first, or_else, blind_site,
}
use verdi_go.Facts.Cone.{is_effect, contains-effects_by_owner}

-- A blind spot that may hide reachability stands at the site.
abbrev pub hides : Graph → Str → Bool
hides g site = any is_opaque (keep (λ (b : BlindSpot). b.site == site) g.blind_spots)

-- The function makes a boundary effect that could not be named.
abbrev pub dynamic_at : Graph → Str → Bool
dynamic_at g fn = any (λ (e : Edge). is_boundary e && (e.from == fn && is_dynamic e)) g.edges

-- Nothing is hidden at the function, nor at its package.
pub record IsVisible (g : Graph) (fn : Str) : Type 0 where
  pub function_site : hides g fn ≡ false
  pub package_site : hides g (package_of fn) ≡ false
  pub effects_named : dynamic_at g fn ≡ false

first-nil {ℓ} : {A : Type ℓ} (xs : List A) → first xs ≡ none → xs ≡ []
first-nil [] h = refl
first-nil (x ∷ xs) h = cc

canonical-nil : (ws : List BlindWitness) → canonical_blind_witnesses ws ≡ [] → ws ≡ []
unfolding canonical_blind_witnesses
canonical-nil [] h = refl
canonical-nil (w ∷ ws) h = absurd (
    true_ne_false (
      sym (In-contains {a = w} {xs = w ∷ ws} here)
      ∙ sym (
          contains-compact w (sort_by witness_less (w ∷ ws))
          ∙ contains-sort_by witness_less w (w ∷ ws))
      ∙ ap (contains w) h
      ∙ contains_nil w))

nil-canonical : canonical_blind_witnesses [] ≡ []
unfolding canonical_blind_witnesses sort_by compact
nil-canonical = refl

module _ {ℓ} {A : Type ℓ} (p : A → Bool) (f : A → BlindWitness) where
  map-keep-nil : (xs : List A) → map f (keep p xs) ≡ [] → any p xs ≡ false
  map-keep-nil [] h = refl
  map-keep-nil (x ∷ xs) h = elim (Bool-cases (p x)) [
    | inl e ↦ absurd (cons_ne_nil (rw e at h))
    | inr e ↦ rw e (map-keep-nil xs (rw e at h))
  ]
    where
      cons_ne_nil : {w : BlindWitness} {ws : List BlindWitness} → w ∷ ws ≡ [] → ⊥
      cons_ne_nil h = cc

  nil-map-keep : (xs : List A) → any p xs ≡ false → map f (keep p xs) ≡ []
  nil-map-keep [] h = refl
  nil-map-keep (x ∷ xs) h =
      let (e, rest) = or_false (p x) (any p xs) h in rw e (nil-map-keep xs rest)

  -- No canonical witness is selected exactly when no candidate passes the test.
  pub first-canonical_iff :
      (xs : List A)
      → (first (canonical_blind_witnesses (map f (keep p xs))) ≡ none) ↔ (any p xs ≡ false)
  first-canonical_iff xs = (
    λ h. map-keep-nil xs (canonical-nil _ (first-nil _ h)),
    λ h. ap first (ap canonical_blind_witnesses (nil-map-keep xs h) ∙ nil-canonical),
  )

pub or_else-none {ℓ} :
    {A : Type ℓ} (a b : Option A) → (or_else a b ≡ none) ↔ ((a ≡ none) × (b ≡ none))
or_else-none none b = (λ h. (refl, h), λ h. h.1)
or_else-none (some x) b = (λ h. cc, λ h. cc h.0)

module _ (g : Graph) (from : Str) where
  site_iff :
      (site : Str) (location : BlindLocation)
      → (first (site_witnesses (new_index g) from site location) ≡ none) ↔ (hides g site ≡ false)
  unfolding site_witnesses
  site_iff site location =
      let i =
        first-canonical_iff is_opaque (spot_witness from site location)
          (Surface.blind_spots_at (new_index g) site) in
      let at_site : any is_opaque (Surface.blind_spots_at (new_index g) site) ≡ hides g site =
        ap (any is_opaque) (blind_spots_at_lem g site) in
      (λ h. sym at_site ∙ i.0 h, λ h. i.1 (at_site ∙ h))

  pub dynamic_effects :
      (fn : Str)
      → any (λ (e : BoundaryEffect). e.dynamic) (at_key fn (effects_by_owner (new_index g)))
        ≡ dynamic_at g fn
  dynamic_effects fn =
      Bool-ext _ _
        (λ h.
          let (b, m, d) =
            any_witness (λ (e : BoundaryEffect). e.dynamic)
              (at_key fn (effects_by_owner (new_index g))) h in
          let (some_edge, owner) =
            and_true _ _ (sym (contains-effects_by_owner g fn b) ∙ In-contains m) in
          let (e, m', p) = any_witness (is_effect b) g.edges some_edge in
          let (bound, same) = and_true _ _ p in
          let eq : b ≡ effect_of e = (eq_iff b (effect_of e)).0 same in
          any-In (λ (x : Edge). is_boundary x && (x.from == fn && is_dynamic x)) m'
            (and_both _ _ bound (
              and_both _ _ (subst (λ (x : BoundaryEffect). (x.from == fn) ≡ true) eq owner)
                (subst (λ (x : BoundaryEffect). x.dynamic ≡ true) eq d))))
        (λ h.
          let (e, m, p) =
            any_witness (λ (x : Edge). is_boundary x && (x.from == fn && is_dynamic x)) g.edges h in
          let (bound, rest) = and_true _ _ p in
          any-In (λ (x : BoundaryEffect). x.dynamic)
            (contains-In (effect_of e) (at_key fn (effects_by_owner (new_index g))) (
              contains-effects_by_owner g fn (effect_of e)
              ∙ and_both _ _
                  (any-In (is_effect (effect_of e)) m (and_both _ _ bound (eq_self (effect_of e))))
                  (and_true _ _ rest).0))
            (and_true _ _ rest).1)

  -- What the two loops look at, for one function.
  pub blind_site_iff :
      (cone : List Str)
      → (blind_site (new_index g) from cone ≡ none)
        ↔ ((fn : Str) → In fn cone → (hides g fn ≡ false) × (hides g (package_of fn) ≡ false))
  unfolding blind_site
  blind_site_iff [] = (λ h fn m. absurd (not-In_nil m), λ h. refl)
  blind_site_iff (c ∷ cone) =
      let i = or_else-none (first (site_witnesses (new_index g) from c blind_at_function)) _ in
      let j =
        or_else-none (first (site_witnesses (new_index g) from (package_of c) blind_in_package))
          (blind_site (new_index g) from cone) in
      (
        λ h fn m.
            let (own, rest) = i.0 h in
            let (pkg, later) = j.0 rest in
            In_cons fn m
              (
                (site_iff c blind_at_function).0 own,
                (site_iff (package_of c) blind_in_package).0 pkg,
              )
              ((blind_site_iff cone).0 later),
        λ h. i.1 (
          (site_iff c blind_at_function).1 (h c here).0,
          j.1 (
            (site_iff (package_of c) blind_in_package).1 (h c here).1,
            (blind_site_iff cone).1 (λ fn m. h fn (there m)),
          ),
        ),
      )
    where
      In_cons :
          (fn : Str)
          → In fn (c ∷ cone)
          → (hides g c ≡ false) × (hides g (package_of c) ≡ false)
          → ((x : Str) → In x cone → (hides g x ≡ false) × (hides g (package_of x) ≡ false))
          → (hides g fn ≡ false) × (hides g (package_of fn) ≡ false)
      In_cons fn here p q = p
      In_cons fn (there m) p q = q fn m
