-- ===== src/Facts/Blindness.antt =====
-- When a whole cone hides nothing: blindForCone of internal/groundwork/facts/reach.go.
use verdi_go.Prelude.{
  ◌≡◌, refl, sym, ◌∙◌, ◌↔◌, false, none, List, [], ◌∷◌, map, keep, In, not-In_nil, nat_Eq, bool_Eq,
  list_Eq, Str, Str_Eq, pair_Eq, at_key, here, there,
}
use verdi_go.Graph.Types.{Graph}
use verdi_go.Graph.Index.{new_index}
use verdi_go.Facts.Frontier.{
  BoundaryEffect, effects_by_owner, canonical_blind_witnesses, first, blind_site, dynamic_witness,
  blind_effect, blind_for_cone,
}
use verdi_go.Facts.Visibility.{
  dynamic_at, IsVisible, first-canonical_iff, or_else-none, blind_site_iff, dynamic_effects,
}

module _ (g : Graph) (from : Str) where
  own_effects_iff :
      (fn : Str)
      → (first (
            canonical_blind_witnesses (
              map (dynamic_witness from fn) (
                keep
                  (λ (e : BoundaryEffect). e.dynamic)
                  (at_key fn (effects_by_owner (new_index g))))))
          ≡ none)
        ↔ (dynamic_at g fn ≡ false)
  own_effects_iff fn =
      let i =
        first-canonical_iff (λ (e : BoundaryEffect). e.dynamic) (dynamic_witness from fn)
          (at_key fn (effects_by_owner (new_index g))) in
      (λ h. sym (dynamic_effects g from fn) ∙ i.0 h, λ h. i.1 (dynamic_effects g from fn ∙ h))

  pub blind_effect_iff :
      (cone : List Str)
      → (blind_effect from cone (effects_by_owner (new_index g)) ≡ none)
        ↔ ((fn : Str) → In fn cone → dynamic_at g fn ≡ false)
  unfolding blind_effect
  blind_effect_iff [] = (λ h fn m. absurd (not-In_nil m), λ h. refl)
  blind_effect_iff (c ∷ cone) =
      let i =
        or_else-none
          (first (
            canonical_blind_witnesses (
              map (dynamic_witness from c) (
                keep (λ (e : BoundaryEffect). e.dynamic)
                  (at_key c (effects_by_owner (new_index g)))))))
          (blind_effect from cone (effects_by_owner (new_index g))) in
      (
        λ h fn m.
            let (own, rest) = i.0 h in
            own_or_later fn m ((own_effects_iff c).0 own) ((blind_effect_iff cone).0 rest),
        λ h.
            i.1 (
              (own_effects_iff c).1 (h c here),
              (blind_effect_iff cone).1 (λ fn m. h fn (there m)),
            ),
      )
    where
      own_or_later :
          (fn : Str)
          → In fn (c ∷ cone)
          → dynamic_at g c ≡ false
          → ((x : Str) → In x cone → dynamic_at g x ≡ false)
          → dynamic_at g fn ≡ false
      own_or_later fn here p q = p
      own_or_later fn (there m) p q = q fn m

  -- No blind witness is named for a cone exactly when every function of it is visible.
  pub blind_for_cone_iff :
      (cone : List Str)
      → (blind_for_cone (new_index g) from cone (effects_by_owner (new_index g)) ≡ none)
        ↔ ((fn : Str) → In fn cone → IsVisible g fn)
  unfolding blind_for_cone
  blind_for_cone_iff cone =
      let i =
        or_else-none (blind_site (new_index g) from cone)
          (blind_effect from cone (effects_by_owner (new_index g))) in
      (
        λ h fn m.
            let (sites, effects) = i.0 h in
            let (own, pkg) = (blind_site_iff g from cone).0 sites fn m in
            record {
              function_site = own;
              package_site = pkg;
              effects_named = (blind_effect_iff cone).0 effects fn m;
            },
        λ h. i.1 (
          (blind_site_iff g from cone).1 (λ fn m. ((h fn m).function_site, (h fn m).package_site)),
          (blind_effect_iff cone).1 (λ fn m. (h fn m).effects_named),
        ),
      )
