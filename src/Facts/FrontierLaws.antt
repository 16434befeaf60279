-- ===== src/Facts/FrontierLaws.antt =====
-- When the frontier of a cone and of the edges that its functions own names no blind witness: BlindFrontier of
-- internal/groundwork/facts/reach.go.
use verdi_go.Prelude.{
  ◌≡◌, refl, sym, ap, ◌∙◌, ◌↔◌, inl, inr, Bool, true, false, ◌&&◌, not, none, List, [], ◌∷◌, arith,
  Bool-cases, and_true, any, keep, In, bool_Eq, ◌==◌, eq_iff, nat_Eq, contains, list_Eq,
  contains-In, In-contains, contains-keep, Str, Str_Eq, sorted_keys, contains-sorted_keys, pair_Eq,
}
use verdi_go.Graph.Types.{Graph, Edge, is_boundary, is_dynamic}
use verdi_go.Graph.Index.{new_index}
use verdi_go.Graph.Surface
use verdi_go.Facts.Match.{canonical_strings}
use verdi_go.Facts.Frontier.{
  canonical_boundary_effects, group_effects, effects_by_owner, blind_site, blind_effect,
  blind_for_cone, source_first, blind_frontier,
}
use verdi_go.Facts.Visibility.{dynamic_at, IsVisible, or_else-none, blind_site_iff}
use verdi_go.Facts.Blindness.{blind_effect_iff}

contains-source_first :
    (from : Str) (cone : List Str) (fn : Str)
    → contains fn (source_first from cone) ≡ contains fn cone
unfolding source_first contains
contains-source_first from cone fn = elim (Bool-cases (not (from == []) && contains from cone)) [
  | inr e ↦ rw e refl
  | inl e ↦
      let (given, member) = and_true (not (from == [])) (contains from cone) e in
      rw e (found fn member)
]
  where
    found :
        (fn : Str)
        → contains from cone ≡ true
        → contains fn (from ∷ keep (λ x. not (x == from)) cone) ≡ contains fn cone
    found fn m = elim (Bool-cases (fn == from)) [
      | inl s ↦
          let k : contains fn cone ≡ true = ap (λ x. contains x cone) ((eq_iff fn from).0 s) ∙ m in
          ground (arith, s, k)
      | inr n ↦ ground (arith, n, contains-keep (λ x. not (x == from)) fn cone)
    ]

-- The boundary edges with a label that could not be named, of one owner.
abbrev pub dynamic_of : Str → Edge → Bool
dynamic_of fn e = is_boundary e && (e.from == fn && is_dynamic e)

pub dynamic_of-owned :
    (fn : Str) (cone : List Str)
    → contains fn cone ≡ true
    → (e : Edge) → (is_boundary e && (contains e.from cone && dynamic_of fn e)) ≡ dynamic_of fn e
dynamic_of-owned fn cone m e = elim (Bool-cases (e.from == fn)) [
  | inl s ↦
      let k : contains e.from cone ≡ true =
        ap (λ x. contains x cone) ((eq_iff e.from fn).0 s) ∙ m in
      ground (arith, s, k)
  | inr n ↦ ground (arith, n)
]

module _ (g : Graph) (from : Str) (cone : List Str) (es : List Edge) where
  effect_iff :
      (fns : List Str)
      → (blind_effect from fns (group_effects (canonical_boundary_effects es) []) ≡ none)
        ↔ ((fn : Str) → In fn fns → any (dynamic_of fn) es ≡ false)
  unfolding effects_by_owner Surface.edges new_index
  effect_iff fns = blind_effect_iff (record g { edges = es }) from fns

  -- The frontier names no blind witness exactly when every function of the cone is visible, where the edges
  -- are those that the functions of the cone own.
  pub blind_frontier_iff :
      ((fn : Str) → contains fn cone ≡ true → any (dynamic_of fn) es ≡ dynamic_at g fn)
      → (blind_frontier (new_index g) from cone es ≡ none)
        ↔ ((fn : Str) → contains fn cone ≡ true → IsVisible g fn)
  unfolding blind_frontier blind_for_cone canonical_strings sorted_keys
  blind_frontier_iff owned =
      let fns = source_first from (sorted_keys cone) in
      let both = or_else-none (blind_site (new_index g) from fns) _ in
      (
        λ h fn m.
            let (sites, effects) = both.0 h in
            let i = contains-In fn fns (same fn ∙ m) in
            let (own, pkg) = (blind_site_iff g from fns).0 sites fn i in
            record {
              function_site = own;
              package_site = pkg;
              effects_named = sym (owned fn m) ∙ (effect_iff fns).0 effects fn i;
            },
        λ v. both.1 (
          (blind_site_iff g from fns).1 (λ fn i.
              let q = v fn (sym (same fn) ∙ In-contains i) in (q.function_site, q.package_site)),
          (effect_iff fns).1 (λ fn i.
              let m = sym (same fn) ∙ In-contains i in owned fn m ∙ (v fn m).effects_named),
        ),
      )
    where
      same : (fn : Str) → contains fn (source_first from (sorted_keys cone)) ≡ contains fn cone
      same fn = contains-source_first from (sorted_keys cone) fn ∙ contains-sorted_keys fn cone
