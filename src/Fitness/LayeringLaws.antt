-- ===== src/Fitness/LayeringLaws.antt =====
-- When checkLayering (internal/groundwork/fitness/layering.go) lets the calls pass.
use verdi_go.Prelude.{
  ℕ, ◌+◌, ◌≡◌, refl, sym, ◌∙◌, ◌↔◌, inl, inr, true, false, Option, none, some, List, arith, nat_eq,
  Bool-cases, true_ne_false, All, All-In, In-All, bool_Eq, ◌==◌, eq_iff, nat_Eq, contains, list_Eq,
  contains-In, In-contains, Str, Str_Eq, pair_Eq, Format,
}
use verdi_go.Graph.Index.{Index, nodes}
use verdi_go.Policy.Types.{Policy, Layer, Layering}
use verdi_go.Policy.Layers.{layer_of, layer_rank}
use verdi_go.Fitness.Names.{pkg_of}
use verdi_go.Fitness.Breaks.{breaks, breaks-flat_map}
use verdi_go.Fitness.Layering.{
  is_root_pkg, exempted, has_layer, effective_layered_callees, judge_call, judge_caller,
  layering_findings, check_layering,
}
use verdi_go.Fitness.Descent.{Leads, lands}
use verdi_go.Fitness.DescentBound.{effective_layered_callees_iff}

abbrev layer_at : List Layer → Str → Str
layer_at layers fn = layer_of layers (pkg_of fn)

abbrev rank_at : List Layer → Str → ℕ
rank_at layers fn = (layer_rank layers (layer_at layers fn)).0

-- The calls that the layering permits.
pub data IsPermitted (layers : List Layer) (layering : Layering) (from to : Str) : Type 0 where
  same_layer : layer_at layers to ≡ layer_at layers from → IsPermitted layers layering from to
  one_down : rank_at layers to ≡ rank_at layers from + 1 → IsPermitted layers layering from to
  exception : exempted layering.allow from to ≡ true → IsPermitted layers layering from to

judge_call-IsPermitted :
    (format : Format) (layers : List Layer) (layering : Layering) (ix : Index) (from to : Str)
    → (breaks (judge_call format layers layering ix from to) ≡ false)
      ↔ IsPermitted layers layering from to
unfolding judge_call
judge_call-IsPermitted format layers layering ix from to =
    elim (Bool-cases (layer_at layers to == layer_at layers from)) [
      | inl s ↦ rw s (λ h. same_layer ((eq_iff _ _).0 s), λ p. refl)
      | inr other ↦ elim (Bool-cases (nat_eq (rank_at layers to) (rank_at layers from + 1))) [
        | inl d ↦ rw (other, d) (λ h. one_down (ground arith), λ p. refl)
        | inr far ↦ elim (Bool-cases (exempted layering.allow from to)) [
          | inl e ↦ rw (other, far, e) (λ h. exception e, λ p. refl)
          | inr n ↦ rw (other, far, n) (λ h. cc, λ p. absurd (refused other far n p))
        ]
      ]
    ]
  where
    refused :
        (layer_at layers to == layer_at layers from) ≡ false
        → nat_eq (rank_at layers to) (rank_at layers from + 1) ≡ false
        → exempted layering.allow from to ≡ false
        → IsPermitted layers layering from to
        → ⊥
    refused other far n (same_layer e) = true_ne_false (sym ((eq_iff _ _).1 e) ∙ other)
    refused other far n (one_down e) = ground (arith, far, e)
    refused other far n (exception e) = true_ne_false (sym e ∙ n)

module _ (layers : List Layer) (layering : Layering) (ix : Index) where
  -- A caller is judged if it belongs to a layer and to no root; so are the functions that its calls lead to.
  pub record CallerHolds (from : Str) : Type 0 where
    pub permitted :
        lands layers layering.roots ix from ≡ true
        → (to : Str) → Leads layers layering.roots ix from to
        → lands layers layering.roots ix to ≡ true
        → IsPermitted layers layering from to

  judge_caller-CallerHolds :
      (format : Format) (from : Str)
      → (breaks (judge_caller format layers layering ix from) ≡ false) ↔ CallerHolds from
  unfolding judge_caller
  judge_caller-CallerHolds format from =
      elim (Bool-cases (is_root_pkg layering.roots (pkg_of from))) [
        | inl root ↦ rw root (λ h. record { permitted = λ l. absurd (unjudged l root) }, λ v. refl)
        | inr plain ↦ elim (Bool-cases (has_layer layers from)) [
          | inr bare ↦
              rw (plain, bare)
                (λ h. record { permitted = λ l. absurd (unlayered l bare) }, λ v. refl)
          | inl layered ↦
              let calls =
                breaks-flat_map (judge_call format layers layering ix from)
                  (IsPermitted layers layering from)
                  (judge_call-IsPermitted format layers layering ix from)
                  (effective_layered_callees layers layering.roots ix from) in
              rw (plain, layered)
                (
                  λ h. record {
                    permitted = λ l to r m.
                        All-In (IsPermitted layers layering from)
                          (contains-In to _ ((landed to).1 (r, m))) (calls.0 h);
                  },
                  λ v. calls.1 (
                      In-All (IsPermitted layers layering from) _ (λ to i.
                        let (r, m) = (landed to).0 (In-contains i) in
                        v.permitted (judged plain layered) to r m)),
                )
        ]
      ]
    where
      landed :
          (to : Str)
          → (contains to (effective_layered_callees layers layering.roots ix from) ≡ true)
            ↔ (Leads layers layering.roots ix from to × (lands layers layering.roots ix to ≡ true))
      landed to = effective_layered_callees_iff layers layering.roots ix from to

      unjudged :
          lands layers layering.roots ix from ≡ true
          → is_root_pkg layering.roots (pkg_of from) ≡ true
          → ⊥
      unjudged l root = ground (arith, l, root)

      unlayered : lands layers layering.roots ix from ≡ true → has_layer layers from ≡ false → ⊥
      unlayered l bare = ground (arith, l, bare)

      judged :
          is_root_pkg layering.roots (pkg_of from) ≡ false
          → has_layer layers from ≡ true
          → lands layers layering.roots ix from ≡ true
      judged plain layered = ground (arith, plain, layered)

abbrev pub LayeringHolds : List Layer → Index → Option Layering → Type 0
LayeringHolds layers ix none = Unit
LayeringHolds layers ix (some layering) = All (CallerHolds layers layering ix) (nodes ix)

layering_findings-LayeringHolds :
    (format : Format) (layers : List Layer) (ix : Index) (o : Option Layering)
    → (breaks (layering_findings format layers ix o) ≡ false) ↔ LayeringHolds layers ix o
unfolding layering_findings
layering_findings-LayeringHolds format layers ix none = (λ h. tt, λ h. refl)
layering_findings-LayeringHolds format layers ix (some layering) =
    breaks-flat_map _ (CallerHolds layers layering ix)
      (judge_caller-CallerHolds layers layering ix format) (nodes ix)

-- The layering brings no violation exactly when it is not configured, or every declared function that belongs to a
-- layer and to no root reaches, by a call or through a chain of calls of functions of no layer and no root, only
-- functions of roots, of no layer, of its own layer or of the next one, or of a layer that an exception permits.
pub check_layering-LayeringHolds :
    (format : Format) (p : Policy) (ix : Index)
    → (breaks (check_layering format p ix) ≡ false) ↔ LayeringHolds p.layers ix p.layering
unfolding check_layering
check_layering-LayeringHolds format p ix =
    layering_findings-LayeringHolds format p.layers ix p.layering
