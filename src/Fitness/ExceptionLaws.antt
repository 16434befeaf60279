-- ===== src/Fitness/ExceptionLaws.antt =====
-- What the allow-lists suppress (internal/groundwork/fitness/exceptions.go, layering.go).
use verdi_go.Prelude.{
  ◌+◌, ◌≡◌, refl, sym, ap, subst, ◌∙◌, ◌↔◌, inl, inr, Bool, false, not, Option, some, List, [], ◌∷◌,
  ◌++◌, map, nat_eq, Bool-cases, keep, All, flat_map, bool_Eq, ◌==◌, nat_Eq, list_Eq, Str, Str_Eq,
  pair_Eq, Format,
}
use verdi_go.Graph.Types.{Graph}
use verdi_go.Graph.Index.{Index, nodes, new_index}
use verdi_go.Policy.Types.{Policy, Layer, Layering, PassRule}
use verdi_go.Policy.Layers.{layer_of, layer_rank}
use verdi_go.Fitness.Names.{pkg_of}
use verdi_go.Fitness.Findings.{Finding}
use verdi_go.Fitness.Layering.{
  is_root_pkg, has_layer, exempted, judge_call, judge_caller, effective_layered_callees,
  layering_findings, check_layering,
}
use verdi_go.Fitness.Exceptions.{strip_layering, strip_allows, without_allow}
use verdi_go.Fitness.Breaks.{breaks}
use verdi_go.Fitness.PassThrough.{check_must_pass_through}
use verdi_go.Fitness.PassThroughLaws.{PassHolds, check_must_pass_through-PassHolds}
use verdi_go.Fitness.LayeringLaws.{LayeringHolds, check_layering-LayeringHolds}

keep-append :
    (keeps : Finding → Bool) (fs gs : List Finding)
    → keep keeps (fs ++ gs) ≡ keep keeps fs ++ keep keeps gs
keep-append keeps [] gs = refl
keep-append keeps (f ∷ fs) gs = elim (Bool-cases (keeps f)) [
  | inl e ↦ rw e (ap (λ r. f ∷ r) (keep-append keeps fs gs))
  | inr e ↦ rw e (keep-append keeps fs gs)
]

keep-flat_map :
    (keeps : Finding → Bool) (make other : Str → List Finding)
    → ((s : Str) → make s ≡ keep keeps (other s))
    → (xs : List Str) → flat_map make xs ≡ keep keeps (flat_map other xs)
keep-flat_map keeps make other same [] = refl
keep-flat_map keeps make other same (x ∷ xs) =
    ap (λ r. make x ++ r) (keep-flat_map keeps make other same xs)
    ∙ ap (λ r. r ++ keep keeps (flat_map other xs)) (same x)
    ∙ sym (keep-append keeps (other x) (flat_map other xs))

-- The findings that no exception of the layering matches.
abbrev pub unmatched : Layering → Finding → Bool
unmatched l f = not (exempted l.allow f.from f.to)

abbrev bare : Layering → Layering
bare l = record l { allow = [] }

module _ (format : Format) (layers : List Layer) (l : Layering) (ix : Index) where
  judge_call-bare :
      (from to : Str)
      → judge_call format layers l ix from to
        ≡ keep (unmatched l) (judge_call format layers (bare l) ix from to)
  unfolding judge_call exempted
  judge_call-bare from to =
      let from_layer = layer_of layers (pkg_of from) in
      let to_layer = layer_of layers (pkg_of to) in
      elim (Bool-cases (to_layer == from_layer)) [
        | inl s ↦ rw s refl
        | inr other ↦
            elim (Bool-cases
              (nat_eq (layer_rank layers to_layer).0 ((layer_rank layers from_layer).0 + 1))) [
                | inl d ↦ rw (other, d) refl
                | inr far ↦ elim (Bool-cases (exempted l.allow from to)) [
                  | inl e ↦ rw (other, far, e) refl
                  | inr n ↦ rw (other, far, n) refl
                ]
              ]
      ]

  judge_caller-bare :
      (from : Str)
      → judge_caller format layers l ix from
        ≡ keep (unmatched l) (judge_caller format layers (bare l) ix from)
  unfolding judge_caller
  judge_caller-bare from = elim (Bool-cases (is_root_pkg l.roots (pkg_of from))) [
    | inl root ↦ rw root refl
    | inr plain ↦ elim (Bool-cases (has_layer layers from)) [
      | inr none_of ↦ rw (plain, none_of) refl
      | inl layered ↦
          rw (plain, layered)
            (keep-flat_map (unmatched l) (judge_call format layers l ix from)
              (judge_call format layers (bare l) ix from) (judge_call-bare from)
              (effective_layered_callees layers l.roots ix from))
    ]
  ]

  layering_findings-bare :
      (o : Option Layering)
      → o ≡ some l
      → layering_findings format layers ix o
        ≡ keep (unmatched l) (layering_findings format layers ix (strip_layering o))
  unfolding layering_findings
  layering_findings-bare o e =
      subst
        (λ x.
          layering_findings format layers ix x
          ≡ keep (unmatched l) (layering_findings format layers ix (strip_layering x)))
        (sym e)
        (keep-flat_map (unmatched l) (judge_caller format layers l ix)
          (judge_caller format layers (bare l) ix) judge_caller-bare (nodes ix))

All-map {ℓ κ} :
    {A : Type ℓ} (P : A → Type κ) (f : A → A) (xs : List A)
    → All P (map f xs) ↔ All (λ x. P (f x)) xs
All-map P f [] = (λ h. tt, λ h. tt)
All-map P f (x ∷ xs) = let i = All-map P f xs in (λ (p, ps). (p, i.0 ps), λ (p, ps). (p, i.1 ps))

-- The allow-list of the layering suppresses exactly the findings that one of its entries matches: those of the
-- policy are, in the same order, those of the policy without allow-lists that no entry matches. Without
-- allow-lists the layering is quiet exactly when every effective call between layers stays or goes one layer down,
-- and the waypoint rules exactly when each of them holds with no exception.
pub check_layering-strip_allows :
    (format : Format) (p : Policy) (l : Layering) (g : Graph)
    → p.layering ≡ some l
    → (check_layering format p (new_index g)
        ≡ keep (unmatched l) (check_layering format (strip_allows p) (new_index g)))
      × ((breaks (check_layering format (strip_allows p) (new_index g)) ≡ false)
          ↔ LayeringHolds p.layers (new_index g) (some (record l { allow = [] })))
      × ((breaks (check_must_pass_through (strip_allows p) (new_index g)) ≡ false)
          ↔ All (λ (r : PassRule). PassHolds g (record r { allow = [] })) p.must_pass_through)
unfolding check_layering strip_allows
check_layering-strip_allows format p l g e =
    let pass = check_must_pass_through-PassHolds (strip_allows p) g in
    let bare_rules = All-map (PassHolds g) without_allow p.must_pass_through in
    (
      layering_findings-bare format p.layers l (new_index g) p.layering e,
      subst
          (λ o.
            (breaks (check_layering format (strip_allows p) (new_index g)) ≡ false)
            ↔ LayeringHolds p.layers (new_index g) (strip_layering o))
          e (check_layering-LayeringHolds format (strip_allows p) (new_index g)),
      (λ h. bare_rules.0 (pass.0 h), λ v. pass.1 (bare_rules.1 v)),
    )
