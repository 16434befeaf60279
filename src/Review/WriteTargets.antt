-- ===== src/Review/WriteTargets.antt =====
-- The effect ratchet against the edges of the two graphs (internal/groundwork/review/routeio.go: newWriteTargets).
use verdi_go.Prelude.{
  ◌≡◌, refl, sym, ◌∙◌, ◌↔◌, inl, inr, Bool, true, false, ◌&&◌, not, arith, Bool-cases, and_true,
  not-true, and_both, keep, bool_Eq, nat_Eq, contains, list_Eq, contains-keep, Str, Str_Eq,
  contains-sorted_keys, pair_Eq,
}
use verdi_go.Graph.Types.{Graph}
use verdi_go.Policy.Types.{Policy, effect_allows}
use verdi_go.Fitness.Effects.{labels, write_label}
use verdi_go.Fitness.WriteSurface.{Reads, contains-labels}
use verdi_go.Review.RouteIo.{new_write_targets}

-- A label that an edge of the branch writes and no edge of the base, outside the allow-list.
pub record IsNewTarget (p : Policy) (base branch : Graph) (l : Str) : Type 0 where
  pub written : Reads write_label branch.edges l
  pub fresh : ¬ Reads write_label base.edges l
  pub ungranted : effect_allows p.effect_ratchet l ≡ false

contains-new_write_targets :
    (p : Policy) (base branch : Graph) (l : Str)
    → contains l (new_write_targets p base branch) ≡ (
        contains l (labels write_label branch.edges)
        && (not (contains l (labels write_label base.edges))
            && not (effect_allows p.effect_ratchet l)))
unfolding new_write_targets
contains-new_write_targets p base branch l =
    contains-sorted_keys l (keep fresh (labels write_label branch.edges))
    ∙ contains-keep fresh l (labels write_label branch.edges)
  where
    fresh : Str → Bool
    fresh k =
        not (contains k (labels write_label base.edges)) && not (effect_allows p.effect_ratchet k)

-- The new write targets are exactly the labels that an edge of the branch writes, that no edge of the
-- base writes and that the ratchet does not allow.
pub new_write_targets_iff :
    (p : Policy) (base branch : Graph) (l : Str)
    → (contains l (new_write_targets p base branch) ≡ true) ↔ IsNewTarget p base branch l
new_write_targets_iff p base branch l = (
  λ h.
      let (w, rest) = and_true _ _ (sym (contains-new_write_targets p base branch l) ∙ h) in
      let (f, u) = and_true _ _ rest in
      record {
        written = (contains-labels write_label branch.edges l).0 w;
        fresh = λ r. not_both f ((contains-labels write_label base.edges l).1 r);
        ungranted = not-true _ u;
      },
  λ n.
      contains-new_write_targets p base branch l
      ∙ and_both _ _ ((contains-labels write_label branch.edges l).1 n.written)
          (and_both _ _ (unwritten n.fresh) (not_false n.ungranted)),
)
  where
    not_both : {b : Bool} → not b ≡ true → b ≡ true → ⊥
    not_both f h = cc

    not_false : {b : Bool} → b ≡ false → not b ≡ true
    not_false h = ground arith

    unwritten :
        ¬ Reads write_label base.edges l → not (contains l (labels write_label base.edges)) ≡ true
    unwritten n = elim (Bool-cases (contains l (labels write_label base.edges))) [
      | inl e ↦ absurd (n ((contains-labels write_label base.edges l).0 e))
      | inr e ↦ rw e refl
    ]
