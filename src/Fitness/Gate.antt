-- ===== src/Fitness/Gate.antt =====
-- The gate against the findings (internal/groundwork/fitness/result.go).
use verdi_go.Prelude.{
  ◌≡◌, refl, sym, ap, ◌∙◌, ◌↔◌, inl, inr, Bool, true, false, not, List, [], ◌∷◌, Bool-cases,
  not-true, any, keep, bool_Eq, nat_Eq, list_Eq, Str_Eq, sort_by, any-sort_by, pair_Eq,
}
use verdi_go.Fitness.Findings.{
  Severity, caution, violation, Finding, has_severity, ok, by_severity, violations, cautions,
  finding_less, sort,
}

pub ok-any : (fs : List Finding) → ok fs ≡ not (any (has_severity violation) fs)
unfolding ok
ok-any [] = refl
ok-any (f ∷ fs) = elim (Bool-cases (has_severity violation f)) [
  | inl e ↦ rw e refl
  | inr e ↦ rw e (ok-any fs)
]

keep-nil : (p : Finding → Bool) (fs : List Finding) → (keep p fs ≡ []) ↔ (any p fs ≡ false)
keep-nil p [] = (λ h. refl, λ h. refl)
keep-nil p (f ∷ fs) = elim (Bool-cases (p f)) [
  | inl e ↦ rw e (λ h. cc, λ h. cc)
  | inr e ↦ rw e (keep-nil p fs)
]

-- The gate passes exactly when there are no violations, and sorting the findings changes neither the gate
-- nor, for a given severity, whether some finding of that severity is there.
pub ok-sort :
    (fs : List Finding)
    → ((ok fs ≡ true) ↔ (violations fs ≡ []))
      × (ok (sort fs) ≡ ok fs)
      × ((violations (sort fs) ≡ []) ↔ (violations fs ≡ []))
      × ((cautions (sort fs) ≡ []) ↔ (cautions fs ≡ []))
unfolding violations cautions by_severity sort
ok-sort fs =
    let same : (s : Severity)
        → any (has_severity s) (sort_by finding_less fs) ≡ any (has_severity s) fs =
      λ s. any-sort_by finding_less (has_severity s) fs in
    let still : (s : Severity)
        → (keep (has_severity s) (sort_by finding_less fs) ≡ []) ↔ (keep (has_severity s) fs ≡ []) =
      λ s. (
        λ h.
            (keep-nil (has_severity s) fs).1
              (sym (same s) ∙ (keep-nil (has_severity s) (sort_by finding_less fs)).0 h),
        λ h.
            (keep-nil (has_severity s) (sort_by finding_less fs)).1
              (same s ∙ (keep-nil (has_severity s) fs).0 h),
      ) in
    (
      (
        λ h. (keep-nil (has_severity violation) fs).1 (not-true _ (sym (ok-any fs) ∙ h)),
        λ h. ok-any fs ∙ ap not ((keep-nil (has_severity violation) fs).0 h),
      ),
      ok-any (sort_by finding_less fs) ∙ ap not (same violation) ∙ sym (ok-any fs),
      still violation,
      still caution,
    )
