-- ===== src/Fitness/Breaks.antt =====
-- Violations among the findings that a list of rules gives (internal/groundwork/fitness/result.go).
use verdi_go.Prelude.{
  ◌≡◌, refl, sym, ◌∙◌, ◌↔◌, Bool, true, false, ◌||◌, List, [], ◌∷◌, ◌++◌, arith, nat_eq, or_false,
  any, any-append, All, flat_map, bool_Eq, nat_Eq, list_Eq, Str_Eq, pair_Eq,
}
use verdi_go.Fitness.Findings.{Finding, violation, has_severity, severity_rank}
use verdi_go.Fitness.Messages.{unproved}

-- Some finding is a violation.
abbrev pub breaks : List Finding → Bool
breaks fs = any (has_severity violation) fs

pub unproved-rank : (b : Bool) → nat_eq (severity_rank (unproved b)) 1 ≡ b
unproved-rank true = refl
unproved-rank false = refl

-- No violation among the findings of the rules, exactly when each rule's are without one.
pub breaks-flat_map {ℓ} :
    {A : Type ℓ} (f : A → List Finding) (P : A → Type 0)
    → ((a : A) → (breaks (f a) ≡ false) ↔ P a)
    → (xs : List A) → (breaks (flat_map f xs) ≡ false) ↔ All P xs
breaks-flat_map f P own [] = (λ h. tt, λ h. refl)
breaks-flat_map f P own (x ∷ xs) = (
  λ h.
      let (now, later) =
        or_false _ _ (sym (any-append (has_severity violation) (f x) (flat_map f xs)) ∙ h) in
      ((own x).0 now, (breaks-flat_map f P own xs).0 later),
  λ (now, later).
      any-append (has_severity violation) (f x) (flat_map f xs)
      ∙ or_neither _ _ ((own x).1 now) ((breaks-flat_map f P own xs).1 later),
)
  where
    or_neither : (a b : Bool) → a ≡ false → b ≡ false → (a || b) ≡ false
    or_neither a b h k = ground arith

pub breaks-append : (fs gs : List Finding) → breaks (fs ++ gs) ≡ (breaks fs || breaks gs)
breaks-append fs gs = any-append (has_severity violation) fs gs
