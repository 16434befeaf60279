-- ===== src/Facts/ObligationLaws.antt =====
-- When a rule counts as proved and when as broken (internal/groundwork/facts/obligation.go).
use verdi_go.Prelude.{
  ◌≡◌, refl, sym, ap, subst, ◌∙◌, ◌↔◌, Bool, true, false, ◌&&◌, ◌||◌, not, some, List, [], ◌∷◌, map,
  arith, and_true, not-true, and_both, any, keep, ◌==◌, eq_iff, nat_Eq, bool_Eq, list_eq, list_Eq,
  Str, Str_Eq, sort_by, any-sort_by, pair_Eq,
}
use verdi_go.Graph.Types.{Graph, Obligation}
use verdi_go.Graph.Index.{new_index}
use verdi_go.Graph.Surface.{obligations}
use verdi_go.Facts.Obligation.{
  ObligationState, missing_data, unresolved, violated, unknown, cant_prove, unmatched, satisfied,
  status_violated, status_cant_prove, status_unmatched, status_satisfied,
  classify_obligation_status, conclude_flags, dominant_from, dominant_obligation_state,
  obligation_less, sort_obligations, answer_for, from_section, evaluate_obligation,
}

abbrev is_violated : ObligationState → Bool
is_violated violated = true
is_violated _ = false

abbrev is_satisfied : ObligationState → Bool
is_satisfied satisfied = true
is_satisfied _ = false

abbrev is_missing : ObligationState → Bool
is_missing missing_data = true
is_missing _ = false

is_violated_iff : (s : ObligationState) → (is_violated s ≡ true) ↔ (s ≡ violated)
is_violated_iff s = ground arith

is_satisfied_iff : (s : ObligationState) → (is_satisfied s ≡ true) ↔ (s ≡ satisfied)
is_satisfied_iff s = ground arith

abbrev is_empty {ℓ} : {A : Type ℓ} → List A → Bool
is_empty [] = true
is_empty (x ∷ xs) = false

is_violated-conclude_flags : (u c m s : Bool) → is_violated (conclude_flags u c m s) ≡ false
unfolding conclude_flags
is_violated-conclude_flags u c m s = ground arith

is_satisfied-conclude_flags :
    (u c m s : Bool) → is_satisfied (conclude_flags u c m s) ≡ (not u && (not c && (not m && s)))
unfolding conclude_flags
is_satisfied-conclude_flags u c m s = ground arith

is_violated-dominant_from :
    (xs : List ObligationState) (u c m s : Bool)
    → is_violated (dominant_from xs u c m s) ≡ any is_violated xs
unfolding dominant_from
is_violated-dominant_from [] u c m s = is_violated-conclude_flags u c m s
is_violated-dominant_from (violated ∷ xs) u c m s = refl
is_violated-dominant_from (unknown ∷ xs) u c m s = is_violated-dominant_from xs true c m s
is_violated-dominant_from (cant_prove ∷ xs) u c m s = is_violated-dominant_from xs u true m s
is_violated-dominant_from (unmatched ∷ xs) u c m s = is_violated-dominant_from xs u c true s
is_violated-dominant_from (satisfied ∷ xs) u c m s = is_violated-dominant_from xs u c m true
is_violated-dominant_from (missing_data ∷ xs) u c m s = is_violated-dominant_from xs true c m s
is_violated-dominant_from (unresolved ∷ xs) u c m s = is_violated-dominant_from xs true c m s

abbrev not_satisfied : ObligationState → Bool
not_satisfied s = not (is_satisfied s)

is_satisfied-dominant_from :
    (xs : List ObligationState) (u c m s : Bool)
    → is_satisfied (dominant_from xs u c m s)
      ≡ (not u && (not c && (not m && (not (any not_satisfied xs) && (s || not (is_empty xs))))))
unfolding dominant_from
is_satisfied-dominant_from [] u c m s = ground (arith, is_satisfied-conclude_flags u c m s)
is_satisfied-dominant_from (violated ∷ xs) u c m s = ground arith
is_satisfied-dominant_from (unknown ∷ xs) u c m s =
    ground (arith, is_satisfied-dominant_from xs true c m s)
is_satisfied-dominant_from (cant_prove ∷ xs) u c m s =
    ground (arith, is_satisfied-dominant_from xs u true m s)
is_satisfied-dominant_from (unmatched ∷ xs) u c m s =
    ground (arith, is_satisfied-dominant_from xs u c true s)
is_satisfied-dominant_from (satisfied ∷ xs) u c m s =
    ground (arith, is_satisfied-dominant_from xs u c m true)
is_satisfied-dominant_from (missing_data ∷ xs) u c m s =
    ground (arith, is_satisfied-dominant_from xs true c m s)
is_satisfied-dominant_from (unresolved ∷ xs) u c m s =
    ground (arith, is_satisfied-dominant_from xs true c m s)

status_lem : (a b st : Str) → (a == b) ≡ false → (st == a) ≡ true → (st == b) ≡ false
status_lem a b st h k = subst (λ x. (x == b) ≡ false) (sym ((eq_iff st a).0 k)) h

is_violated-classify :
    (st : Str) → is_violated (classify_obligation_status st) ≡ (st == status_violated)
unfolding classify_obligation_status
is_violated-classify st = ground arith

is_satisfied-classify :
    (st : Str) → is_satisfied (classify_obligation_status st) ≡ (st == status_satisfied)
unfolding classify_obligation_status list_eq
is_satisfied-classify st = ground (
  arith,
  status_lem status_violated status_satisfied st refl,
  status_lem status_cant_prove status_satisfied st refl,
  status_lem status_unmatched status_satisfied st refl,
)

module _ (rule : Str) where
  -- A record of the rule whose status is not SATISFIED.
  abbrev pub falls_short : Obligation → Bool
  falls_short o = (o.rule == rule) && not (o.status == status_satisfied)

  abbrev pub of_rule : Obligation → Bool
  of_rule o = o.rule == rule

  abbrev pub breaks : Obligation → Bool
  breaks o = (o.rule == rule) && (o.status == status_violated)

  abbrev state_of : Obligation → ObligationState
  state_of o = classify_obligation_status o.status

  any-map-keep :
      (p : ObligationState → Bool) (xs : List Obligation)
      → any p (map state_of (keep of_rule xs))
        ≡ any (λ (o : Obligation). of_rule o && p (state_of o)) xs
  any-map-keep p [] = refl
  any-map-keep p (x ∷ xs) = ground (arith, any-map-keep p xs)

  any-map :
      (p : ObligationState → Bool) (xs : List Obligation)
      → any p (map state_of xs) ≡ any (λ o. p (state_of o)) xs
  any-map p [] = refl
  any-map p (x ∷ xs) = ap (λ b. p (state_of x) || b) (any-map p xs)

  sorted_any :
      (p : ObligationState → Bool) (xs : List Obligation)
      → any p (map state_of (sort_obligations xs)) ≡ any (λ o. p (state_of o)) xs
  unfolding sort_obligations
  sorted_any p xs =
      any-map p (sort_by obligation_less xs) ∙ any-sort_by obligation_less (λ o. p (state_of o)) xs

  is_empty-any : (xs : List ObligationState) → is_empty xs ≡ not (any (λ s. true) xs)
  is_empty-any [] = refl
  is_empty-any (x ∷ xs) = refl

  is_violated-answer_for :
      (xs : List Obligation)
      → is_violated (answer_for rule xs).state ≡ any (λ o. is_violated (state_of o)) xs
  unfolding answer_for dominant_obligation_state
  is_violated-answer_for [] = refl
  is_violated-answer_for (r ∷ rs) =
      is_violated-dominant_from (map state_of (sort_obligations (r ∷ rs))) false false false false
      ∙ sorted_any is_violated (r ∷ rs)

  is_satisfied-answer_for :
      (xs : List Obligation)
      → is_satisfied (answer_for rule xs).state
        ≡ (not (any (λ o. not_satisfied (state_of o)) xs) && any (λ o. true) xs)
  unfolding answer_for dominant_obligation_state
  is_satisfied-answer_for [] = refl
  is_satisfied-answer_for (r ∷ rs) = ground (
    arith,
    is_satisfied-dominant_from (map state_of (sort_obligations (r ∷ rs))) false false false false,
    is_empty-any (map state_of (sort_obligations (r ∷ rs))),
    sorted_any not_satisfied (r ∷ rs),
    sorted_any (λ s. true) (r ∷ rs),
  )

  any-same :
      (p q : Obligation → Bool) (xs : List Obligation)
      → ((o : Obligation) → p o ≡ q o)
      → any p xs ≡ any q xs
  any-same p q [] h = refl
  any-same p q (x ∷ xs) h = rw (h x, any-same p q xs h) refl

  any-keep :
      (p : Obligation → Bool) (xs : List Obligation)
      → any p (keep of_rule xs) ≡ any (λ o. of_rule o && p o) xs
  any-keep p [] = refl
  any-keep p (x ∷ xs) = ground (arith, any-keep p xs)

  violated_lem :
      (xs : List Obligation) → is_violated (answer_for rule (keep of_rule xs)).state ≡ any breaks xs
  violated_lem xs =
      is_violated-answer_for (keep of_rule xs)
      ∙ any-keep (λ o. is_violated (state_of o)) xs
      ∙ any-same (λ o. of_rule o && is_violated (state_of o)) breaks xs
          (λ o. ap (λ b. of_rule o && b) (is_violated-classify o.status))

  satisfied_lem :
      (xs : List Obligation)
      → is_satisfied (answer_for rule (keep of_rule xs)).state
        ≡ (any of_rule xs && not (any falls_short xs))
  satisfied_lem xs =
      let short : any (λ (o : Obligation). of_rule o && not_satisfied (state_of o)) xs
          ≡ any falls_short xs =
        any-same (λ o. of_rule o && not_satisfied (state_of o)) falls_short xs
          (λ o. ap (λ b. of_rule o && not b) (is_satisfied-classify o.status)) in
      let named : any (λ (o : Obligation). of_rule o && true) xs ≡ any of_rule xs =
        any-same (λ o. of_rule o && true) of_rule xs (λ o. ground arith) in
      ground (
        arith,
        is_satisfied-answer_for (keep of_rule xs),
        any-keep (λ o. not_satisfied (state_of o)) xs,
        any-keep (λ o. true) xs,
        short,
        named,
      )

  section-violated :
      (xs : List Obligation) → is_violated (from_section rule xs).state ≡ any breaks xs
  unfolding from_section
  section-violated [] = refl
  section-violated (x ∷ xs) = violated_lem (x ∷ xs)

  section-satisfied :
      (xs : List Obligation)
      → is_satisfied (from_section rule xs).state ≡ (any of_rule xs && not (any falls_short xs))
  unfolding from_section
  section-satisfied [] = refl
  section-satisfied (x ∷ xs) = satisfied_lem (x ∷ xs)

  module _ (g : Graph) where
    abbrev answer : ObligationState
    answer = (evaluate_obligation (some (new_index g)) rule).state

    answer-violated : is_violated answer ≡ any breaks g.obligations
    unfolding evaluate_obligation obligations new_index
    answer-violated = section-violated g.obligations

    answer-satisfied :
        is_satisfied answer ≡ (any of_rule g.obligations && not (any falls_short g.obligations))
    unfolding evaluate_obligation obligations new_index
    answer-satisfied = section-satisfied g.obligations

-- A rule counts as violated exactly when some record of exactly that name has the status VIOLATED, whatever
-- the other records say.
pub evaluate_obligation-violated :
    (g : Graph) (rule : Str)
    → ((evaluate_obligation (some (new_index g)) rule).state ≡ violated)
      ↔ (any (breaks rule) g.obligations ≡ true)
evaluate_obligation-violated g rule = (
  λ h. sym (answer-violated rule g) ∙ (is_violated_iff _).1 h,
  λ h. (is_violated_iff _).0 (answer-violated rule g ∙ h),
)

-- A rule counts as satisfied exactly when the graph has a record of exactly that name and every such record
-- has the status SATISFIED: no abstention, unknown status or violation hides behind it.
pub evaluate_obligation-satisfied :
    (g : Graph) (rule : Str)
    → ((evaluate_obligation (some (new_index g)) rule).state ≡ satisfied)
      ↔ ((any (of_rule rule) g.obligations ≡ true) × (any (falls_short rule) g.obligations ≡ false))
evaluate_obligation-satisfied g rule = (
  λ h.
      let (named, none_short) =
        and_true _ _ (sym (answer-satisfied rule g) ∙ (is_satisfied_iff _).1 h) in
      (named, not-true _ none_short),
  λ h. (is_satisfied_iff _).0 (answer-satisfied rule g ∙ and_both _ _ h.0 (ap not h.1)),
)
