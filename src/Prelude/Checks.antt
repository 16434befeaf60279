-- ===== src/Prelude/Checks.antt =====
-- Validation as Go writes it: checks in order, of which the first that fails is the error.
use Prim.Native.Nat.{ℕ, ◌+◌}
use mathlib.Core.Path.{◌≡◌, refl}
use mathlib.Core.Bool.{Bool, true, false}
use mathlib.Core.Logic.{◌↔◌}
use mathlib.Core.List.{List, [], ◌∷◌, map}
use mathlib.Core.Option.{Option, none, some}
use verdi_go.Prelude.Lists.{All}
use verdi_go.Prelude.Equality.{contains, list_Eq, nat_Eq}
use verdi_go.Prelude.Text.{Str, Str_Eq}

module _ {ℓ} {E : Type ℓ} where
  -- `if refused { return error }`
  abbrev pub refuse_if : Bool → E → Option E
  refuse_if true e = some e
  refuse_if false e = none

  abbrev pub or_next : Option E → Option E → Option E
  or_next (some e) next = some e
  or_next none next = next

  abbrev pub first_error : List (Option E) → Option E
  first_error [] = none
  first_error (check ∷ checks) = or_next check (first_error checks)

  pub or_next-none :
      (first second : Option E) → (or_next first second ≡ none) ↔ ((first ≡ none) × (second ≡ none))
  or_next-none none second = (λ h. (refl, h), λ h. h.1)
  or_next-none (some e) second = (λ h. cc, λ h. cc h.0)

  pub first_error-none :
      (checks : List (Option E)) → (first_error checks ≡ none) ↔ All (λ c. c ≡ none) checks
  first_error-none [] = (λ h. tt, λ h. refl)
  first_error-none (check ∷ checks) = (
    λ h.
        let (now, later) = (or_next-none check (first_error checks)).0 h in
        (now, (first_error-none checks).0 later),
    λ (now, later).
        (or_next-none check (first_error checks)).1 (now, (first_error-none checks).1 later),
  )

-- Each name is new among those before it.
abbrev pub AllNew : List Str → List Str → Type 0
AllNew seen [] = Unit
AllNew seen (x ∷ xs) = (contains x seen ≡ false) × AllNew (x ∷ seen) xs

module _ {ℓ κ} {A : Type ℓ} {E : Type κ} where
  -- A loop over a slice, whose body sees the place.
  unfoldable pub check_each : (ℕ → A → Option E) → ℕ → List A → Option E
  check_each check i [] = none
  check_each check i (x ∷ xs) = or_next (check i x) (check_each check (i + 1) xs)

  -- A loop that keeps the set of the names so far.
  unfoldable pub check_named :
      (A → Str) → (ℕ → List Str → A → Option E) → ℕ → List Str → List A → Option E
  check_named name check i seen [] = none
  check_named name check i seen (x ∷ xs) =
      or_next (check i seen x) (check_named name check (i + 1) (name x ∷ seen) xs)

  pub check_each-none :
      (check : ℕ → A → Option E) (P : A → Type 0)
      → ((i : ℕ) (x : A) → (check i x ≡ none) ↔ P x)
      → (i : ℕ) (xs : List A) → (check_each check i xs ≡ none) ↔ All P xs
  unfolding check_each
  check_each-none check P own i [] = (λ h. tt, λ h. refl)
  check_each-none check P own i (x ∷ xs) = (
    λ h.
        let (now, later) = (or_next-none (check i x) (check_each check (i + 1) xs)).0 h in
        ((own i x).0 now, (check_each-none check P own (i + 1) xs).0 later),
    λ (now, later).
        (or_next-none (check i x) (check_each check (i + 1) xs)).1
          ((own i x).1 now, (check_each-none check P own (i + 1) xs).1 later),
  )

  pub check_named-none :
      (name : A → Str) (check : ℕ → List Str → A → Option E) (P : A → Type 0)
      → ((i : ℕ) (seen : List Str) (x : A)
          → (check i seen x ≡ none) ↔ ((contains (name x) seen ≡ false) × P x))
      → (i : ℕ) (seen : List Str) (xs : List A)
      → (check_named name check i seen xs ≡ none) ↔ (AllNew seen (map name xs) × All P xs)
  unfolding check_named
  check_named-none name check P own i seen [] = (λ h. (tt, tt), λ h. refl)
  check_named-none name check P own i seen (x ∷ xs) = (
    λ h.
        let (now, later) = (or_next-none (check i seen x) rest).0 h in
        let (new, good) = (own i seen x).0 now in
        let (news, goods) =
          (check_named-none name check P own (i + 1) (name x ∷ seen) xs).0 later in
        ((new, news), (good, goods)),
    λ ((new, news), (good, goods)). (or_next-none (check i seen x) rest).1 (
      (own i seen x).1 (new, good),
      (check_named-none name check P own (i + 1) (name x ∷ seen) xs).1 (news, goods),
    ),
  )
    where
      rest : Option E
      rest = check_named name check (i + 1) (name x ∷ seen) xs
