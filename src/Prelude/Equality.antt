-- ===== src/Prelude/Equality.antt =====
-- Decided equality as an interface, and the membership test and duplicate removal that use it.
use mathlib.Core.Path.{◌≡◌, refl}
use mathlib.Core.Bool.{Bool, true, false, ◌&&◌, ◌||◌, not}
use mathlib.Core.Logic.{◌↔◌, ◌⊎◌, inl, inr}
use mathlib.Core.List.{List, [], ◌∷◌, ◌++◌}
use Prim.Native.Nat.{ℕ}
use mathlib.Core.Option.{none, some}
use native.Mathlib.Omega.{arith}
use verdi_go.Prelude.Tests.{if◌then◌else◌, nat_eq, nat_eq_iff, bool_eq, bool_eq_iff, Bool-cases}
use verdi_go.Prelude.Lists.{In, here, there, keep, first_where}

pub record Eq {ℓ} (A : Type ℓ) : Type ℓ where
  pub beq : A → A → Bool
  pub beq_iff : (left right : A) → (beq left right ≡ true) ↔ (left ≡ right)

instance abbrev pub bool_Eq : Eq Bool
bool_Eq = record { beq = bool_eq; beq_iff = bool_eq_iff }

infix 50 ◌==◌
abbrev pub ◌==◌ {ℓ} : {A : Type ℓ} ⦃e : Eq A⦄ → A → A → Bool
◌==◌ ⦃e⦄ = e.beq

pub eq_iff {ℓ} : {A : Type ℓ} ⦃e : Eq A⦄ (a b : A) → ((a == b) ≡ true) ↔ (a ≡ b)
eq_iff ⦃e⦄ a b = e.beq_iff a b

pub eq_self {ℓ} : {A : Type ℓ} ⦃e : Eq A⦄ (a : A) → (a == a) ≡ true
eq_self ⦃e⦄ a = (e.beq_iff a a).1 refl

instance abbrev pub nat_Eq : Eq ℕ
nat_Eq = record { beq = nat_eq; beq_iff = nat_eq_iff }

pub ne_not {ℓ} : {A : Type ℓ} ⦃e : Eq A⦄ (a b : A) → (a ≡ b → ⊥) → not (a == b) ≡ true
ne_not a b h = elim (Bool-cases (a == b)) [
  | inl p ↦ absurd (h ((eq_iff a b).0 p))
  | inr p ↦ rw p refl
]

-- Lists are compared place by place; on byte strings this is the language's `==`.
module _ {ℓ} {A : Type ℓ} ⦃e : Eq A⦄ where
  unfoldable pub list_eq : List A → List A → Bool
  list_eq [] [] = true
  list_eq [] (y ∷ ys) = false
  list_eq (x ∷ xs) [] = false
  list_eq (x ∷ xs) (y ∷ ys) = (x == y) && list_eq xs ys

  list_eq_sound : (xs ys : List A) → list_eq xs ys ≡ true → xs ≡ ys
  unfolding list_eq
  list_eq_sound [] [] h = refl
  list_eq_sound [] (y ∷ ys) h = cc
  list_eq_sound (x ∷ xs) [] h = cc
  list_eq_sound (x ∷ xs) (y ∷ ys) h = ground (arith, e.beq_iff x y, list_eq_sound xs ys)

  list_eq_self : (xs : List A) → list_eq xs xs ≡ true
  unfolding list_eq
  list_eq_self [] = refl
  list_eq_self (x ∷ xs) = ground (arith, eq_self x, list_eq_self xs)

  pub list_eq_iff : (xs ys : List A) → (list_eq xs ys ≡ true) ↔ (xs ≡ ys)
  list_eq_iff xs ys = (list_eq_sound xs ys, λ p. rw p (list_eq_self ys))

  unfoldable pub contains : A → List A → Bool
  contains a [] = false
  contains a (x ∷ xs) = (a == x) || contains a xs

  -- The loops that copy a sorted slice onto itself and skip an element equal to the last kept.
  unfoldable pub compact_from : A → List A → List A
  compact_from last [] = []
  compact_from last (x ∷ xs) =
      let skipped = compact_from last xs in
      let kept = x ∷ compact_from x xs in if x == last then skipped else kept

  unfoldable pub compact : List A → List A
  unfolding compact_from
  compact [] = []
  compact (x ∷ xs) = x ∷ compact_from x xs

instance abbrev pub list_Eq {ℓ} : {A : Type ℓ} ⦃e : Eq A⦄ → Eq (List A)
list_Eq = record { beq = list_eq; beq_iff = list_eq_iff }

module _ {ℓ} {A : Type ℓ} ⦃e : Eq A⦄ where
  pub contains-In : (a : A) (xs : List A) → contains a xs ≡ true → In a xs
  unfolding contains
  contains-In a [] h = cc
  contains-In a (x ∷ xs) h = elim (Bool-cases (a == x)) [
    | inl p ↦ rw ((eq_iff a x).0 p) here
    | inr p ↦ there (contains-In a xs (ground arith))
  ]

  pub In-contains : {a : A} {xs : List A} → In a xs → contains a xs ≡ true
  unfolding contains
  In-contains {a} here = rw eq_self
  In-contains {a} (there {x} {xs} m) = ground (arith, In-contains m)

  pub contains_cons :
      (a x : A) (xs : List A) → contains a (x ∷ xs) ≡ true → (contains a xs ≡ true) ⊎ (a ≡ x)
  unfolding contains
  contains_cons a x xs h = ground (arith, eq_iff a x)

  pub contains-keep :
      (p : A → Bool) (a : A) (xs : List A) → contains a (keep p xs) ≡ (contains a xs && p a)
  unfolding contains
  contains-keep p a [] = refl
  contains-keep p a (x ∷ xs) = ground (arith, eq_iff a x, contains-keep p a xs)

  pub first_where-some :
      (p : A → Bool) (xs : List A) {a : A}
      → first_where p xs ≡ some a
      → (contains a xs ≡ true) × (p a ≡ true)
  unfolding contains
  first_where-some p [] h = cc
  first_where-some p (x ∷ xs) {a} h = ground (arith, first_where-some p xs {a = a}, eq_iff a x)

  pub first_where-none :
      (p : A → Bool) (a : A) (xs : List A)
      → first_where p xs ≡ none
      → contains a xs ≡ true
      → p a ≡ false
  unfolding contains
  first_where-none p a [] h m = cc
  first_where-none p a (x ∷ xs) h m = ground (arith, first_where-none p a xs, eq_iff a x)

  pub contains_nil : (a : A) → contains a [] ≡ false
  unfolding contains
  contains_nil a = refl

  pub contains-append :
      (a : A) (xs ys : List A) → contains a (xs ++ ys) ≡ (contains a xs || contains a ys)
  unfolding contains
  contains-append a [] ys = refl
  contains-append a (x ∷ xs) ys = ground (arith, contains-append a xs ys)

  compact_from_members :
      (a last : A) (xs : List A)
      → ((a == last) || contains a (compact_from last xs)) ≡ ((a == last) || contains a xs)
  unfolding contains compact_from
  compact_from_members a last [] = refl
  compact_from_members a last (x ∷ xs) = elim (Bool-cases (x == last)) [
    | inl p ↦ rw p (rw ((eq_iff x last).0 p) (ground (arith, compact_from_members a last xs)))
    | inr p ↦ rw p (ground (arith, compact_from_members a x xs))
  ]

  -- Removing adjacent duplicates changes no membership.
  pub contains-compact : (a : A) (xs : List A) → contains a (compact xs) ≡ contains a xs
  unfolding contains compact
  contains-compact a [] = refl
  contains-compact a (x ∷ xs) = compact_from_members a x xs
