-- ===== src/Prelude/Sorting.antt =====
-- package `sort` as insertion sort by a given order, and the sorted keys of a set of strings.
use mathlib.Core.Path.{◌≡◌, refl, sym, ◌∙◌}
use mathlib.Core.Bool.{Bool, true, false, ◌&&◌, ◌||◌, not}
use mathlib.Core.Logic.{inl, inr}
use mathlib.Core.List.{List, [], ◌∷◌}
use native.Mathlib.Omega.{arith}
use verdi_go.Prelude.Tests.{if◌then◌else◌, Bool-cases}
use verdi_go.Prelude.Lists.{any, here, All}
use verdi_go.Prelude.Equality.{
  Eq, ◌==◌, eq_iff, contains, contains_nil, In-contains, compact, compact_from, contains-compact,
}
use verdi_go.Prelude.Equality.{nat_Eq, list_Eq}
use verdi_go.Prelude.Text.{
  Str, str_lt, str_lt_irrefl, str_lt_trans, str_lt_total, str_lt_asym, str_le_trans,
}

module _ {ℓ} {A : Type ℓ} (less : A → A → Bool) where
  -- Behind the elements that are not above it, so that equal elements keep their order.
  unfoldable pub insert_by : A → List A → List A
  insert_by x [] = x ∷ []
  insert_by x (y ∷ ys) = let later = y ∷ insert_by x ys in if less x y then x ∷ y ∷ ys else later

  unfoldable pub sort_onto : List A → List A → List A
  unfolding insert_by
  sort_onto done [] = done
  sort_onto done (x ∷ xs) = sort_onto (insert_by x done) xs

  -- sort.Slice and sort.SliceStable
  unfoldable pub sort_by : List A → List A
  unfolding sort_onto
  sort_by xs = sort_onto [] xs

module _ {ℓ} {A : Type ℓ} ⦃e : Eq A⦄ (less : A → A → Bool) where
  contains-insert_by :
      (a x : A) (xs : List A) → contains a (insert_by less x xs) ≡ ((a == x) || contains a xs)
  unfolding contains insert_by
  contains-insert_by a x [] = refl
  contains-insert_by a x (y ∷ ys) = ground (arith, contains-insert_by a x ys)

  contains-sort_onto :
      (a : A) (done xs : List A)
      → contains a (sort_onto less done xs) ≡ (contains a done || contains a xs)
  unfolding contains sort_onto
  contains-sort_onto a done [] = ground arith
  contains-sort_onto a done (x ∷ xs) =
      ground (arith, contains-sort_onto a (insert_by less x done) xs, contains-insert_by a x done)

  -- Sorting changes no membership.
  pub contains-sort_by : (a : A) (xs : List A) → contains a (sort_by less xs) ≡ contains a xs
  unfolding contains sort_by
  contains-sort_by a xs = contains-sort_onto a [] xs

module _ {ℓ} {A : Type ℓ} (less : A → A → Bool) (p : A → Bool) where
  any-insert_by : (x : A) (xs : List A) → any p (insert_by less x xs) ≡ (p x || any p xs)
  unfolding insert_by
  any-insert_by x [] = refl
  any-insert_by x (y ∷ ys) = ground (arith, any-insert_by x ys)

  any-sort_onto : (done xs : List A) → any p (sort_onto less done xs) ≡ (any p done || any p xs)
  unfolding sort_onto
  any-sort_onto done [] = ground arith
  any-sort_onto done (x ∷ xs) =
      ground (arith, any-sort_onto (insert_by less x done) xs, any-insert_by x done)

  -- Nor does it change what some element satisfies.
  pub any-sort_by : (xs : List A) → any p (sort_by less xs) ≡ any p xs
  unfolding sort_by
  any-sort_by xs = any-sort_onto [] xs

-- sort.Strings
unfoldable pub sort_strings : List Str → List Str
unfolding sort_by
sort_strings = sort_by str_lt

-- Every element is below all that follow it.
abbrev pub IsSorted : List Str → Type 0
IsSorted [] = Unit
IsSorted (x ∷ xs) = All (λ y. str_lt y x ≡ false) xs × IsSorted xs

abbrev pub IsStrict : List Str → Type 0
IsStrict [] = Unit
IsStrict (x ∷ xs) = All (λ y. str_lt x y ≡ true) xs × IsStrict xs

All-above :
    (x z : Str) (ys : List Str)
    → str_lt z x ≡ false
    → All (λ y. str_lt y z ≡ false) ys
    → All (λ y. str_lt y x ≡ false) ys
All-above x z [] h a = tt
All-above x z (y ∷ ys) h a = (str_le_trans x z y h a.0, All-above x z ys h a.1)

All-insert_by :
    (P : Str → Type 0) (x : Str) (xs : List Str) → P x → All P xs → All P (insert_by str_lt x xs)
unfolding insert_by
All-insert_by P x [] h a = (h, tt)
All-insert_by P x (y ∷ ys) h a = elim (Bool-cases (str_lt x y)) [
  | inl e ↦ rw e (h, a)
  | inr e ↦ rw e (a.0, All-insert_by P x ys h a.1)
]

insert_by-IsSorted : (x : Str) (xs : List Str) → IsSorted xs → IsSorted (insert_by str_lt x xs)
unfolding insert_by
insert_by-IsSorted x [] h = (tt, tt)
insert_by-IsSorted x (y ∷ ys) h = elim (Bool-cases (str_lt x y)) [
  | inl e ↦ rw e ((str_lt_asym x y e, All-above x y ys (str_lt_asym x y e) h.0), h)
  | inr e ↦ rw e (All-insert_by (λ z. str_lt z y ≡ false) x ys e h.0, insert_by-IsSorted x ys h.1)
]

sort_onto-IsSorted : (done xs : List Str) → IsSorted done → IsSorted (sort_onto str_lt done xs)
unfolding sort_onto
sort_onto-IsSorted done [] h = h
sort_onto-IsSorted done (x ∷ xs) h =
    sort_onto-IsSorted (insert_by str_lt x done) xs (insert_by-IsSorted x done h)

sort_strings-IsSorted : (xs : List Str) → IsSorted (sort_strings xs)
unfolding sort_strings
sort_strings-IsSorted xs = sort_onto-IsSorted [] xs tt

pub All-below :
    (x y : Str) (zs : List Str)
    → str_lt x y ≡ true
    → All (λ z. str_lt y z ≡ true) zs
    → All (λ z. str_lt x z ≡ true) zs
All-below x y [] h a = tt
All-below x y (z ∷ zs) h a = (str_lt_trans x y z h a.0, All-below x y zs h a.1)

compact_from-IsStrict :
    (x : Str) (xs : List Str)
    → All (λ y. str_lt y x ≡ false) xs
    → IsSorted xs
    → All (λ y. str_lt x y ≡ true) (compact_from x xs) × IsStrict (compact_from x xs)
unfolding compact_from
compact_from-IsStrict x [] a h = (tt, tt)
compact_from-IsStrict x (y ∷ ys) a h = elim (Bool-cases (y == x)) [
  | inl e ↦ rw e (compact_from-IsStrict x ys a.1 h.1)
  | inr e ↦
      let below : str_lt x y ≡ true = elim (Bool-cases (str_lt x y)) [
        | inl p ↦ p
        | inr q ↦ cc (e, (eq_iff y x).1 (str_lt_total y x a.0 q))
      ] in
      let (above, strict) = compact_from-IsStrict y ys h.0 h.1 in
      rw e ((below, All-below x y (compact_from y ys) below above), (above, strict))
]

-- The keys of a map, in ascending order: each key that was written, once.
unfoldable pub sorted_keys : List Str → List Str
unfolding sort_strings compact
sorted_keys keys = compact (sort_strings keys)

compact-IsStrict : (xs : List Str) → IsSorted xs → IsStrict (compact xs)
unfolding compact
compact-IsStrict [] h = tt
compact-IsStrict (x ∷ xs) h = compact_from-IsStrict x xs h.0 h.1

pub sorted_keys-IsStrict : (keys : List Str) → IsStrict (sorted_keys keys)
unfolding sorted_keys
sorted_keys-IsStrict keys = compact-IsStrict (sort_strings keys) (sort_strings-IsSorted keys)

pub contains-sorted_keys :
    (a : Str) (keys : List Str) → contains a (sorted_keys keys) ≡ contains a keys
unfolding sorted_keys
contains-sorted_keys a keys =
    contains-compact a (sort_by str_lt keys) ∙ contains-sort_by str_lt a keys

below_not_member :
    (x : Str) (ys : List Str) → All (λ y. str_lt x y ≡ true) ys → contains x ys ≡ false
unfolding contains
below_not_member x [] a = refl
below_not_member x (y ∷ ys) a = elim (Bool-cases (x == y)) [
  | inl p ↦ cc (a.0, (eq_iff x y).0 p, str_lt_irrefl y)
  | inr p ↦ rw p (below_not_member x ys a.1)
]

-- Two strictly ascending lists with the same members have the same head.
same_head :
    (x y : Str) (xs ys : List Str)
    → IsStrict (x ∷ xs)
    → IsStrict (y ∷ ys)
    → ((a : Str) → contains a (x ∷ xs) ≡ contains a (y ∷ ys))
    → str_lt x y ≡ false
same_head x y xs ys h k same = elim (Bool-cases (str_lt x y)) [
  | inr q ↦ q
  | inl p ↦ cc (
    same x,
    In-contains {a = x} {xs = x ∷ xs} here,
    below_not_member x (y ∷ ys) (p, All-below x y ys p k.0),
  )
]

tail_members :
    (a x : Str) (xs : List Str)
    → All (λ y. str_lt x y ≡ true) xs
    → contains a xs ≡ (not (a == x) && contains a (x ∷ xs))
unfolding contains
tail_members a x xs h = elim (Bool-cases (a == x)) [
  | inl p ↦ rw p (rw ((eq_iff a x).0 p) (below_not_member x xs h))
  | inr p ↦ rw p refl
]

-- Two strictly ascending lists with the same members are one list.
pub IsStrict-ext :
    (xs ys : List Str)
    → IsStrict xs
    → IsStrict ys
    → ((a : Str) → contains a xs ≡ contains a ys)
    → xs ≡ ys
IsStrict-ext [] [] h k same = refl
IsStrict-ext [] (y ∷ ys) h k same =
    cc (same y, contains_nil y, In-contains {a = y} {xs = y ∷ ys} here)
IsStrict-ext (x ∷ xs) [] h k same =
    cc (same x, contains_nil x, In-contains {a = x} {xs = x ∷ xs} here)
IsStrict-ext (x ∷ xs) (y ∷ ys) h k same =
    let heads : x ≡ y =
      str_lt_total x y (same_head x y xs ys h k same)
        (same_head y x ys xs k h (λ a. sym (same a))) in
    let tails : (a : Str) → contains a xs ≡ contains a ys =
      λ a. cc (tail_members a x xs h.0, tail_members a y ys k.0, same a, heads) in
    cc (heads, IsStrict-ext xs ys h.1 k.1 tails)

-- What a set's sorted keys are depends on its members alone, not on the order of the writes.
pub sorted_keys-ext :
    (xs ys : List Str)
    → ((a : Str) → contains a xs ≡ contains a ys)
    → sorted_keys xs ≡ sorted_keys ys
sorted_keys-ext xs ys same =
    IsStrict-ext (sorted_keys xs) (sorted_keys ys) (sorted_keys-IsStrict xs)
      (sorted_keys-IsStrict ys)
      λ a. contains-sorted_keys a xs ∙ same a ∙ sym (contains-sorted_keys a ys)
