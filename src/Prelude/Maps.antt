-- ===== src/Prelude/Maps.antt =====
-- Go maps as association lists: a write replaces the value in place, or adds the key at the end.
use mathlib.Core.Path.{◌≡◌, refl}
use mathlib.Core.Bool.{Bool, true, false, ◌&&◌, ◌||◌}
use mathlib.Core.Logic.{◌↔◌, inl, inr}
use mathlib.Core.List.{List, [], ◌∷◌, ◌++◌}
use mathlib.Core.Option.{Option, none, some}
use native.Mathlib.Omega.{arith}
use verdi_go.Prelude.Tests.{if◌then◌else◌, Bool-cases}
use verdi_go.Prelude.Equality.{Eq, ◌==◌, eq_iff, contains}

unfoldable pub pair_eq {ℓ κ} :
    {A : Type ℓ} {B : Type κ} ⦃e : Eq A⦄ ⦃f : Eq B⦄ → A × B → A × B → Bool
pair_eq (a, b) (c, d) = (a == c) && (b == d)

pub pair_eq_iff {ℓ κ} :
    {A : Type ℓ} {B : Type κ} ⦃e : Eq A⦄ ⦃f : Eq B⦄ (p q : A × B) → (pair_eq p q ≡ true) ↔ (p ≡ q)
unfolding pair_eq
pair_eq_iff (a, b) (c, d) = ground (arith, eq_iff a c, eq_iff b d)

instance abbrev pub pair_Eq {ℓ κ} : {A : Type ℓ} {B : Type κ} ⦃e : Eq A⦄ ⦃f : Eq B⦄ → Eq (A × B)
pair_Eq = record { beq = pair_eq; beq_iff = pair_eq_iff }

module _ {ℓ κ} {K : Type ℓ} {V : Type κ} ⦃e : Eq K⦄ where
  unfoldable pub lookup : K → List (K × V) → Option V
  lookup k [] = none
  lookup k ((j, v) ∷ m) = let rest = lookup k m in if j == k then some v else rest

  unfoldable pub put : K → V → List (K × V) → List (K × V)
  put k v [] = (k, v) ∷ []
  put k v ((j, w) ∷ m) = let rest = (j, w) ∷ put k v m in if j == k then (k, v) ∷ m else rest

  pub lookup-put :
      (k j : K) (v : V) (m : List (K × V))
      → lookup j (put k v m) ≡ (if k == j then some v else lookup j m)
  unfolding lookup put
  lookup-put k j v [] = refl
  lookup-put k j v ((i, w) ∷ m) =
      ground (arith, eq_iff k j, eq_iff i k, eq_iff i j, lookup-put k j v m)

  abbrev pub keys : List (K × V) → List K
  keys [] = []
  keys ((j, v) ∷ m) = j ∷ keys m

  pub contains-keys-lookup :
      (k : K) (m : List (K × V)) → contains k (keys m) ≡ true → (v : V) × (lookup k m ≡ some v)
  unfolding contains lookup
  contains-keys-lookup k [] h = cc
  contains-keys-lookup k ((j, v) ∷ m) h = elim (Bool-cases (j == k)) [
    | inl p ↦ (v, rw p refl)
    | inr p ↦ rw p (contains-keys-lookup k m (ground (arith, eq_iff j k, eq_iff k j)))
  ]

  pub lookup-none-keys :
      (k : K) (m : List (K × V)) → contains k (keys m) ≡ false → lookup k m ≡ none
  unfolding contains lookup
  lookup-none-keys k [] h = refl
  lookup-none-keys k ((j, v) ∷ m) h = ground (arith, eq_iff j k, eq_iff k j, lookup-none-keys k m)

-- A map of slices: what it holds at a key is empty if it has none, and can be appended to.
module _ {ℓ κ} {K : Type ℓ} {V : Type κ} ⦃e : Eq K⦄ where
  unfoldable pub at_key : K → List (K × List V) → List V
  unfolding lookup
  at_key k m = elim (lookup k m) [ none ↦ [] | some vs ↦ vs ]

  unfoldable pub append_at : K → V → List (K × List V) → List (K × List V)
  unfolding at_key put
  append_at k v m = put k (at_key k m ++ v ∷ []) m

  pub at_key-append_at :
      (k j : K) (v : V) (m : List (K × List V))
      → at_key j (append_at k v m) ≡ (if k == j then at_key k m ++ v ∷ [] else at_key j m)
  unfolding at_key append_at
  at_key-append_at k j v m = ground (arith, lookup-put k j (at_key k m ++ v ∷ []) m)

  pub at_key-nil : (k : K) → at_key k [] ≡ []
  unfolding at_key
  at_key-nil k = refl

module _ {ℓ κ} {K : Type ℓ} {V : Type κ} ⦃e : Eq K⦄ where
  pub contains-keys-put :
      (k j : K) (v : V) (m : List (K × V))
      → contains k (keys (put j v m)) ≡ ((k == j) || contains k (keys m))
  unfolding contains put
  contains-keys-put k j v [] = refl
  contains-keys-put k j v ((i, w) ∷ m) =
      ground (arith, contains-keys-put k j v m, eq_iff i j, eq_iff k j, eq_iff k i)

module _ {ℓ κ} {K : Type ℓ} {V : Type κ} ⦃e : Eq K⦄ where
  pub at_key-cons :
      (k j : K) (vs : List V) (m : List (K × List V))
      → at_key k ((j, vs) ∷ m) ≡ (if j == k then vs else at_key k m)
  unfolding at_key lookup
  at_key-cons k j vs m = ground arith
