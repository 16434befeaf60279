-- ===== src/Prelude/Text.antt =====
-- Go strings as lists of bytes: order, prefixes, and what the sources use of package `strings`.
use Prim.Native.Nat.{ℕ, ◌+◌}
use Prim.Native.Char.{code}
use Prim.Native.String.{String}
use mathlib.Core.Path.{◌≡◌, refl}
use mathlib.Core.Bool.{Bool, true, false, ◌&&◌, ◌||◌}
use mathlib.Core.Logic.{inl, inr}
use mathlib.Core.List.{List, [], ◌∷◌, ◌++◌}
use mathlib.Core.Option.{Option, none, some}
use native.Mathlib.Omega.{arith}
use verdi_go.Prelude.Tests.{if◌then◌else◌, nat_eq, ltb, leb, Bool-cases}
use verdi_go.Prelude.Lists.{length, drop}
use verdi_go.Prelude.Equality.{Eq, nat_Eq, list_eq, list_eq_iff}

abbrev pub Str : Type 0
Str = List ℕ

-- The code points of a text: its bytes, where it is ASCII.
abbrev pub codes : String → Str
codes String.[] = []
codes (String.◌∷◌ c s) = code c ∷ codes s

instance abbrev pub Str_Eq : Eq Str
Str_Eq = record { beq = list_eq; beq_iff = list_eq_iff }

-- `s < t` on strings: the order of the bytes, a proper prefix first.
unfoldable pub str_lt : Str → Str → Bool
str_lt [] [] = false
str_lt [] (d ∷ t) = true
str_lt (c ∷ s) [] = false
str_lt (c ∷ s) (d ∷ t) = ltb c d || (nat_eq c d && str_lt s t)

pub str_lt_irrefl : (s : Str) → str_lt s s ≡ false
unfolding str_lt
str_lt_irrefl [] = refl
str_lt_irrefl (c ∷ s) = ground (arith, str_lt_irrefl s)

pub str_lt_trans : (r s t : Str) → str_lt r s ≡ true → str_lt s t ≡ true → str_lt r t ≡ true
unfolding str_lt
str_lt_trans [] [] t h k = cc
str_lt_trans [] (d ∷ s) [] h k = cc
str_lt_trans [] (d ∷ s) (e ∷ t) h k = refl
str_lt_trans (c ∷ r) [] t h k = cc
str_lt_trans (c ∷ r) (d ∷ s) [] h k = cc
str_lt_trans (c ∷ r) (d ∷ s) (e ∷ t) h k = ground (arith, str_lt_trans r s t)

-- Of two strings neither of which is below the other, there is one.
pub str_lt_total : (s t : Str) → str_lt s t ≡ false → str_lt t s ≡ false → s ≡ t
unfolding str_lt
str_lt_total [] [] h k = refl
str_lt_total [] (d ∷ t) h k = cc
str_lt_total (c ∷ s) [] h k = cc
str_lt_total (c ∷ s) (d ∷ t) h k = ground (arith, str_lt_total s t)

-- "Not below" is transitive.
pub str_le_trans : (x y z : Str) → str_lt y x ≡ false → str_lt z y ≡ false → str_lt z x ≡ false
str_le_trans x y z h k = elim (Bool-cases (str_lt z x)) [
  | inr q ↦ q
  | inl p ↦ elim (Bool-cases (str_lt x y)) [
    | inl below ↦ cc (k, str_lt_trans z x y p below)
    | inr above ↦ cc (k, str_lt_total x y above h)
  ]
]

pub str_lt_asym : (s t : Str) → str_lt s t ≡ true → str_lt t s ≡ false
str_lt_asym s t h = elim (Bool-cases (str_lt t s)) [
  | inr q ↦ q
  | inl p ↦ cc (str_lt_trans s t s h p, str_lt_irrefl s)
]

-- strings.HasPrefix
unfoldable pub has_prefix : Str → Str → Bool
has_prefix s [] = true
has_prefix [] (d ∷ p) = false
has_prefix (c ∷ s) (d ∷ p) = nat_eq c d && has_prefix s p

pub has_prefix-append : (p r : Str) → has_prefix (p ++ r) p ≡ true
unfolding has_prefix
has_prefix-append [] r = refl
has_prefix-append (c ∷ p) r = ground (arith, has_prefix-append p r)

-- A string with the prefix is the prefix and what follows it.
pub has_prefix-split : (s p : Str) → has_prefix s p ≡ true → s ≡ p ++ drop (length p) s
unfolding has_prefix
has_prefix-split s [] h = refl
has_prefix-split [] (d ∷ p) h = cc
has_prefix-split (c ∷ s) (d ∷ p) h = ground (arith, has_prefix-split s p)

-- strings.Contains
unfoldable pub has_substring : Str → Str → Bool
unfolding has_prefix
has_substring [] p = has_prefix [] p
has_substring (c ∷ s) p = has_prefix (c ∷ s) p || has_substring s p

-- strings.TrimPrefix
unfoldable pub trim_prefix : Str → Str → Str
unfolding has_prefix
trim_prefix s p = if has_prefix s p then drop (length p) s else s

abbrev pub index_from : ℕ → ℕ → Str → Option ℕ
index_from i b [] = none
index_from i b (c ∷ s) = let rest = index_from (i + 1) b s in if nat_eq c b then some i else rest

-- strings.IndexByte, `none` for -1
abbrev pub index_byte : Str → ℕ → Option ℕ
index_byte s b = index_from 0 b s

abbrev pub is_space : ℕ → Bool
is_space c = nat_eq c 32 || (leb 9 c && leb c 13)

-- Dropping a run of bytes at the front; at both ends (strings.TrimSpace, strings.Trim).
unfoldable pub trim_left : (ℕ → Bool) → Str → Str
trim_left p [] = []
trim_left p (c ∷ s) = let rest = trim_left p s in if p c then rest else c ∷ s

unfoldable pub trim_right : (ℕ → Bool) → Str → Str
trim_right p [] = []
trim_right p (c ∷ s) = elim (trim_right p s) [
  | [] ↦ if p c then [] else c ∷ []
  | d ∷ rest ↦ c ∷ d ∷ rest
]

unfoldable pub trim : (ℕ → Bool) → Str → Str
unfolding trim_left trim_right
trim p s = trim_right p (trim_left p s)

-- strings.Split at one byte, with the piece read so far: never an empty list.
unfoldable pub split_from : ℕ → Str → Str → List Str
split_from b piece [] = piece ∷ []
split_from b piece (c ∷ s) =
    let new_piece = piece ∷ split_from b [] s in
    let longer = split_from b (piece ++ c ∷ []) s in if nat_eq c b then new_piece else longer

unfoldable pub split : Str → ℕ → List Str
unfolding split_from
split s b = split_from b [] s

-- strings.Fields: the runs between white space.
unfoldable pub fields_from : Str → Str → List Str
fields_from [] [] = []
fields_from (p ∷ piece) [] = (p ∷ piece) ∷ []
fields_from [] (c ∷ s) =
    let skipped = fields_from [] s in
    let begun = fields_from (c ∷ []) s in if is_space c then skipped else begun
fields_from (p ∷ piece) (c ∷ s) =
    let ended = (p ∷ piece) ∷ fields_from [] s in
    let longer = fields_from (p ∷ piece ++ c ∷ []) s in if is_space c then ended else longer

unfoldable pub fields : Str → List Str
unfolding fields_from
fields s = fields_from [] s

-- ASCII lower case, and strings.EqualFold on ASCII.
abbrev pub lower : ℕ → ℕ
lower c = if leb b'A' c && leb c b'Z' then c + 32 else c

unfoldable pub equal_fold : Str → Str → Bool
equal_fold [] [] = true
equal_fold [] (d ∷ t) = false
equal_fold (c ∷ s) [] = false
equal_fold (c ∷ s) (d ∷ t) = nat_eq (lower c) (lower d) && equal_fold s t

pub equal_fold_comm : (s t : Str) → equal_fold s t ≡ equal_fold t s
unfolding equal_fold
equal_fold_comm [] [] = refl
equal_fold_comm [] (d ∷ t) = refl
equal_fold_comm (c ∷ s) [] = refl
equal_fold_comm (c ∷ s) (d ∷ t) =
    ground (arith, equal_fold_comm s t, nat_eq_comm (lower c) (lower d))
  where
    nat_eq_comm : (a b : ℕ) → nat_eq a b ≡ nat_eq b a
    nat_eq_comm a b = ground arith
