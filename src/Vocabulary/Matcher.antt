-- ===== src/Vocabulary/Matcher.antt =====
-- MatchPrefix and MatchExceptionSide of internal/groundwork/policy/policy.go.
use verdi_go.Prelude.{
  ℕ, ◌≡◌, refl, ap, ◌↔◌, ◌⊎◌, inl, inr, Bool, true, false, ◌&&◌, ◌||◌, not, [], ◌∷◌, ◌++◌, arith,
  leb, nat_eq, if◌then◌else◌, Bool-cases, drop, length, Str, ◌==◌, nat_Eq, list_Eq, eq_iff, eq_self,
  has_prefix, has_prefix-append, has_prefix-split, drop-append, length-append, list_eq,
}

unfoldable pub is_ident_byte : ℕ → Bool
is_ident_byte b =
    nat_eq b b'_'
    || leb b'a' b && leb b b'z'
    || leb b'A' b && leb b b'Z'
    || leb b'0' b && leb b b'9'

-- `len(s) > len(prefix) && !isIdentByte(s[len(prefix)])`, on what follows the prefix.
abbrev pub starts_off_ident : Str → Bool
starts_off_ident [] = false
starts_off_ident (b ∷ rest) = not (is_ident_byte b)

unfoldable pub match_prefix : Str → Str → Bool
match_prefix s prefix =
    if s == prefix then true else has_prefix s prefix && starts_off_ident (drop (length prefix) s)

unfoldable pub match_exception_side : Str → Str → Bool
match_exception_side s pat = pat == [] || match_prefix s pat

-- What a selector names: the symbol itself, or one that goes on after it with a byte that no
-- identifier holds.
pub data Names (s prefix : Str) : Type 0 where
  exact : s ≡ prefix → Names s prefix
  member : (b : ℕ) (rest : Str) → s ≡ prefix ++ b ∷ rest → is_ident_byte b ≡ false → Names s prefix

off_ident-member :
    (s prefix tail : Str) → s ≡ prefix ++ tail → starts_off_ident tail ≡ true → Names s prefix
off_ident-member s prefix [] e h = cc
off_ident-member s prefix (b ∷ rest) e h = member b rest e (ground arith)

match_prefix_sound : (s prefix : Str) → match_prefix s prefix ≡ true → Names s prefix
unfolding match_prefix
match_prefix_sound s prefix h = elim (Bool-cases (s == prefix)) [
  | inl same ↦ exact ((eq_iff s prefix).0 same)
  | inr other ↦
      off_ident-member s prefix (drop (length prefix) s) (has_prefix-split s prefix (ground arith))
        (ground arith)
]

match_prefix_complete : (s prefix : Str) → Names s prefix → match_prefix s prefix ≡ true
unfolding match_prefix
match_prefix_complete s prefix (exact e) = rw e (rw (eq_self prefix) refl)
match_prefix_complete s prefix (member b rest e off) =
    rw e (rw (has_prefix-append prefix (b ∷ rest), drop-append prefix (b ∷ rest)) (ground arith))

-- `match_prefix` accepts exactly the pairs in which the pattern names the symbol: the two are equal,
-- or the symbol continues the pattern at an identifier boundary. The empty pattern is no exception: it
-- names the empty symbol and those whose first byte no identifier holds, not every symbol.
pub match_prefix_iff : (s prefix : Str) → (match_prefix s prefix ≡ true) ↔ Names s prefix
match_prefix_iff s prefix = (match_prefix_sound s prefix, match_prefix_complete s prefix)

-- A pattern never binds a symbol that only continues its last identifier: with a byte of an
-- identifier behind it, the longer symbol is another one.
pub match_prefix-collision :
    (prefix rest : Str) (b : ℕ)
    → is_ident_byte b ≡ true
    → match_prefix (prefix ++ b ∷ rest) prefix ≡ false
unfolding match_prefix
match_prefix-collision prefix rest b h = elim (Bool-cases (prefix ++ b ∷ rest == prefix)) [
  | inl same ↦ absurd (
      omega (
        arith,
        ap length ((eq_iff (prefix ++ b ∷ rest) prefix).0 same),
        length-append prefix (b ∷ rest),
      ))
  | inr other ↦
      rw (other, has_prefix-append prefix (b ∷ rest), drop-append prefix (b ∷ rest)) (ground arith)
]

-- An exception side is matched by the same matcher, with the empty pattern as the wildcard: it accepts
-- every symbol when the pattern is empty, and otherwise exactly those that the pattern names.
pub match_exception_side_iff :
    (s pat : Str) → (match_exception_side s pat ≡ true) ↔ ((pat ≡ []) ⊎ Names s pat)
unfolding match_exception_side list_eq
match_exception_side_iff s pat = (
  λ h. elim (Bool-cases (pat == [])) [
    | inl e ↦ inl ((eq_iff pat []).0 e)
    | inr e ↦ inr (match_prefix_sound s pat (ground arith))
  ],
  λ h. elim h [ inl e ↦ rw e refl | inr n ↦ rw (match_prefix_complete s pat n) (ground arith) ],
)
