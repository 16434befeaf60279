-- ===== src/NameQuery/Pieces.antt =====
-- The fragments of a query list against the value (internal/fqnres/fqnres.go: splitCommaDropEmpty).
use verdi_go.Prelude.{
  ℕ, ◌≡◌, refl, sym, ap, ◌∙◌, inl, inr, false, not, List, [], ◌∷◌, ◌++◌, map, append_assoc,
  append-nil, arith, nat_eq, nat_eq_iff, Bool-cases, is_nil, keep, All, bool_Eq, ◌==◌, nat_Eq,
  contains, list_Eq, contains-append, Str, codes, Str_Eq, is_space, trim, split_from, split,
  pair_Eq, join,
}
use verdi_go.NameQuery.Defs.{split_comma_drop_empty}

-- The fragments of a value: it is cut at its commas, and what is not blank is trimmed and kept.
pub record Splits (value : Str) (frags : List Str) : Type 0 where
  pub pieces : List Str
  pub rejoined : join (codes ",") pieces ≡ value
  pub comma_free : All (λ p. contains b',' p ≡ false) pieces
  pub trimmed : frags ≡ keep (λ s. not (s == [])) (map (trim is_space) pieces)

split_from-given : (b : ℕ) (piece s : Str) → is_nil (split_from b piece s) ≡ false
unfolding split_from
split_from-given b piece [] = refl
split_from-given b piece (c ∷ s) = elim (Bool-cases (nat_eq c b)) [
  | inl e ↦ rw e refl
  | inr e ↦ rw e (split_from-given b (piece ++ c ∷ []) s)
]

join_cons :
    (separator p : Str) (ps : List Str)
    → is_nil ps ≡ false
    → join separator (p ∷ ps) ≡ p ++ (separator ++ join separator ps)
unfolding join
join_cons separator p [] h = cc
join_cons separator p (q ∷ ps) h = refl

join-split_from : (piece s : Str) → join (codes ",") (split_from b',' piece s) ≡ piece ++ s
unfolding split_from join
join-split_from piece [] = sym (append-nil piece)
join-split_from piece (c ∷ s) = elim (Bool-cases (nat_eq c b',')) [
  | inl e ↦ rw e (
      join_cons (codes ",") piece (split_from b',' [] s) (split_from-given b',' [] s)
      ∙ ap (λ r. piece ++ (b',' ∷ r)) (join-split_from [] s)
      ∙ ap (λ d. piece ++ (d ∷ s)) (sym ((nat_eq_iff c b',').0 e)))
  | inr e ↦ rw e (join-split_from (piece ++ c ∷ []) s ∙ append_assoc piece (c ∷ []) s)
]

split_from-comma_free :
    (b : ℕ) (piece s : Str)
    → contains b piece ≡ false
    → All (λ p. contains b p ≡ false) (split_from b piece s)
unfolding split_from contains
split_from-comma_free b piece [] h = (h, tt)
split_from-comma_free b piece (c ∷ s) h = elim (Bool-cases (nat_eq c b)) [
  | inl e ↦ rw e (h, split_from-comma_free b [] s refl)
  | inr e ↦ rw e (
      split_from-comma_free b (piece ++ c ∷ []) s
        (ground (arith, e, h, contains-append b piece (c ∷ []), nat_eq_iff c b, nat_eq_iff b c)))
]

pub split_comma-Splits : (value : Str) → Splits value (split_comma_drop_empty value)
unfolding split_comma_drop_empty split contains
split_comma-Splits value = record {
  pieces = split_from b',' [] value;
  rejoined = join-split_from [] value;
  comma_free = split_from-comma_free b',' [] value refl;
  trimmed = refl;
}
