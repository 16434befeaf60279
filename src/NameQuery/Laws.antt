-- ===== src/NameQuery/Laws.antt =====
-- What the outcomes of a split say of the value (internal/fqnres/fqnres.go: SplitQueries).
use verdi_go.Prelude.{
  ◌≡◌, refl, sym, ◌∙◌, ◌⊎◌, inl, inr, true, false, not, none, List, [], ◌∷◌, map, arith,
  if◌then◌else◌, Bool-cases, Option-cases, or_false, true_ne_false, any, keep, first_where, All,
  bool_Eq, ◌==◌, nat_Eq, contains, list_Eq, first_where-some, Str, codes, Str_Eq, has_substring,
  is_space, trim, split, pair_Eq,
}
use verdi_go.NameQuery.Defs.{
  is_regex, damaged, split_comma_drop_empty, Queries, accepted, refused, unless_damaged,
  split_queries, part_of_regex, ambiguous_query,
}
use verdi_go.NameQuery.Pieces.{Splits, split_comma-Splits}

-- A query that is given and is no half of a regex.
pub record IsWhole (q : Str) : Type 0 where
  pub undamaged : damaged q ≡ false
  pub given : (q == []) ≡ false

-- The list reading makes sense: every fragment is whole.
abbrev pub IsCoherent : Str → Type 0
IsCoherent value = All IsWhole (split_comma_drop_empty value)

-- A regex with a comma that also reads as a list: of adjacent regexes, or of whole fragments.
pub record IsAmbiguous (value : Str) : Type 0 where
  pub comma : has_substring value (codes ",") ≡ true
  pub list : (has_substring value (codes "/,/") ≡ true) ⊎ IsCoherent value

-- What a value authorizes: the fragments of a list that makes sense, or the one regex that it is where it is
-- not ambiguous.
pub data Authorizes (value : Str) (qs : List Str) : Type 0 where
  as_list : is_regex value ≡ false → Splits value qs → All IsWhole qs → Authorizes value qs
  as_regex : is_regex value ≡ true → ¬ IsAmbiguous value → qs ≡ value ∷ [] → Authorizes value qs

-- What each outcome of a query list says of the value.
unfoldable pub Explains : Str → Queries → Type 0
Explains value (accepted qs) = Authorizes value qs
Explains value (refused (part_of_regex f)) =
    (is_regex value ≡ false)
    × ((contains f (split_comma_drop_empty value) ≡ true) × (damaged f ≡ true))
Explains value (refused (ambiguous_query q)) =
    (q ≡ value) × ((is_regex value ≡ true) × IsAmbiguous value)

undamaged-IsWhole :
    (frags : List Str)
    → any damaged frags ≡ false
    → All (λ f. (f == []) ≡ false) frags
    → All IsWhole frags
undamaged-IsWhole [] h g = tt
undamaged-IsWhole (f ∷ fs) h (now, later) =
    let (own, rest) = or_false _ _ h in
    (record { undamaged = own; given = now }, undamaged-IsWhole fs rest later)

IsWhole-undamaged : (frags : List Str) → All IsWhole frags → any damaged frags ≡ false
IsWhole-undamaged [] w = refl
IsWhole-undamaged (f ∷ fs) (now, later) = ground (arith, now.undamaged, IsWhole-undamaged fs later)

first_where-undamaged :
    (frags : List Str) → first_where damaged frags ≡ none → any damaged frags ≡ false
first_where-undamaged [] h = refl
first_where-undamaged (f ∷ fs) h = elim (Bool-cases (damaged f)) [
  | inl e ↦ cc (rw e at h)
  | inr e ↦ rw e (first_where-undamaged fs (rw e at h))
]

given-keep : (frags : List Str) → All (λ f. (f == []) ≡ false) (keep (λ s. not (s == [])) frags)
given-keep [] = tt
given-keep (f ∷ fs) = elim (Bool-cases (f == [])) [
  | inl e ↦ rw e (given-keep fs)
  | inr e ↦ rw e (e, given-keep fs)
]

undamaged-IsCoherent :
    (value : Str) → any damaged (split_comma_drop_empty value) ≡ false → IsCoherent value
unfolding split_comma_drop_empty
undamaged-IsCoherent value h =
    undamaged-IsWhole _ h (given-keep (map (trim is_space) (split value b',')))

unless_damaged-Explains :
    (value : Str)
    → is_regex value ≡ false
    → Explains value (
        unless_damaged
          (first_where damaged (split_comma_drop_empty value))
          (split_comma_drop_empty value))
unfolding Explains
unless_damaged-Explains value h =
    let frags = split_comma_drop_empty value in
    elim (Option-cases (first_where damaged frags)) [
      | inl e ↦ rw e (
          as_list h (split_comma-Splits value)
            (undamaged-IsCoherent value (first_where-undamaged frags e)))
      | inr (f, e) ↦ rw e (h, first_where-some damaged frags e)
    ]

regex-Explains :
    (value : Str)
    → is_regex value ≡ true
    → ¬ IsAmbiguous value
    → Explains value (accepted (value ∷ []))
unfolding Explains
regex-Explains value h n = as_regex h n refl

ambiguous-Explains :
    (value : Str)
    → is_regex value ≡ true
    → IsAmbiguous value
    → Explains value (refused (ambiguous_query value))
unfolding Explains
ambiguous-Explains value h a = (refl, (h, a))

comma_regex-Explains :
    (value : Str)
    → is_regex value ≡ true
    → has_substring value (codes ",") ≡ true
    → Explains value (
        if has_substring value (codes "/,/")
        then refused (ambiguous_query value)
        else if any damaged (split_comma_drop_empty value)
        then accepted (value ∷ [])
        else refused (ambiguous_query value))
comma_regex-Explains value h c = elim (Bool-cases (has_substring value (codes "/,/"))) [
  | inl b ↦ rw b (ambiguous-Explains value h (record { comma = c; list = inl b }))
  | inr b ↦ elim (Bool-cases (any damaged (split_comma_drop_empty value))) [
    | inl d ↦ rw (b, d) (regex-Explains value h (one_reading b d))
    | inr d ↦
        rw (b, d)
          (ambiguous-Explains value h
            (record { comma = c; list = inr (undamaged-IsCoherent value d) }))
  ]
]
  where
    one_reading :
        has_substring value (codes "/,/") ≡ false
        → any damaged (split_comma_drop_empty value) ≡ true
        → ¬ IsAmbiguous value
    one_reading b d a = elim a.list [
      | inl adjacent ↦ true_ne_false (sym adjacent ∙ b)
      | inr whole ↦ true_ne_false (sym d ∙ IsWhole-undamaged _ whole)
    ]

-- Each outcome of a query list is the one that the value calls for. Queries are accepted where the value is no
-- regex and they are its fragments, all whole: the comma-free pieces that join to the value, trimmed, the empty
-- ones dropped; or where it is a regex that is not ambiguous, as the one query. A value is refused as
-- ambiguous where it is a regex with a comma that has "/,/" in it or only whole fragments, and for a fragment
-- where it is no regex and the fragment is one of its own, with a slash at one end only.
pub split_queries-Explains : (value : Str) → Explains value (split_queries value)
unfolding split_queries
split_queries-Explains value = elim (Bool-cases (is_regex value)) [
  | inr e ↦ rw e (unless_damaged-Explains value e)
  | inl e ↦ elim (Bool-cases (has_substring value (codes ","))) [
    | inr c ↦ rw (e, c) (regex-Explains value e (λ a. true_ne_false (sym a.comma ∙ c)))
    | inl c ↦ rw (e, c) (comma_regex-Explains value e c)
  ]
]
