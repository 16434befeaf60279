-- ===== src/NameQuery/Defs.antt =====
-- internal/fqnres/fqnres.go: query lists, the resolver and the report lines. Package regexp is a parameter: what a
-- pattern compiles to, `none` where it does not.
use verdi_go.Prelude.{
  ℕ, ◌-◌, Bool, true, false, ◌&&◌, ◌||◌, not, Option, none, some, List, [], ◌∷◌, ◌++◌, map, ltb,
  leb, nat_eq, bool_eq, if◌then◌else◌, length, take, drop, any, keep, first_where, bool_Eq, ◌==◌,
  nat_Eq, list_Eq, Str, codes, Str_Eq, has_prefix, has_substring, is_space, trim, split,
  sort_strings, pair_Eq, Format, has_suffix, join, concat, pos,
}

-- receiverPunct.Replace
abbrev pub is_punct : ℕ → Bool
is_punct c = nat_eq c b'(' || (nat_eq c b')' || nat_eq c b'*')

abbrev pub strip_punct : Str → Str
strip_punct s = keep (λ c. not (is_punct c)) s

abbrev pub slash : Str
slash = codes "/"

unfoldable pub is_regex : Str → Bool
unfolding has_prefix has_suffix
is_regex query = leb 3 (length query) && (has_prefix query slash && has_suffix query slash)

unfoldable pub damaged : Str → Bool
unfolding has_prefix has_suffix
damaged frag = not (bool_eq (has_prefix frag slash) (has_suffix frag slash))

unfoldable pub split_comma_drop_empty : Str → List Str
unfolding split trim
split_comma_drop_empty value = keep (λ s. not (s == [])) (map (trim is_space) (split value b','))

pub data QueryError : Type 0 where
  part_of_regex ambiguous_query : Str → QueryError

pub data Queries : Type 0 where
  accepted : List Str → Queries
  refused : QueryError → Queries

-- The loop that refuses the first damaged fragment.
abbrev pub unless_damaged : Option Str → List Str → Queries
unless_damaged none frags = accepted frags
unless_damaged (some f) frags = refused (part_of_regex f)

unfoldable pub split_queries : Str → Queries
unfolding is_regex split_comma_drop_empty damaged has_substring
split_queries value =
    let frags = split_comma_drop_empty value in
    if not (is_regex value)
    then unless_damaged (first_where damaged frags) frags
    else if not (has_substring value (codes ","))
    then accepted (value ∷ [])
    else if has_substring value (codes "/,/")
    then refused (ambiguous_query value)
    else if any damaged frags
    then accepted (value ∷ [])
    else refused (ambiguous_query value)

pub record Resolution : Type 0 where
  pub matches : List Str
  pub ambiguous : Bool
  pub regex : Bool

-- The result, and whether the pattern did not compile.
abbrev pub regex_matches : Option (Str → Bool) → List Str → Resolution × Bool
regex_matches none universe = (record { matches = []; ambiguous = false; regex = true }, true)
regex_matches (some match_string) universe = (
  record { matches = sort_strings (keep match_string universe); ambiguous = false; regex = true },
  false,
)

unfoldable pub resolve : (Str → Option (Str → Bool)) → Str → List Str → Resolution × Bool
unfolding is_regex has_suffix sort_strings
resolve compile query universe =
    if is_regex query
    then regex_matches (compile (take (length query - 2) (drop 1 query))) universe
    else let m =
        sort_strings (keep (λ cand. has_suffix (strip_punct cand) (strip_punct query)) universe) in
      (record { matches = m; ambiguous = ltb 1 (length m); regex = false }, false)

abbrev pub max_candidates : ℕ
max_candidates = 4

unfoldable pub quote_single : Str → Str
quote_single s = codes "'" ++ (s ++ codes "'")

unfoldable pub cap_list : Format → List Str → ℕ → Str
unfolding join
cap_list format items n =
    if leb (length items) n
    then join (codes "; ") items
    else join (codes "; ") (take n items)
      ++ concat (codes " (+" ∷ format.decimal (pos (length items - n)) ∷ codes " more)" ∷ [])

unfoldable pub unresolved_detail : Str → Str → Str
unfolding quote_single
unresolved_detail query noun =
    concat (codes "UNRESOLVED: " ∷ quote_single query ∷ codes " matches no " ∷ noun ∷ [])

unfoldable pub ambiguous_detail : Format → Str → List Str → Str
unfolding quote_single cap_list
ambiguous_detail format query candidates = concat (
    codes "AMBIGUOUS: "
    ∷ quote_single query
    ∷ codes " matches "
    ∷ format.decimal (pos (length candidates))
    ∷ codes ": "
    ∷ cap_list format candidates max_candidates
    ∷ [])
