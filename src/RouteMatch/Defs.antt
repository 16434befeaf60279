-- ===== src/RouteMatch/Defs.antt =====
-- The functions of internal/routematch/routematch.go.
use verdi_go.Prelude.{
  ℕ, ◌+◌, ◌-◌, Bool, true, false, ◌&&◌, ◌||◌, not, Option, none, some, List, [], ◌∷◌, length, take,
  drop, keep, any, ltb, nat_eq, if◌then◌else◌, Str, codes, ◌==◌, nat_Eq, list_Eq, is_space, trim,
  split, index_byte, equal_fold,
}

-- A param token, never asked of an empty segment, where the source would read out of range.
unfoldable pub is_param_seg : Str → Bool
is_param_seg [] = false
is_param_seg (c ∷ s) =
    if (c ∷ s == codes "*") || (c ∷ s == codes "...")
    then true
    else nat_eq c b'{' || nat_eq c b':' || nat_eq c b'<' || nat_eq c b'$'

unfoldable pub route_seg_eq : Str → Str → Bool
route_seg_eq x y = is_param_seg x || is_param_seg y || x == y

-- The loop over the shorter list's positions.
unfoldable pub segs_eq : List Str → List Str → Bool
segs_eq [] ys = true
segs_eq (x ∷ xs) [] = false
segs_eq (x ∷ xs) (y ∷ ys) =
    let rest = segs_eq xs ys in if not (route_seg_eq x y) then false else rest

unfoldable pub align : List Str → List Str → Bool
unfolding segs_eq
align [] [] = true
align [] (y ∷ ys) = false
align (x ∷ short) long = segs_eq (x ∷ short) (drop (length long - length (x ∷ short)) long)

unfoldable pub route_segs_match : List Str → List Str → Bool
unfolding align
route_segs_match a b = if ltb (length b) (length a) then align b a else align a b

-- The leading method token, where a space stands behind a first byte and no slash before it.
abbrev method_split : Str → Option ℕ → Str × Str
method_split s none = ([], s)
method_split s (some i) =
    let head = take i s in
    if ltb 0 i && not (any (λ c. nat_eq c b'/') head)
    then (head, trim is_space (drop (i + 1) s))
    else ([], s)

unfoldable pub split_route : Str → Str × List Str
unfolding trim split
split_route text =
    let s = trim is_space text in
    let (method, path) = method_split s (index_byte s b' ') in
    (method, keep (λ seg. not (seg == [])) (split (trim (λ c. nat_eq c b'/') path) b'/'))

-- `Match`, on names that are split already.
unfoldable pub routes_match : Str × List Str → Str × List Str → Bool
routes_match (e_method, e_segs) (q_method, q_segs) =
    if not (q_method == []) && not (e_method == []) && not (equal_fold q_method e_method)
    then false
    else route_segs_match e_segs q_segs

unfoldable pub match : Str → Str → Bool
unfolding split_route routes_match
match entry_name query = routes_match (split_route entry_name) (split_route query)
