-- ===== src/Tests/Texts.antt =====
-- The theorems on patterns, routes and labels, on small inputs.
use verdi_go.Prelude.{
  ◌≡◌, ◌≢◌, ◌↔◌, true, none, some, [], ◌∷◌, arith, bool_Eq, nat_Eq, list_eq, list_Eq, codes, Str_Eq,
  pair_Eq,
}
use verdi_go.Glob as Glob
use verdi_go.NameQuery.Defs.{refused, part_of_regex, split_queries}
use verdi_go.NameQuery.Laws.{Explains, split_queries-Explains}
use verdi_go.RouteMatch as RouteMatch
use verdi_go.Vocabulary.Matcher.{match_prefix, Names, match_prefix_iff}

match_iff_example :
    (Glob.match (codes "a*c") (codes "abbc") ≢ none)
    × ((Glob.match (codes "a*c") (codes "abbc") ≡ some true)
        ↔ Glob.Matches (codes "a*c") (codes "abbc"))
match_iff_example = Glob.match_iff (codes "a*c") (codes "abbc")

match_comm_example :
    RouteMatch.match (codes "GET /a/:id") (codes "/v1/a/7")
    ≡ RouteMatch.match (codes "/v1/a/7") (codes "GET /a/:id")
match_comm_example = RouteMatch.match_comm (codes "GET /a/:id") (codes "/v1/a/7")

route_segs_match_iff_example :
    (RouteMatch.route_segs_match
        (codes "a" ∷ codes ":id" ∷ [])
        (codes "v1" ∷ codes "a" ∷ codes "7" ∷ [])
      ≡ true)
    ↔ RouteMatch.Mounted (codes "a" ∷ codes ":id" ∷ []) (codes "v1" ∷ codes "a" ∷ codes "7" ∷ [])
route_segs_match_iff_example =
    RouteMatch.route_segs_match_iff (codes "a" ∷ codes ":id" ∷ [])
      (codes "v1" ∷ codes "a" ∷ codes "7" ∷ []) (omega arith)

match_prefix_iff_example :
    (match_prefix (codes "pkg.Do") (codes "pkg") ≡ true) ↔ Names (codes "pkg.Do") (codes "pkg")
match_prefix_iff_example = match_prefix_iff (codes "pkg.Do") (codes "pkg")

split_queries-Explains_example : Explains (codes "a, /b") (refused (part_of_regex (codes "/b")))
unfolding split_queries list_eq
split_queries-Explains_example = split_queries-Explains (codes "a, /b")
