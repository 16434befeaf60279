-- ===== src/Fitness/Names.antt =====
-- Names for display (internal/groundwork/fitness/fqn.go, and renderBypassPath and shortPatterns of
-- passthrough.go).
use verdi_go.Prelude.{
  Bool, List, map, if◌then◌else◌, drop, bool_Eq, nat_Eq, list_Eq, Str, codes, Str_Eq, has_prefix,
  trim_prefix, pair_Eq, delete_byte, join,
}
use verdi_go.Vocabulary.Verbs.{label_prefix}
use verdi_go.Graph.Index.{Index}
use verdi_go.Facts.Match.{package_of, after_last_slash, matches_any, bind_sources}

unfoldable pub pkg_of : Str → Str
unfolding package_of
pkg_of fqn = package_of fqn

unfoldable pub short_name : Str → Str
unfolding trim_prefix
short_name fqn =
    let s = delete_byte b'*' (trim_prefix fqn (codes "(")) in
    delete_byte b')' (drop (after_last_slash 0 0 s) s)

unfoldable pub short_target : Str → Str
unfolding has_prefix short_name
short_target value = if has_prefix value label_prefix then value else short_name value

unfoldable pub match_any : Str → List Str → Bool
unfolding matches_any
match_any s patterns = matches_any s patterns

unfoldable pub expand_froms : Index → List Str → List Str
unfolding bind_sources
expand_froms ix patterns = bind_sources ix patterns

unfoldable pub render_bypass_path : List Str → Str
unfolding short_target join
render_bypass_path path = join (codes " → ") (map short_target path)

unfoldable pub short_patterns : List Str → Str
unfolding short_name join
short_patterns patterns = join (codes ", ") (map short_name patterns)
