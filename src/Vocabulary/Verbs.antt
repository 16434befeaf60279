-- ===== src/Vocabulary/Verbs.antt =====
-- The SQL verbs that commit a mutation (internal/sqlverb/sqlverb.go), the method-named effect kinds
-- (internal/effectkind/effectkind.go) and the label prefixes (internal/boundarylabel/boundarylabel.go).
use verdi_go.Prelude.{
  ◌≡◌, refl, Bool, List, [], ◌∷◌, ◌++◌, arith, any, Str, codes, ◌==◌, nat_Eq, list_Eq, eq_iff,
  contains, has_prefix, sorted_keys, compact, str_lt, list_eq,
}

abbrev pub mutating_verb_list : List Str
mutating_verb_list =
    codes "DELETE"
    ∷ codes "INSERT"
    ∷ codes "MERGE"
    ∷ codes "REPLACE"
    ∷ codes "UPDATE"
    ∷ codes "UPSERT"
    ∷ []

unfoldable pub mutating : Str → Bool
mutating op = any (λ v. v == op) mutating_verb_list

unfoldable pub mutating_verbs : List Str
mutating_verbs = [] ++ mutating_verb_list

abbrev pub blob : Str
blob = codes "blob"

abbrev pub cache : Str
cache = codes "cache"

abbrev pub rpc : Str
rpc = codes "rpc"

abbrev pub method_named : List Str
method_named = blob ∷ cache ∷ rpc ∷ []

unfoldable pub is_method_named : Str → Bool
is_method_named kind = any (λ k. k == kind) method_named

unfoldable pub method_named_kinds : List Str
method_named_kinds = [] ++ method_named

abbrev pub label_prefix : Str
label_prefix = codes "boundary:"

abbrev pub kind_db : Str
kind_db = codes "db"

abbrev pub kind_bus : Str
kind_bus = codes "bus"

abbrev pub db_prefix : Str
db_prefix = label_prefix ++ kind_db ++ codes " "

abbrev pub bus_prefix : Str
bus_prefix = label_prefix ++ kind_bus ++ codes " "

unfoldable pub has_kind : Str → Str → Bool
has_kind to kind = has_prefix to (label_prefix ++ kind ++ codes " ")

any_eq-contains : (a : Str) (xs : List Str) → any (λ x. x == a) xs ≡ contains a xs
unfolding contains
any_eq-contains a [] = refl
any_eq-contains a (x ∷ xs) = ground (arith, any_eq-contains a xs, eq_iff x a, eq_iff a x)

-- The test and the exported list are one vocabulary: a verb passes `mutating` exactly when it is on
-- the list of `mutating_verbs`, and that list is strictly ascending.
pub mutating-mutating_verbs :
    ((op : Str) → mutating op ≡ contains op mutating_verbs)
    × (sorted_keys mutating_verbs ≡ mutating_verbs)
unfolding mutating mutating_verbs sorted_keys compact str_lt list_eq
mutating-mutating_verbs = (λ op. any_eq-contains op mutating_verb_list, refl)
