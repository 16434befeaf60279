-- ===== src/Fitness/Effects.antt =====
-- How the effect labels read as writes (internal/groundwork/fitness/budget.go).
use verdi_go.Prelude.{
  Bool, true, false, ◌||◌, not, Option, none, some, List, [], ◌∷◌, ltb, if◌then◌else◌, length, any,
  bool_Eq, ◌==◌, nat_Eq, list_Eq, Str, codes, Str_Eq, has_prefix, trim_prefix, fields, pair_Eq,
  upper,
}
use verdi_go.Vocabulary.Verbs.{label_prefix, kind_db, kind_bus, mutating, is_method_named}
use verdi_go.Graph.Types.{Edge, is_boundary}

-- `strings.TrimPrefix(e.To, "boundary:")`
unfoldable pub label : Edge → Str
unfolding trim_prefix
label e = trim_prefix e.to label_prefix

abbrev pub upper_one_of : Str → List Str → Bool
upper_one_of up words = any (λ w. up == w) words

unfoldable pub non_mutating_db_control : Str → Bool
unfolding has_prefix
non_mutating_db_control op =
    let up = upper op in
    if upper_one_of up (
      codes "PING"
      ∷ codes "PINGCONTEXT"
      ∷ codes "BEGIN"
      ∷ codes "BEGINTX"
      ∷ codes "COMMIT"
      ∷ codes "ROLLBACK"
      ∷ codes "CONN"
      ∷ codes "STATS"
      ∷ codes "PREPARE"
      ∷ codes "PREPARECONTEXT"
      ∷ [])
    then true
    else (up == codes "SET")
      || (has_prefix up (codes "SET ")
          || (has_prefix up (codes "SETMAX") || has_prefix up (codes "SETCONN")))

unfoldable pub method_named_effect : List Str → Bool
unfolding is_method_named
method_named_effect (kind ∷ op ∷ []) = is_method_named kind
method_named_effect _ = false

abbrev pub http_writes : List Str
http_writes = codes "POST" ∷ codes "PUT" ∷ codes "PATCH" ∷ codes "DELETE" ∷ []

-- The switch on the system, for labels of two fields or more.
unfoldable pub writes_by : List Str → Bool
unfolding mutating
writes_by (system ∷ op ∷ rest) =
    if system == kind_db
    then mutating (upper op)
    else if system == kind_bus
    then upper op == codes "PUBLISH"
    else upper_one_of (upper op) http_writes
writes_by _ = false

unfoldable pub is_write : Edge → Bool
unfolding is_boundary fields method_named_effect trim_prefix mutating
is_write e =
    let f = fields (label e) in
    if not (is_boundary e)
    then false
    else if ltb (length f) 2
    then false
    else if method_named_effect f
    then false
    else writes_by f

-- A label with a test is an Option: `none` is ("", false).
unfoldable pub write_label : Edge → Option Str
unfolding is_write trim_prefix
write_label e = if not (is_write e) then none else some (label e)

unfoldable pub unclassified_op : List Str → Bool
unfolding mutating non_mutating_db_control
unclassified_op (system ∷ op ∷ rest) =
    if not (system == kind_db)
    then false
    else if mutating (upper op) || (upper op == codes "SELECT")
    then false
    else not (non_mutating_db_control op)
unclassified_op _ = false

unfoldable pub unclassified_db_label : Edge → Option Str
unfolding is_boundary fields trim_prefix mutating non_mutating_db_control
unclassified_db_label e =
    if not (is_boundary e)
    then none
    else if unclassified_op (fields (label e))
    then some (label e)
    else none

unfoldable pub unclassified_effect_label : Edge → Option Str
unfolding is_boundary fields method_named_effect trim_prefix
unclassified_effect_label e =
    if not (is_boundary e)
    then none
    else if not (method_named_effect (fields (label e)))
    then none
    else some (label e)

abbrev pub with_label : Option Str → List Str → List Str
with_label none rest = rest
with_label (some l) rest = l ∷ rest

-- The loop that collects the labels that a reading gives.
unfoldable pub labels : (Edge → Option Str) → List Edge → List Str
labels read [] = []
labels read (e ∷ es) = with_label (read e) (labels read es)
