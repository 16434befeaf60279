-- ===== src/Fitness/Findings.antt =====
-- Findings, the gate and their order (internal/groundwork/fitness/result.go).
use verdi_go.Prelude.{
  ℕ, Bool, true, false, not, List, [], ◌∷◌, ◌++◌, ltb, nat_eq, if◌then◌else◌, keep, bool_Eq, ◌==◌,
  nat_Eq, list_Eq, Str, Str_Eq, str_lt, sort_by, pair_Eq,
}

pub data Severity : Type 0 where
  caution violation : Severity

-- The place of a severity in its enumeration.
abbrev pub severity_rank : Severity → ℕ
severity_rank caution = 0
severity_rank violation = 1

pub record Finding : Type 0 where
  pub rule : Str
  pub severity : Severity
  pub summary : Str
  pub from : Str
  pub to : Str
  pub detail : Str

-- Key: the identity, without the detail, joined by zero bytes.
unfoldable pub key : Finding → Str
key f = f.rule ++ (0 ∷ f.from) ++ (0 ∷ f.to) ++ (0 ∷ f.summary)

abbrev pub has_severity : Severity → Finding → Bool
has_severity s f = nat_eq (severity_rank f.severity) (severity_rank s)

unfoldable pub ok : List Finding → Bool
ok [] = true
ok (f ∷ fs) = let rest = ok fs in if has_severity violation f then false else rest

unfoldable pub by_severity : Severity → List Finding → List Finding
by_severity s fs = keep (has_severity s) fs

unfoldable pub violations : List Finding → List Finding
unfolding by_severity
violations fs = by_severity violation fs

unfoldable pub cautions : List Finding → List Finding
unfolding by_severity
cautions fs = by_severity caution fs

-- Violations before cautions, then (Rule, Summary, From, To).
unfoldable pub finding_less : Finding → Finding → Bool
unfolding str_lt
finding_less a b =
    if not (nat_eq (severity_rank a.severity) (severity_rank b.severity))
    then ltb (severity_rank b.severity) (severity_rank a.severity)
    else if not (a.rule == b.rule)
    then str_lt a.rule b.rule
    else if not (a.summary == b.summary)
    then str_lt a.summary b.summary
    else if not (a.from == b.from)
    then str_lt a.from b.from
    else str_lt a.to b.to

unfoldable pub sort : List Finding → List Finding
unfolding sort_by finding_less
sort fs = sort_by finding_less fs
