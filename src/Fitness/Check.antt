-- ===== src/Fitness/Check.antt =====
-- Check of internal/groundwork/fitness/fitness.go, and the result that it returns.
use verdi_go.Prelude.{
  some, List, [], ◌++◌, if◌then◌else◌, is_nil, bool_Eq, nat_Eq, list_Eq, Str, Str_Eq, pair_Eq,
  Format,
}
use verdi_go.Graph.Index.{Index}
use verdi_go.Facts.Concurrent.{build_concurrent_surface}
use verdi_go.Policy.Types.{Policy}
use verdi_go.Fitness.Findings.{Finding, sort}
use verdi_go.Fitness.Layering.{check_layering}
use verdi_go.Fitness.Reach.{check_must_not_reach}
use verdi_go.Fitness.PassThrough.{check_must_pass_through}
use verdi_go.Fitness.Concurrent.{
  check_no_concurrent_reach, check_obligations, check_ratchet_coupling,
}
use verdi_go.Fitness.Budget.{RouteIo, check_io_budget}

pub record Result : Type 0 where
  pub findings : List Finding
  pub route_writes : List (Str × RouteIo)

-- `if len(p.NoConcurrentReach) > 0`
unfoldable pub concurrent_part : Policy → Index → List Finding
unfolding build_concurrent_surface check_no_concurrent_reach
concurrent_part p ix =
    if is_nil p.no_concurrent_reach
    then []
    else check_no_concurrent_reach p (build_concurrent_surface (some ix))

unfoldable pub check_all : Format → Policy → Index → List Finding
unfolding check_layering check_must_not_reach check_must_pass_through concurrent_part
    check_io_budget check_obligations check_ratchet_coupling
check_all format p ix =
    check_layering format p ix
    ++ (check_must_not_reach p ix
        ++ (check_must_pass_through p ix
            ++ (concurrent_part p ix
                ++ ((check_io_budget format p ix).0
                    ++ (check_obligations format ix ++ check_ratchet_coupling p)))))

unfoldable pub check : Format → Policy → Index → Result
unfolding check_all check_io_budget sort
check format p ix = record {
  findings = sort (check_all format p ix);
  route_writes = (check_io_budget format p ix).1;
}
