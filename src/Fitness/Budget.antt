-- ===== src/Fitness/Budget.antt =====
-- Routes, their write surface and checkIOBudget (internal/groundwork/fitness/budget.go).
use verdi_go.Prelude.{
  ℕ, ◌+◌, Bool, true, false, not, Option, none, some, List, [], ◌∷◌, ◌++◌, ltb, if◌then◌else◌,
  length, is_nil, bool_Eq, nat_Eq, list_Eq, Str, codes, Str_Eq, sorted_keys, pair_Eq, lookup, put,
  keys, ℤ, above, Format, has_suffix, join, concat, pos,
}
use verdi_go.Graph.Index.{Index, callers, sources, reachable}
use verdi_go.Graph.Surface
use verdi_go.Policy.Types.{Policy, IoBudget, root_packages}
use verdi_go.Fitness.Findings.{caution, violation, Finding}
use verdi_go.Fitness.Names.{pkg_of, short_name}
use verdi_go.Fitness.Messages.{about_rule}
use verdi_go.Fitness.Layering.{is_root_pkg}
use verdi_go.Fitness.Reach.{frontier_blind_site_with}
use verdi_go.Fitness.Effects.{labels, write_label, unclassified_db_label, unclassified_effect_label}

pub record RouteIo : Type 0 where
  pub writes : List Str
  pub blind : Bool
  pub unclassified : List Str
  pub unclassified_effects : List Str

unfoldable pub route_root_pkgs : Policy → Index → List Str
unfolding root_packages Surface.composition_roots
route_root_pkgs p ix =
    if is_nil (root_packages p) then Surface.composition_roots ix else root_packages p

unfoldable pub is_route : Policy → Index → Str → Bool
unfolding callers route_root_pkgs is_root_pkg pkg_of has_suffix
is_route p ix fqn =
    if not (is_nil (callers ix fqn))
    then false
    else if not (is_nil (route_root_pkgs p ix))
    then not (is_root_pkg (route_root_pkgs p ix) (pkg_of fqn))
    else not (has_suffix fqn (codes ".main"))

abbrev pub is_some : Option Str → Bool
is_some none = false
is_some (some s) = true

-- The body of the loop of RouteWrites.
unfoldable pub route_io : Index → Str → RouteIo
unfolding reachable Surface.effects labels write_label unclassified_db_label
    unclassified_effect_label sorted_keys frontier_blind_site_with
route_io ix src =
    let cone = src ∷ reachable ix (src ∷ []) in
    let effects = Surface.effects ix cone in
    record {
      writes = sorted_keys (labels write_label effects);
      blind = is_some (frontier_blind_site_with ix cone effects);
      unclassified = sorted_keys (labels unclassified_db_label effects);
      unclassified_effects = sorted_keys (labels unclassified_effect_label effects);
    }

unfoldable pub put_routes : Policy → Index → List Str → List (Str × RouteIo) → List (Str × RouteIo)
unfolding is_route route_io put
put_routes p ix [] out = out
put_routes p ix (src ∷ srcs) out =
    put_routes p ix srcs (if not (is_route p ix src) then out else put src (route_io ix src) out)

unfoldable pub route_writes : Policy → Index → List (Str × RouteIo)
unfolding put_routes sources
route_writes p ix = put_routes p ix (sources ix) []

abbrev pub io_budget_rule : Str
io_budget_rule = codes "io_budget"

-- The counters and the sets of the loop, with the findings so far.
pub record BudgetTally : Type 0 where
  pub findings : List Finding
  pub unclass_routes : ℕ
  pub blind_routes : ℕ
  pub unclass_effect_routes : ℕ
  pub unclassified : List Str
  pub unclass_effects : List Str

module _ (format : Format) (max : ℤ) where
  unfoldable pub over_budget : Str → List Str → List Finding
  unfolding short_name join
  over_budget src writes =
      if above (length writes) max
      then record {
        rule = io_budget_rule;
        severity = violation;
        summary = concat (
            short_name src
            ∷ codes " reaches "
            ∷ format.decimal (pos (length writes))
            ∷ codes " write(s) over a budget of "
            ∷ format.decimal max
            ∷ codes ": "
            ∷ join (codes ", ") writes
            ∷ []);
        from = src;
        to = [];
        detail = [];
      }
        ∷ []
      else []

  unfoldable pub tally_route : Str → RouteIo → BudgetTally → BudgetTally
  unfolding over_budget
  tally_route src io t = record {
    findings = t.findings ++ over_budget src io.writes;
    unclass_routes = if is_nil io.unclassified then t.unclass_routes else t.unclass_routes + 1;
    blind_routes = if io.blind then t.blind_routes + 1 else t.blind_routes;
    unclass_effect_routes =
        if is_nil io.unclassified_effects
        then t.unclass_effect_routes
        else t.unclass_effect_routes + 1;
    unclassified = t.unclassified ++ io.unclassified;
    unclass_effects = t.unclass_effects ++ io.unclassified_effects;
  }

  -- `routes[src]`, for a key of the map: the case without a value is never met.
  unfoldable pub tally_found : Str → Option RouteIo → BudgetTally → BudgetTally
  unfolding tally_route
  tally_found src none t = t
  tally_found src (some io) t = tally_route src io t

  unfoldable pub tally_routes : List (Str × RouteIo) → List Str → BudgetTally → BudgetTally
  unfolding lookup tally_found
  tally_routes routes [] t = t
  tally_routes routes (src ∷ srcs) t =
      tally_routes routes srcs (tally_found src (lookup src routes) t)

abbrev pub budget_caution : Str → Finding
budget_caution summary = about_rule io_budget_rule caution summary

abbrev pub nothing_tallied : List Finding → BudgetTally
nothing_tallied findings = record {
  findings = findings;
  unclass_routes = 0;
  blind_routes = 0;
  unclass_effect_routes = 0;
  unclassified = [];
  unclass_effects = [];
}

-- The vacuity disclosure.
unfoldable pub vacuous_findings : List (Str × RouteIo) → List Finding
vacuous_findings routes =
    if is_nil routes
    then budget_caution (
        codes
          "io_budget binds no route: the graph has no non-root entrypoint to charge, so the per-route write-blowout guard is vacuous — a within-budget pass here proves nothing about the write surface")
      ∷ []
    else []

-- The three disclosures behind the loop.
unfoldable pub disclosures : Format → BudgetTally → List Finding
unfolding sorted_keys join
disclosures format t =
    (if ltb 0 t.unclass_routes
      then budget_caution (
          concat (
            codes "write budget unenforceable on "
            ∷ format.decimal (pos t.unclass_routes)
            ∷ codes " route(s): "
            ∷ format.decimal (pos (length (sorted_keys t.unclassified)))
            ∷ codes " DB effect label(s) are unclassified ("
            ∷ join (codes ", ") (sorted_keys t.unclassified)
            ∷ codes
                ") — built from non-constant SQL the labeler cannot read as a write, so a within-budget pass here does not prove the write surface is bounded"
            ∷ []))
        ∷ []
      else [])
    ++ ((if ltb 0 t.unclass_effect_routes
          then budget_caution (
              concat (
                codes "write budget unenforceable on "
                ∷ format.decimal (pos t.unclass_effect_routes)
                ∷ codes " route(s): "
                ∷ format.decimal (pos (length (sorted_keys t.unclass_effects)))
                ∷ codes " external effect label(s) ("
                ∷ join (codes ", ") (sorted_keys t.unclass_effects)
                ∷ codes
                    ") whose operation the budget cannot read as a write — a within-budget pass here does not prove the write surface is bounded"
                ∷ []))
            ∷ []
          else [])
        ++ (if ltb 0 t.blind_routes
            then budget_caution (
                concat (
                  codes "write budget is a lower bound on "
                  ∷ format.decimal (pos t.blind_routes)
                  ∷ codes
                      " route(s): the forward frontier is blind (dynamic dispatch, reflect/unsafe, or a <dynamic> effect) — writes reachable past it are uncounted, so a within-budget pass there is not a proof the write surface is bounded"
                  ∷ []))
              ∷ []
            else []))

-- The findings, and the routes that the result carries; `none` is the nil budget.
unfoldable pub charge :
    Format → Policy → Index → Option IoBudget → List Finding × List (Str × RouteIo)
unfolding route_writes tally_routes vacuous_findings disclosures sorted_keys
charge format p ix none = ([], [])
charge format p ix (some budget) =
    let routes = route_writes p ix in
    let t =
      tally_routes format budget.max_writes_per_route routes (sorted_keys (keys routes))
        (nothing_tallied (vacuous_findings routes)) in
    (t.findings ++ disclosures format t, routes)

unfoldable pub check_io_budget : Format → Policy → Index → List Finding × List (Str × RouteIo)
unfolding charge
check_io_budget format p ix = charge format p ix p.io_budget
