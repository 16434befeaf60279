-- ===== src/Fitness/WriteBudget.antt =====
-- What the I/O budget demands of the graph (internal/groundwork/fitness/budget.go: checkIOBudget, IsRoute).
use verdi_go.Prelude.{
  ◌≡◌, refl, sym, ap, ◌∙◌, ◌≢◌, ◌↔◌, Bool, true, false, ◌||◌, not, Option, none, some, List, [],
  ◌∷◌, if◌then◌else◌, true_ne_false, not-true, Bool-ext, length, is_nil, bool_Eq, ◌==◌, nat_Eq,
  contains, list_Eq, In-contains, Str, codes, Str_Eq, IsStrict, sorted_keys-IsStrict, IsStrict-ext,
  pair_Eq, ℤ, above, Format, has_suffix, here,
}
use verdi_go.Graph.Types.{Graph}
use verdi_go.Graph.Index.{new_index, callers, sources, reachable}
use verdi_go.Graph.Surface
use verdi_go.Graph.Adjacency.{contains-callers}
use verdi_go.Graph.Reachability.{IsSource, sources_iff}
use verdi_go.Policy.Types.{Policy, IoBudget, root_packages}
use verdi_go.Fitness.Names.{pkg_of}
use verdi_go.Fitness.Breaks.{breaks}
use verdi_go.Fitness.Layering.{is_root_pkg}
use verdi_go.Fitness.Effects.{labels, write_label}
use verdi_go.Fitness.Budget.{route_root_pkgs, is_route, route_io, check_io_budget}
use verdi_go.Fitness.WriteSurface.{Surfaces, route_io-Surfaces}
use verdi_go.Fitness.BudgetLaws.{CountsHold, CountsWithin, check_io_budget-CountsHold}

-- The packages that wire the service: those of the policy, or those of the graph where it gives none.
abbrev pub wiring : Policy → Graph → List Str
wiring p g = if is_nil (root_packages p) then g.composition_roots else root_packages p

-- A route: a declared function that nothing calls, outside the packages that wire the service; where none is
-- known, no function main.
pub record IsRoute (p : Policy) (g : Graph) (s : Str) : Type 0 where
  pub source : IsSource g s
  pub outside : wiring p g ≢ [] → contains (pkg_of s) (wiring p g) ≡ false
  pub no_main : wiring p g ≡ [] → has_suffix s (codes ".main") ≡ false

is_root_pkg_lem : (roots : List Str) (pkg : Str) → is_root_pkg roots pkg ≡ contains pkg roots
unfolding is_root_pkg contains
is_root_pkg_lem [] pkg = refl
is_root_pkg_lem (r ∷ roots) pkg = ap (λ b. pkg == r || b) (is_root_pkg_lem roots pkg)

uncalled-nil : (xs : List Str) → ((f : Str) → contains f xs ≡ false) → is_nil xs ≡ true
uncalled-nil [] h = refl
uncalled-nil (x ∷ xs) h =
    absurd (true_ne_false (sym (In-contains {a = x} {xs = x ∷ xs} here) ∙ h x))

-- The test behind the check of the callers.
abbrev stays_out : List Str → Str → Bool
stays_out roots s =
    if not (is_nil roots)
    then not (is_root_pkg roots (pkg_of s))
    else not (has_suffix s (codes ".main"))

stays_out_iff :
    (roots : List Str) (s : Str)
    → (stays_out roots s ≡ true) ↔ (
        (roots ≢ [] → contains (pkg_of s) roots ≡ false)
        × (roots ≡ [] → has_suffix s (codes ".main") ≡ false))
stays_out_iff [] s = (λ h. (λ n. absurd (n refl), λ e. not-true _ h), λ v. ap not (v.1 refl))
stays_out_iff (r ∷ roots) s =
    let same = is_root_pkg_lem (r ∷ roots) (pkg_of s) in
    (λ h. (λ n. sym same ∙ not-true _ h, λ e. cc), λ v. ap not (same ∙ v.0 (λ e. cc)))

module _ (p : Policy) (g : Graph) (s : Str) where
  is_route-stays_out :
      is_nil (callers (new_index g) s) ≡ true
      → is_route p (new_index g) s ≡ stays_out (wiring p g) s
  unfolding is_route route_root_pkgs Surface.composition_roots new_index
  is_route-stays_out e = rw e refl

  no_callers : IsSource g s → is_nil (callers (new_index g) s) ≡ true
  no_callers i = uncalled-nil (callers (new_index g) s) (λ f. contains-callers g f s ∙ i.uncalled f)

  is_route_iff :
      ((contains s (sources (new_index g)) ≡ true) × (is_route p (new_index g) s ≡ true))
      ↔ IsRoute p g s
  is_route_iff =
      let i = sources_iff g s in
      let o = stays_out_iff (wiring p g) s in
      (
        λ (m, r).
            let e = no_callers (i.0 m) in
            let v = o.0 (sym (is_route-stays_out e) ∙ r) in
            record { source = i.0 m; outside = v.0; no_main = v.1 },
        λ v. (i.1 v.source, is_route-stays_out (no_callers v.source) ∙ o.1 (v.outside, v.no_main)),
      )

writes-IsStrict : (g : Graph) (s : Str) → IsStrict (route_io (new_index g) s).writes
unfolding route_io
writes-IsStrict g s =
    sorted_keys-IsStrict
      (labels write_label (Surface.effects (new_index g) (s ∷ reachable (new_index g) (s ∷ []))))

-- The set of the write labels of a route, listed in strict order.
pub record AreWrites (g : Graph) (s : Str) (ls : List Str) : Type 0 where
  pub strict : IsStrict ls
  pub complete : (l : Str) → (contains l ls ≡ true) ↔ Surfaces g write_label s l

AreWrites-writes :
    (g : Graph) (s : Str) (ls : List Str)
    → AreWrites g s ls
    → ls ≡ (route_io (new_index g) s).writes
AreWrites-writes g s ls w =
    IsStrict-ext ls (route_io (new_index g) s).writes w.strict (writes-IsStrict g s) (λ l.
      let r = (route_io-Surfaces g s l).0 in
      Bool-ext _ _ (λ h. r.1 ((w.complete l).0 h)) (λ h. (w.complete l).1 (r.0 h)))

-- No route has more distinct write labels than the budget allows.
pub record WithinBudget (p : Policy) (g : Graph) (max : ℤ) : Type 0 where
  pub within :
      (s : Str) (ls : List Str) → IsRoute p g s → AreWrites g s ls → above (length ls) max ≡ false

abbrev pub BudgetHolds : Policy → Graph → Option IoBudget → Type 0
BudgetHolds p g none = Unit
BudgetHolds p g (some b) = WithinBudget p g b.max_writes_per_route

CountsWithin-WithinBudget :
    (p : Policy) (g : Graph) (max : ℤ) → CountsWithin p (new_index g) max ↔ WithinBudget p g max
CountsWithin-WithinBudget p g max = (
  λ c. record {
    within = λ s ls r w.
        let (m, q) = (is_route_iff p g s).1 r in
        ap (λ x. above (length x) max) (AreWrites-writes g s ls w) ∙ c.within s m q;
  },
  λ v. record {
    within = λ s m q.
        v.within s (route_io (new_index g) s).writes ((is_route_iff p g s).0 (m, q))
          (record { strict = writes-IsStrict g s; complete = λ l. (route_io-Surfaces g s l).0 });
  },
)

CountsHold-BudgetHolds :
    (p : Policy) (g : Graph) (o : Option IoBudget)
    → CountsHold p (new_index g) o ↔ BudgetHolds p g o
CountsHold-BudgetHolds p g none = (λ h. tt, λ h. tt)
CountsHold-BudgetHolds p g (some b) = CountsWithin-WithinBudget p g b.max_writes_per_route

-- The budget brings no violation exactly when none is set, or no route has more distinct write labels than it
-- allows: a route is a declared function that nothing calls, outside the root packages of the policy or else of
-- the graph, and not named main where neither gives any; its write labels are those of the boundary edges of the
-- route and of what calls lead to from it.
pub check_io_budget-BudgetHolds :
    (format : Format) (p : Policy) (g : Graph)
    → (breaks (check_io_budget format p (new_index g)).0 ≡ false) ↔ BudgetHolds p g p.io_budget
check_io_budget-BudgetHolds format p g =
    let c = check_io_budget-CountsHold format p (new_index g) in
    let b = CountsHold-BudgetHolds p g p.io_budget in (λ h. b.0 (c.0 h), λ v. c.1 (b.1 v))
