-- ===== src/Fitness/BudgetLaws.antt =====
-- When checkIOBudget (internal/groundwork/fitness/budget.go) lets the routes pass, and what their write
-- surface is.
use verdi_go.Prelude.{
  ◌≡◌, refl, sym, ap, subst, ◌∙◌, ◌↔◌, inl, inr, Bool, true, false, ◌&&◌, ◌||◌, Option, none, some,
  List, [], ◌∷◌, ◌++◌, arith, if◌then◌else◌, Bool-cases, and_true, true_ne_false, length, any,
  any_witness, any_none, bool_Eq, eq_iff, nat_Eq, contains, list_Eq, contains-In, Str, Str_Eq,
  sorted_keys, contains-sorted_keys, pair_Eq, lookup, put, lookup-put, keys, lookup-none-keys, ℤ,
  above, Format,
}
use verdi_go.Graph.Index.{Index, sources}
use verdi_go.Policy.Types.{Policy, IoBudget}
use verdi_go.Fitness.Breaks.{breaks, breaks-append}
use verdi_go.Fitness.Budget.{
  RouteIo, BudgetTally, is_route, route_io, put_routes, route_writes, over_budget, tally_route,
  tally_found, tally_routes, vacuous_findings, disclosures, nothing_tallied, charge,
  check_io_budget,
}

lookup-put_routes :
    (p : Policy) (ix : Index) (srcs : List Str) (out : List (Str × RouteIo)) (s : Str)
    → lookup s (put_routes p ix srcs out)
      ≡ (if contains s srcs && is_route p ix s then some (route_io ix s) else lookup s out)
unfolding put_routes contains
lookup-put_routes p ix [] out s = refl
lookup-put_routes p ix (src ∷ srcs) out s = elim (Bool-cases (is_route p ix src)) [
  | inl e ↦ rw e (
      ground (
        arith,
        lookup-put_routes p ix srcs (put src (route_io ix src) out) s,
        lookup-put src s (route_io ix src) out,
        eq_iff s src,
        eq_iff src s,
      ))
  | inr e ↦ rw e (ground (arith, lookup-put_routes p ix srcs out s, eq_iff s src))
]

-- The map of the routes holds, for each source that is a route, its write surface, and nothing else.
pub lookup-route_writes :
    (p : Policy) (ix : Index) (s : Str)
    → lookup s (route_writes p ix)
      ≡ (if contains s (sources ix) && is_route p ix s then some (route_io ix s) else none)
unfolding route_writes lookup
lookup-route_writes p ix s = lookup-put_routes p ix (sources ix) [] s

module _ (format : Format) (max : ℤ) where
  abbrev exceeds : Option RouteIo → Bool
  exceeds none = false
  exceeds (some io) = above (length io.writes) max

  breaks-over_budget :
      (src : Str) (writes : List Str)
      → breaks (over_budget format max src writes) ≡ above (length writes) max
  unfolding over_budget
  breaks-over_budget src writes = elim (Bool-cases (above (length writes) max)) [
    | inl e ↦ rw e refl
    | inr e ↦ rw e refl
  ]

  breaks-tally_found :
      (src : Str) (o : Option RouteIo) (t : BudgetTally)
      → breaks (tally_found format max src o t).findings ≡ (breaks t.findings || exceeds o)
  unfolding tally_found tally_route
  breaks-tally_found src none t = ground arith
  breaks-tally_found src (some io) t =
      breaks-append t.findings (over_budget format max src io.writes)
      ∙ ap (λ b. breaks t.findings || b) (breaks-over_budget src io.writes)

  breaks-tally_routes :
      (routes : List (Str × RouteIo)) (srcs : List Str) (t : BudgetTally)
      → breaks (tally_routes format max routes srcs t).findings
        ≡ (breaks t.findings || any (λ s. exceeds (lookup s routes)) srcs)
  unfolding tally_routes
  breaks-tally_routes routes [] t = ground arith
  breaks-tally_routes routes (src ∷ srcs) t = ground (
    arith,
    breaks-tally_routes routes srcs (tally_found format max src (lookup src routes) t),
    breaks-tally_found src (lookup src routes) t,
  )

breaks-vacuous_findings : (routes : List (Str × RouteIo)) → breaks (vacuous_findings routes) ≡ false
unfolding vacuous_findings
breaks-vacuous_findings [] = refl
breaks-vacuous_findings (r ∷ rs) = refl

breaks-disclosures : (format : Format) (t : BudgetTally) → breaks (disclosures format t) ≡ false
unfolding disclosures
breaks-disclosures format t = ground arith

-- What the loop counts for each route stays within the budget.
pub record CountsWithin (p : Policy) (ix : Index) (max : ℤ) : Type 0 where
  pub within :
      (s : Str)
      → contains s (sources ix) ≡ true
      → is_route p ix s ≡ true
      → above (length (route_io ix s).writes) max ≡ false

abbrev pub CountsHold : Policy → Index → Option IoBudget → Type 0
CountsHold p ix none = Unit
CountsHold p ix (some b) = CountsWithin p ix b.max_writes_per_route

module _ (format : Format) (p : Policy) (ix : Index) (budget : IoBudget) where
  abbrev max : ℤ
  max = budget.max_writes_per_route

  abbrev some_exceeds : Bool
  some_exceeds =
      any (λ s. exceeds format max (lookup s (route_writes p ix)))
        (sorted_keys (keys (route_writes p ix)))

  held :
      (s : Str)
      → contains s (sources ix) ≡ true
      → is_route p ix s ≡ true
      → lookup s (route_writes p ix) ≡ some (route_io ix s)
  held s m r = ground (arith, lookup-route_writes p ix s, m, r)

  is_kept :
      (s : Str)
      → contains s (sources ix) ≡ true
      → is_route p ix s ≡ true
      → contains s (keys (route_writes p ix)) ≡ true
  is_kept s m r = elim (Bool-cases (contains s (keys (route_writes p ix)))) [
    | inl k ↦ k
    | inr k ↦ cc (lookup-none-keys s (route_writes p ix) k, held s m r)
  ]

  refuted :
      CountsWithin p ix max
      → (s : Str) → exceeds format max (lookup s (route_writes p ix)) ≡ true
      → ⊥
  refuted v s q = elim (Bool-cases (contains s (sources ix) && is_route p ix s)) [
    | inl e ↦
        let (m, r) = and_true _ _ e in
        true_ne_false
          (sym (subst (λ o. exceeds format max o ≡ true) (held s m r) q) ∙ v.within s m r)
    | inr e ↦
        let gone : lookup s (route_writes p ix) ≡ none =
          ground (arith, lookup-route_writes p ix s, e) in
        true_ne_false (sym (subst (λ o. exceeds format max o ≡ true) gone q))
  ]

  some_exceeds-CountsWithin : (some_exceeds ≡ false) ↔ CountsWithin p ix max
  some_exceeds-CountsWithin = (
    λ h. record {
      within = λ s m r.
          subst (λ o. exceeds format max o ≡ false) (held s m r)
            (any_none (λ t. exceeds format max (lookup t (route_writes p ix)))
              (contains-In s _ (contains-sorted_keys s (keys (route_writes p ix)) ∙ is_kept s m r))
              h);
    },
    λ v. elim (Bool-cases some_exceeds) [
      | inr h ↦ h
      | inl h ↦
          let (s, i, q) =
            any_witness (λ t. exceeds format max (lookup t (route_writes p ix)))
              (sorted_keys (keys (route_writes p ix))) h in
          absurd (refuted v s q)
    ],
  )

breaks-tally :
    (format : Format) (p : Policy) (ix : Index) (b : IoBudget) (t : BudgetTally)
    → t
      ≡ tally_routes format b.max_writes_per_route
          (route_writes p ix)
          (sorted_keys (keys (route_writes p ix)))
          (nothing_tallied (vacuous_findings (route_writes p ix)))
    → breaks (t.findings ++ disclosures format t) ≡ some_exceeds format p ix b
breaks-tally format p ix b t e = ground (
  arith,
  e,
  breaks-append t.findings (disclosures format t),
  breaks-disclosures format t,
  breaks-vacuous_findings (route_writes p ix),
  breaks-tally_routes format b.max_writes_per_route (route_writes p ix)
      (sorted_keys (keys (route_writes p ix)))
      (nothing_tallied (vacuous_findings (route_writes p ix))),
)

charge-CountsHold :
    (format : Format) (p : Policy) (ix : Index) (o : Option IoBudget)
    → (breaks (charge format p ix o).0 ≡ false) ↔ CountsHold p ix o
unfolding charge
charge-CountsHold format p ix none = (λ h. tt, λ h. refl)
charge-CountsHold format p ix (some b) =
    let same = breaks-tally format p ix b _ refl in
    let w = some_exceeds-CountsWithin format p ix b in (λ h. w.0 (sym same ∙ h), λ v. same ∙ w.1 v)

-- The budget brings no violation exactly when what is counted stays within it.
pub check_io_budget-CountsHold :
    (format : Format) (p : Policy) (ix : Index)
    → (breaks (check_io_budget format p ix).0 ≡ false) ↔ CountsHold p ix p.io_budget
unfolding check_io_budget
check_io_budget-CountsHold format p ix = charge-CountsHold format p ix p.io_budget
