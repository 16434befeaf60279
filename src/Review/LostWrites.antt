-- ===== src/Review/LostWrites.antt =====
-- What the rows of RouteIODeltas (internal/groundwork/review/routeio.go) say of the two write surfaces.
use verdi_go.Prelude.{
  ◌≡◌, refl, ap, ◌∙◌, inl, inr, Bool, true, false, ◌&&◌, ◌||◌, not, Option, none, some, List, [],
  ◌∷◌, arith, ltb, Bool-cases, length, any, any-append, flat_map, any-flat_map, any-pointwise,
  bool_Eq, ◌==◌, nat_Eq, contains, list_Eq, contains-keep, Str, Str_Eq, any-sort_by,
  contains-sorted_keys, pair_Eq, lookup,
}
use verdi_go.Graph.Index.{Index}
use verdi_go.Policy.Types.{Policy}
use verdi_go.Fitness.Budget.{RouteIo}
use verdi_go.Review.RouteIo.{
  RouteIoSide, RouteIoDelta, diff_string_sets, changed_row, base_row, branch_row, delta_rows,
  route_io_deltas,
}

abbrev present : Option RouteIoSide → Bool
present none = false
present (some s) = true

-- A row of the route, which both sides have, that lists the write as removed.
unfoldable pub loses : Str → Str → RouteIoDelta → Bool
unfolding contains
loses route w d = present d.base && (present d.branch && (d.route == route && contains w d.removed))

-- The branch has the route, without the write.
abbrev pub absent_from : Str → Option RouteIo → Bool
absent_from w none = false
absent_from w (some br) = not (contains w br.writes)

-- The base has the route with the write, the branch has it without.
unfoldable pub lost : Str → Str → List (Str × RouteIo) → Str × RouteIo → Bool
unfolding contains lookup
lost route w branch_rw (k, b) =
    k == route && (contains w b.writes && absent_from w (lookup k branch_rw))

or_none : (b : Bool) → (b || false) ≡ b
or_none b = ground arith

module _ (route w : Str) where
  changed_row-loses :
      (k : Str) (b br : RouteIo) (removed added : List Str)
      → any (loses route w) (changed_row k b br (removed, added))
        ≡ (k == route && contains w removed)
  unfolding loses contains
  changed_row-loses k b br [] [] = ground arith
  changed_row-loses k b br [] (x ∷ xs) =
      or_none _ ∙ ap (λ c. k == route && c) (contains-sorted_keys w [])
  changed_row-loses k b br (x ∷ xs) [] =
      or_none _ ∙ ap (λ c. k == route && c) (contains-sorted_keys w (x ∷ xs))
  changed_row-loses k b br (x ∷ xs) (y ∷ ys) =
      or_none _ ∙ ap (λ c. k == route && c) (contains-sorted_keys w (x ∷ xs))

  base_row-loses :
      (k : Str) (b : RouteIo) (found : Option RouteIo)
      → any (loses route w) (base_row k b found)
        ≡ (k == route && (contains w b.writes && absent_from w found))
  unfolding base_row loses diff_string_sets
  base_row-loses k b none = elim (Bool-cases (ltb 0 (length b.writes))) [
    | inl e ↦ rw e (ground arith)
    | inr e ↦ rw e (ground arith)
  ]
  base_row-loses k b (some br) =
      changed_row-loses k b br _ _ ∙ ap (λ c. k == route && c) (contains-keep _ w b.writes)

  branch_row-loses :
      (k : Str) (br : RouteIo) (found : Option RouteIo)
      → any (loses route w) (branch_row k br found) ≡ false
  unfolding branch_row loses
  branch_row-loses k br none = elim (Bool-cases (ltb 0 (length br.writes))) [
    | inl e ↦ rw e refl
    | inr e ↦ rw e refl
  ]
  branch_row-loses k br (some b) = refl

  no_branch_row :
      (base_rw rws : List (Str × RouteIo))
      → any
          (loses route w)
          (flat_map (λ (m : Str × RouteIo). branch_row m.0 m.1 (lookup m.0 base_rw)) rws)
        ≡ false
  no_branch_row base_rw [] = refl
  no_branch_row base_rw (m ∷ ms) =
      any-append (loses route w) (branch_row m.0 m.1 (lookup m.0 base_rw)) _
      ∙ rw (branch_row-loses m.0 m.1 (lookup m.0 base_rw), no_branch_row base_rw ms) refl

  delta_rows-loses :
      (base_rw branch_rw : List (Str × RouteIo))
      → any (loses route w) (delta_rows base_rw branch_rw) ≡ any (lost route w branch_rw) base_rw
  unfolding delta_rows lost
  delta_rows-loses base_rw branch_rw =
      any-append (loses route w)
        (flat_map (λ (m : Str × RouteIo). base_row m.0 m.1 (lookup m.0 branch_rw)) base_rw) _
      ∙ rw (no_branch_row base_rw branch_rw) (or_none _)
      ∙ any-flat_map (loses route w) (λ m. base_row m.0 m.1 (lookup m.0 branch_rw)) base_rw
      ∙ any-pointwise _ (lost route w branch_rw) base_rw
          (λ m. base_row-loses m.0 m.1 (lookup m.0 branch_rw))

-- Some row reports a write of a route that both sides have as removed exactly when the base's surface
-- has the route with the write and the branch's has it without, whatever the other routes reach.
pub route_io_deltas-lost :
    (p : Policy) (base_ix branch_ix : Index) (base_rw branch_rw : List (Str × RouteIo))
    (route w : Str)
    → any (loses route w) (route_io_deltas p base_ix branch_ix (some base_rw) (some branch_rw))
      ≡ any (lost route w branch_rw) base_rw
unfolding route_io_deltas
route_io_deltas-lost p base_ix branch_ix base_rw branch_rw route w =
    any-sort_by _ (loses route w) (delta_rows base_rw branch_rw)
    ∙ delta_rows-loses route w base_rw branch_rw
