-- ===== src/Fitness/DescentBound.antt =====
-- The fuel of effectiveLayeredCallees (internal/groundwork/fitness/layering.go) is enough, and what it
-- returns.
use verdi_go.Prelude.{
  ℕ, zero, suc, ◌+◌, ◌≤◌, ◌<◌, ◌≡◌, sym, ◌∙◌, ◌↔◌, inl, inr, Bool, true, false, List, [], ◌∷◌,
  arith, if◌then◌else◌, Bool-cases, and_true, true_ne_false, and_both, length, bool_Eq, ◌==◌,
  eq_iff, nat_Eq, contains, list_Eq, contains_nil, Str, Str_Eq, contains-sorted_keys, pair_Eq,
  at_key, at_key-nil, at_key-cons,
}
use verdi_go.Graph.Index.{Index, callees}
use verdi_go.Policy.Types.{Layer}
use verdi_go.Fitness.Names.{pkg_of}
use verdi_go.Fitness.Layering.{
  is_root_pkg, has_layer, push_all, total_length, visit, descend, effective_layered_callees,
}
use verdi_go.Fitness.Descent
use verdi_go.Fitness.Descent.{
  at_once, through, Descending-visit, contains-push_all, length-push_all,
}

module _ (layers : List Layer) (roots : List Str) (ix : Index) where
  abbrev Leads : Str → Str → Type 0
  Leads = Descent.Leads layers roots ix

  abbrev lands : Str → Bool
  lands = Descent.lands layers roots ix

  abbrev Descending : Str → List Str → List Str → List Str → Type 0
  Descending = Descent.Descending layers roots ix

  -- The callees still to be pushed, of functions that have not been seen.
  remaining : List Str → List (Str × List Str) → ℕ
  remaining seen [] = 0
  remaining seen ((k, vs) ∷ m) = (if contains k seen then 0 else length vs) + remaining seen m

  remaining_mono :
      (n : Str) (seen : List Str) (m : List (Str × List Str))
      → remaining (n ∷ seen) m ≤ remaining seen m
  unfolding remaining contains
  remaining_mono n seen [] = omega arith
  remaining_mono n seen ((k, vs) ∷ m) = ground (arith, remaining_mono n seen m)

  remaining-le : (seen : List Str) (m : List (Str × List Str)) → remaining seen m ≤ total_length m
  unfolding remaining
  remaining-le seen [] = omega arith
  remaining-le seen ((k, vs) ∷ m) = ground (arith, remaining-le seen m)

  remaining-cons :
      (n : Str) (seen : List Str) (m : List (Str × List Str))
      → contains n seen ≡ false
      → remaining (n ∷ seen) m + length (at_key n m) ≤ remaining seen m
  unfolding remaining contains
  remaining-cons n seen [] h = rw at_key-nil (omega arith)
  remaining-cons n seen ((k, vs) ∷ m) h = elim (Bool-cases (k == n)) [
    | inl e ↦
        let s : k ≡ n = (eq_iff k n).0 e in
        ground (arith, at_key-cons n k vs m, remaining_mono n seen m, eq_iff k n)
    | inr e ↦ ground (arith, at_key-cons n k vs m, remaining-cons n seen m, eq_iff k n)
  ]

  abbrev load : List Str × List Str × List Str → ℕ
  load d = length d.2 + remaining d.0 ix.callees

  pushed-load :
      (n : Str) (seen rest : List Str)
      → contains n seen ≡ false
      → length (push_all (callees ix n) rest) + remaining (n ∷ seen) ix.callees
        ≤ length rest + remaining seen ix.callees
  unfolding callees
  pushed-load n seen rest new =
      omega (arith, length-push_all (callees ix n) rest, remaining-cons n seen ix.callees new)

  visit-load :
      (n : Str) (seen landed rest : List Str)
      → load (visit layers roots ix n (seen, landed, rest)) ≤ load (seen, landed, rest)
  unfolding visit
  visit-load n seen landed rest = elim (Bool-cases (contains n seen)) [
    | inl old ↦ rw old (omega arith)
    | inr new ↦ elim (Bool-cases (is_root_pkg roots (pkg_of n))) [
      | inl root ↦ rw (new, root) (omega (arith, remaining_mono n seen ix.callees))
      | inr plain ↦ elim (Bool-cases (has_layer layers n)) [
        | inl layered ↦ rw (new, plain, layered) (omega (arith, remaining_mono n seen ix.callees))
        | inr helper ↦ rw (new, plain, helper) (pushed-load n seen rest new)
      ]
    ]
  ]

  all_seen :
      {from t : Str} {seen landed : List Str}
      → Leads from t
      → Descending from seen landed []
      → contains t seen ≡ true
  unfolding contains
  all_seen {t = t} (at_once c) v = ground (arith, v.begun t c)
  all_seen {t = t} (through {u} r k c) v = ground (arith, v.followed u t (all_seen r v) k c)

  Descending-loop :
      (from : Str) (fuel : ℕ) (seen landed stack : List Str)
      → load (seen, landed, stack) < fuel
      → Descending from seen landed stack
      → (t : Str)
      → (contains t (descend layers roots ix fuel (seen, landed, stack)) ≡ true)
        ↔ (Leads from t × (lands t ≡ true))
  unfolding descend
  Descending-loop from zero seen landed stack h v t = elim h [ ]
  Descending-loop from (suc fuel) seen landed [] h v t = (
    λ k. let (s, l) = and_true _ _ (sym (v.landed_iff t) ∙ k) in (v.reached t s, l),
    λ (r, l). v.landed_iff t ∙ and_both _ _ (all_seen r v) l,
  )
  Descending-loop from (suc fuel) seen landed (n ∷ rest) h v t =
      Descending-loop from fuel (visit layers roots ix n (seen, landed, rest)).0
        (visit layers roots ix n (seen, landed, rest)).1
        (visit layers roots ix n (seen, landed, rest)).2
        (omega (arith, visit-load n seen landed rest))
        (Descending-visit layers roots ix from n seen landed rest v) t

  -- The effective layered callees of a function are exactly the functions of a layer, outside the roots, that it
  -- calls itself or through a chain of functions that belong to no layer and to no root; the fuel is enough.
  pub effective_layered_callees_iff :
      (from t : Str)
      → (contains t (effective_layered_callees layers roots ix from) ≡ true)
        ↔ (Leads from t × (lands t ≡ true))
  unfolding effective_layered_callees
  effective_layered_callees_iff from t =
      let stack = push_all (callees ix from) [] in
      let fuel = suc (length (callees ix from) + total_length ix.callees) in
      let loop =
        Descending-loop from fuel [] [] stack
          (omega (arith, length-push_all (callees ix from) [], remaining-le [] ix.callees)) start
          t in
      let same = contains-sorted_keys t (descend layers roots ix fuel ([], [], stack)) in
      (λ h. loop.0 (sym same ∙ h), λ k. same ∙ loop.1 k)
    where
      start : Descending from [] [] (push_all (callees ix from) [])
      start = record {
        reached = λ n h. absurd (true_ne_false (sym h ∙ contains_nil n));
        waiting = λ n h.
            at_once (ground (arith, contains-push_all n (callees ix from) [], contains_nil n));
        begun = λ n h. ground (arith, contains-push_all n (callees ix from) [], contains_nil n);
        followed = λ u n h k c. absurd (true_ne_false (sym h ∙ contains_nil u));
        landed_iff = λ n. ground (arith, contains_nil n);
      }
