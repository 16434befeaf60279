-- ===== src/Facts/Tree.antt =====
-- The parent map of a search is a tree that holds exactly what unblocked steps lead to, and its paths can
-- be read back (nextLevel, GuardedWalk and reconstructPath of internal/groundwork/facts).
use verdi_go.Prelude.{
  ◌+◌, ◌≤◌, ◌≡◌, ◌⊎◌, inl, inr, Bool, true, false, ◌&&◌, ◌||◌, not, List, [], ◌∷◌, ◌++◌, arith,
  Bool-cases, or_false, length, length-append, eq_iff, nat_Eq, bool_Eq, contains, list_Eq,
  contains-In, In-contains, contains-append, Str, Str_Eq, pair_Eq, keys, here, there,
}
use verdi_go.Graph.Walk.{unseen, unseen-cons, Within, Within-tail}
use verdi_go.Facts.Traversal.{ParentMap, offer_callees}

module _ (blocked : Str → Bool) (callees : Str → List Str) where
  -- A step that the search may take.
  pub record Step (f t : Str) : Type 0 where
    pub callee : contains t (callees f) ≡ true
    pub open_to : blocked t ≡ false

  -- Any number of steps.
  pub data Trail (s : Str) : Str → Type 0 where
    stay : Trail s s
    go : {t u : Str} → Trail s u → Step u t → Trail s t

  -- A list of functions, each a step from the one before.
  pub data Chain (t : Str) : Str → List Str → Type 0 where
    stop : Chain t t (t ∷ [])
    hop : {s u : Str} {path : List Str} → Step s u → Chain t u path → Chain t s (s ∷ path)

  -- A parent map in which each entry was added for a new function, one step from a function that was
  -- there already.
  pub data IsTree (source : Str) : ParentMap → Type 0 where
    root : {f : Str} → IsTree source ((source, f) ∷ [])
    grown :
        {t f : Str} {m : ParentMap}
        → IsTree source m
        → contains t (keys m) ≡ false
        → contains f (keys m) ≡ true
        → Step f t
        → IsTree source ((t, f) ∷ m)

  pub offer-keys :
      (from : Str) (tos : List Str) (parent : ParentMap) (next : List Str) (a : Str)
      → contains a (keys (offer_callees blocked from tos parent next).0)
        ≡ (contains a (keys parent) || (contains a tos && not (blocked a)))
  unfolding offer_callees
  offer-keys from [] parent next a = ground arith
  offer-keys from (to ∷ tos) parent next a = ground (
    arith,
    eq_iff a to,
    offer-keys from tos parent next a,
    offer-keys from tos ((to, from) ∷ parent) (next ++ to ∷ []) a,
  )

  pub offer-next :
      (from : Str) (tos : List Str) (parent : ParentMap) (next : List Str) (a : Str)
      → contains a (offer_callees blocked from tos parent next).1
        ≡ (contains a next || (contains a tos && not (blocked a) && not (contains a (keys parent))))
  unfolding offer_callees
  offer-next from [] parent next a = ground arith
  offer-next from (to ∷ tos) parent next a = ground (
    arith,
    eq_iff a to,
    contains-append a next (to ∷ []),
    offer-next from tos parent next a,
    offer-next from tos ((to, from) ∷ parent) (next ++ to ∷ []) a,
  )

  pub offer-measure :
      (universe : List Str) (from : Str) (tos : List Str) (parent : ParentMap) (next : List Str)
      → Within universe tos
      → unseen (keys (offer_callees blocked from tos parent next).0) universe
          + length (offer_callees blocked from tos parent next).1
        ≤ unseen (keys parent) universe + length next
  unfolding offer_callees
  offer-measure universe from [] parent next h = omega arith
  offer-measure universe from (to ∷ tos) parent next h =
      elim (Bool-cases (contains to (keys parent) || blocked to)) [
        | inl p ↦ rw p (offer-measure universe from tos parent next (Within-tail universe to tos h))
        | inr p ↦ rw p (
            omega (
              arith,
              offer-measure universe from tos ((to, from) ∷ parent) (next ++ to ∷ [])
                  (Within-tail universe to tos h),
              unseen-cons to (keys parent) universe
                  (h to (In-contains {a = to} {xs = to ∷ tos} here)) (or_false _ _ p).0,
              length-append next (to ∷ []),
            ))
      ]

  pub offer-IsTree :
      {source : Str} (from : Str) (tos : List Str) (parent : ParentMap) (next : List Str)
      → ((a : Str) → contains a tos ≡ true → contains a (callees from) ≡ true)
      → contains from (keys parent) ≡ true
      → IsTree source parent
      → IsTree source (offer_callees blocked from tos parent next).0
  unfolding offer_callees
  offer-IsTree from [] parent next h m t = t
  offer-IsTree from (to ∷ tos) parent next h m t =
      elim (Bool-cases (contains to (keys parent) || blocked to)) [
        | inl p ↦ rw p (offer-IsTree from tos parent next (λ a k. h a (later a k)) m t)
        | inr p ↦
            let (fresh, free) = or_false _ _ p in
            rw p (
              offer-IsTree from tos ((to, from) ∷ parent) (next ++ to ∷ []) (λ a k. h a (later a k))
                (In-contains (there {x = to} (contains-In from (keys parent) m)))
                (grown t fresh m (record {
                  callee = h to (In-contains {a = to} {xs = to ∷ tos} here);
                  open_to = free;
                })))
      ]
    where
      later : (a : Str) → contains a tos ≡ true → contains a (to ∷ tos) ≡ true
      later a k = In-contains (there (contains-In a tos k))

  -- What the loop keeps: `current` are the functions of this level that are still to be expanded, `next`
  -- those of the level after it.
  pub record Searching (source : Str) (parent : ParentMap) (current next : List Str) : Type 0 where
    pub tree : IsTree source parent
    pub listed : (u : Str) → contains u current ≡ true → contains u (keys parent) ≡ true
    pub entered : (u : Str) → contains u next ≡ true → contains u (keys parent) ≡ true
    pub closed :
        (u t : Str)
        → contains u (keys parent) ≡ true
        → contains t (callees u) ≡ true
        → blocked t ≡ false
        → (contains t (keys parent) ≡ true) ⊎ ((contains u current || contains u next) ≡ true)
