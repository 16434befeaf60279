-- ===== src/Graph/Walk.antt =====
-- The breadth-first closure of internal/groundwork/graph/index.go (`walk`) finds exactly what its
-- neighbour function reaches, and its fuel is enough.
use verdi_go.Prelude.{
  ℕ, zero, suc, ◌+◌, ◌≤◌, ◌<◌, ◌≡◌, sym, ◌∙◌, ◌↔◌, ◌⊎◌, inl, inr, true, false, ◌&&◌, ◌||◌, not,
  List, [], ◌∷◌, ◌++◌, arith, if◌then◌else◌, Bool-cases, or_true, length, length-append, any,
  any-In, not-In_nil, ◌==◌, eq_iff, eq_self, nat_Eq, bool_Eq, contains, list_Eq, contains-In,
  In-contains, contains_cons, contains-append, Str, Str_Eq, contains-sorted_keys, pair_Eq, here,
  there,
}
use verdi_go.Graph.Index.{Index, enqueue, enqueue_seeds, walk_loop, walk}

-- `t` is reached from `s` by one or more steps.
pub data Reaches (next : Str → List Str) (s : Str) : Str → Type 0 where
  one : {t : Str} → contains t (next s) ≡ true → Reaches next s t
  onward : {t u : Str} → Reaches next s u → contains t (next u) ≡ true → Reaches next s t

-- How many entries of `universe` have not been seen.
pub unseen : List Str → List Str → ℕ
unseen seen [] = 0
unseen seen (u ∷ us) = (if contains u seen then 0 else 1) + unseen seen us

pub unseen-le : (seen us : List Str) → unseen seen us ≤ length us
unfolding unseen
unseen-le seen [] = omega arith
unseen-le seen (u ∷ us) = ground (arith, unseen-le seen us)

unseen_mono : (t : Str) (seen us : List Str) → unseen (t ∷ seen) us ≤ unseen seen us
unfolding unseen contains
unseen_mono t seen [] = omega arith
unseen_mono t seen (u ∷ us) = ground (arith, unseen_mono t seen us)

pub unseen-cons :
    (t : Str) (seen us : List Str)
    → contains t us ≡ true
    → contains t seen ≡ false
    → unseen (t ∷ seen) us + 1 ≤ unseen seen us
unfolding unseen contains
unseen-cons t seen [] m n = cc
unseen-cons t seen (u ∷ us) m n = elim (Bool-cases (t == u)) [
  | inl p ↦ ground (arith, eq_iff t u, eq_self t, unseen_mono t seen us)
  | inr p ↦ ground (arith, unseen-cons t seen us, eq_iff t u, eq_iff u t)
]

-- Every listed string is in `universe`.
abbrev pub Within : List Str → List Str → Type 0
Within universe ts = (t : Str) → contains t ts ≡ true → contains t universe ≡ true

pub Within-tail :
    (universe : List Str) (t : Str) (ts : List Str) → Within universe (t ∷ ts) → Within universe ts
unfolding contains
Within-tail universe t ts h a m = h a (ground arith)

enqueue-seen :
    (ts seen queue : List Str) (a : Str)
    → contains a (enqueue ts seen queue).0 ≡ (contains a seen || contains a ts)
unfolding enqueue
enqueue-seen [] seen queue a = ground arith
enqueue-seen (t ∷ ts) seen queue a = ground (
  arith,
  enqueue-seen ts seen queue a,
  enqueue-seen ts (t ∷ seen) (queue ++ t ∷ []) a,
  eq_iff a t,
)

enqueue-queue :
    (ts seen queue : List Str) (a : Str)
    → contains a (enqueue ts seen queue).1
      ≡ (contains a queue || (contains a ts && not (contains a seen)))
unfolding enqueue
enqueue-queue [] seen queue a = ground arith
enqueue-queue (t ∷ ts) seen queue a = ground (
  arith,
  enqueue-queue ts seen queue a,
  enqueue-queue ts (t ∷ seen) (queue ++ t ∷ []) a,
  contains-append a queue (t ∷ []),
  eq_iff a t,
)

enqueue-measure :
    (universe ts seen queue : List Str)
    → Within universe ts
    → unseen (enqueue ts seen queue).0 universe + length (enqueue ts seen queue).1
      ≤ unseen seen universe + length queue
unfolding enqueue
enqueue-measure universe [] seen queue h = omega arith
enqueue-measure universe (t ∷ ts) seen queue h = elim (Bool-cases (contains t seen)) [
  | inl p ↦ rw p (enqueue-measure universe ts seen queue (Within-tail universe t ts h))
  | inr p ↦ rw p (
      omega (
        arith,
        enqueue-measure universe ts (t ∷ seen) (queue ++ t ∷ []) (Within-tail universe t ts h),
        unseen-cons t seen universe (h t (In-contains {a = t} {xs = t ∷ ts} here)) p,
        length-append queue (t ∷ []),
      ))
]

-- Some seed reaches `t`.
abbrev pub Found : (Str → List Str) → List Str → Str → Type 0
Found next seeds t = (s : Str) × (contains s seeds ≡ true) × Reaches next s t

module _ (next : Str → List Str) (universe seeds : List Str) where
  -- The loop's invariant: what has been seen is reached, and all that is one step from a seed, or
  -- from a function that has left the queue, has been seen.
  record Walking (seen queue : List Str) : Type 0 where
    found : (t : Str) → contains t seen ≡ true → Found next seeds t
    queued : (u : Str) → contains u queue ≡ true → contains u seen ≡ true
    done :
        (u t : Str)
        → contains u seen ≡ true
        → contains t (next u) ≡ true
        → (contains u queue ≡ true) ⊎ (contains t seen ≡ true)

  Walking-enqueue :
      (source : Str) (seen queue rest : List Str)
      → ((t : Str) → contains t (next source) ≡ true → Found next seeds t)
      → ((u : Str) → contains u rest ≡ true → contains u queue ≡ true)
      → ((u : Str) → contains u queue ≡ true → (contains u rest ≡ true) ⊎ (u ≡ source))
      → Walking seen queue
      → Walking (enqueue (next source) seen rest).0 (enqueue (next source) seen rest).1
  Walking-enqueue source seen queue rest reached kept left w = record {
    found = λ t h. elim (or_true _ _ (rw (enqueue-seen (next source) seen rest t) at h)) [
      | inl old ↦ w.found t old
      | inr new ↦ reached t new
    ];
    queued = λ u h. ground (
      arith,
      enqueue-seen (next source) seen rest u,
      enqueue-queue (next source) seen rest u,
      kept u,
      w.queued u,
    );
    done = λ u t h m. ground (
      arith,
      enqueue-seen (next source) seen rest u,
      enqueue-seen (next source) seen rest t,
      enqueue-queue (next source) seen rest u,
      w.done u t,
      left u,
    );
  }

  Walking-loop :
      ((s : Str) → Within universe (next s))
      → (fuel : ℕ) (seen queue : List Str) → unseen seen universe + length queue < fuel
      → Walking seen queue
      → Walking (walk_loop next fuel seen queue) []
  unfolding walk_loop
  Walking-loop within zero seen queue h w = elim h [ ]
  Walking-loop within (suc fuel) seen [] h w = w
  Walking-loop within (suc fuel) seen (cur ∷ queue) h w =
      Walking-loop within fuel (enqueue (next cur) seen queue).0 (enqueue (next cur) seen queue).1
        (omega (arith, enqueue-measure universe (next cur) seen queue (within cur)))
        (Walking-enqueue cur seen (cur ∷ queue) queue (from_cur w) kept left w)
    where
      from_cur :
          Walking seen (cur ∷ queue) → (t : Str) → contains t (next cur) ≡ true → Found next seeds t
      from_cur w t m =
          let (s, m', r) =
            w.found cur (w.queued cur (In-contains {a = cur} {xs = cur ∷ queue} here)) in
          (s, m', onward r m)

      kept : (u : Str) → contains u queue ≡ true → contains u (cur ∷ queue) ≡ true
      kept u m = In-contains (there (contains-In u queue m))

      left : (u : Str) → contains u (cur ∷ queue) ≡ true → (contains u queue ≡ true) ⊎ (u ≡ cur)
      left u m = contains_cons u cur queue m

  Walking-seeds :
      (some_seeds seen queue : List Str)
      → ((s : Str) → contains s some_seeds ≡ true → contains s seeds ≡ true)
      → Walking seen queue
      → Walking
          (enqueue_seeds next some_seeds seen queue).0
          (enqueue_seeds next some_seeds seen queue).1
  unfolding enqueue_seeds
  Walking-seeds [] seen queue h w = w
  Walking-seeds (s ∷ rest) seen queue h w =
      Walking-seeds rest (enqueue (next s) seen queue).0 (enqueue (next s) seen queue).1
        (λ a m. h a (In-contains (there (contains-In a rest m))))
        (Walking-enqueue s seen queue queue
          (λ t m. (s, h s (In-contains {a = s} {xs = s ∷ rest} here), one m)) (λ u m. m)
          (λ u m. inl m) w)

  seeds-measure :
      ((s : Str) → Within universe (next s))
      → (some_seeds seen queue : List Str)
      → unseen (enqueue_seeds next some_seeds seen queue).0 universe
          + length (enqueue_seeds next some_seeds seen queue).1
        ≤ unseen seen universe + length queue
  unfolding enqueue_seeds
  seeds-measure within [] seen queue = omega arith
  seeds-measure within (s ∷ rest) seen queue = omega (
    arith,
    enqueue-measure universe (next s) seen queue (within s),
    seeds-measure within rest (enqueue (next s) seen queue).0 (enqueue (next s) seen queue).1,
  )

module _ (next : Str → List Str) where
  seeds-seen :
      (seeds seen queue : List Str) (a : Str)
      → contains a (enqueue_seeds next seeds seen queue).0
        ≡ (contains a seen || any (λ s. contains a (next s)) seeds)
  unfolding enqueue_seeds
  seeds-seen [] seen queue a = ground arith
  seeds-seen (s ∷ rest) seen queue a = ground (
    arith,
    seeds-seen rest (enqueue (next s) seen queue).0 (enqueue (next s) seen queue).1 a,
    enqueue-seen (next s) seen queue a,
  )

  -- The loop forgets nothing.
  loop-grows :
      (fuel : ℕ) (seen queue : List Str) (a : Str)
      → contains a seen ≡ true
      → contains a (walk_loop next fuel seen queue) ≡ true
  unfolding walk_loop
  loop-grows zero seen queue a h = h
  loop-grows (suc fuel) seen [] a h = h
  loop-grows (suc fuel) seen (cur ∷ queue) a h =
      loop-grows fuel (enqueue (next cur) seen queue).0 (enqueue (next cur) seen queue).1 a
        (ground (arith, enqueue-seen (next cur) seen queue a))

module _ (next : Str → List Str) (ix : Index) (universe : List Str) where
  module _ (bounded : length universe ≤ length ix.g.edges)
      (within : (s : Str) → Within universe (next s)) where
    abbrev final : List Str → List Str
    final seeds =
        let (seen, queue) = enqueue_seeds next seeds [] [] in
        walk_loop next (suc (length ix.g.edges)) seen queue

    Walking-final : (seeds : List Str) → Walking next universe seeds (final seeds) []
    Walking-final seeds =
        Walking-loop next universe seeds within (suc (length ix.g.edges))
          (enqueue_seeds next seeds [] []).0 (enqueue_seeds next seeds [] []).1
          (omega
            (arith, seeds-measure next universe seeds within seeds [] [], unseen-le [] universe))
          (Walking-seeds next universe seeds seeds [] [] (λ s m. m) empty)
      where
        nothing : (u : Str) → contains u [] ≡ true → ⊥
        nothing u h = not-In_nil (contains-In u [] h)

        empty : Walking next universe seeds [] []
        empty = record {
          found = λ t h. absurd (nothing t h);
          queued = λ u h. h;
          done = λ u t h m. inl h;
        }

    seen_all :
        (seeds : List Str) {s t : Str}
        → contains s seeds ≡ true
        → Reaches next s t
        → contains t (final seeds) ≡ true
    seen_all seeds {s} {t} m (one h) =
        loop-grows next (suc (length ix.g.edges)) (enqueue_seeds next seeds [] []).0
          (enqueue_seeds next seeds [] []).1 t (seeds-seen next seeds [] [] t ∙ any_seed)
      where
        any_seed : (contains t [] || any (λ x. contains t (next x)) seeds) ≡ true
        any_seed = ground (arith, any-In (λ x. contains t (next x)) (contains-In s seeds m) h)
    seen_all seeds {s} {t} m (onward {u} r h) =
        elim ((Walking-final seeds).done u t (seen_all seeds m r) h) [
          | inl queued ↦ absurd (not-In_nil (contains-In u [] queued))
          | inr seen ↦ seen
        ]

    -- The walk returns exactly what some seed reaches by one or more steps.
    pub walk_iff :
        (seeds : List Str) (t : Str) → (contains t (walk next ix seeds) ≡ true) ↔ Found next seeds t
    unfolding walk
    walk_iff seeds t = (
      λ h. (Walking-final seeds).found t (sym (contains-sorted_keys t (final seeds)) ∙ h),
      λ f. contains-sorted_keys t (final seeds) ∙ seen_all seeds f.1 f.2,
    )
