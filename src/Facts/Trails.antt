-- ===== src/Facts/Trails.antt =====
-- The level-by-level search ends, within its fuel, with a parent map of exactly the functions that
-- trails of unblocked steps lead to; and the paths read back from it are chains of such steps.
use verdi_go.Prelude.{
  ℕ, zero, suc, ◌+◌, ◌≤◌, ◌<◌, ◌≡◌, refl, sym, ap, subst, ◌∙◌, ◌↔◌, inl, inr, Bool, true, false,
  ◌&&◌, ◌||◌, not, some, List, [], ◌∷◌, arith, Bool-cases, true_ne_false, or_left, length,
  not-In_nil, ◌==◌, eq_iff, eq_self, nat_Eq, bool_Eq, contains, list_Eq, contains-In, In-contains,
  contains_cons, contains_nil, Str, Str_Eq, pair_Eq, lookup, keys, here, there,
}
use verdi_go.Graph.Walk.{unseen, unseen-le, Within}
use verdi_go.Facts.Traversal.{
  ParentMap, offer_callees, level_from, next_level, levels, parent_of, path_onto, reconstruct_path,
}
use verdi_go.Facts.Tree
use verdi_go.Facts.Tree.{Step, Trail, stay, go, Chain, stop, hop, IsTree, root, grown, Searching}

lookup-head : (t f : Str) (m : ParentMap) → lookup t ((t, f) ∷ m) ≡ some f
unfolding lookup
lookup-head t f m = rw (eq_self t) refl

lookup-below :
    (a t f : Str) (m : ParentMap)
    → contains t (keys m) ≡ false
    → contains a (keys m) ≡ true
    → lookup a ((t, f) ∷ m) ≡ lookup a m
unfolding lookup
lookup-below a t f m fresh k = elim (Bool-cases (t == a)) [
  | inl p ↦
      absurd
        (true_ne_false (sym k ∙ ap (λ x. contains x (keys m)) (sym ((eq_iff t a).0 p)) ∙ fresh))
  | inr p ↦ rw p refl
]

parent_of-some : (c f : Str) (big : ParentMap) → lookup c big ≡ some f → parent_of c big ≡ f
parent_of-some c f big h = rw (h, parent_of) refl

module _ (blocked : Str → Bool) (callees : Str → List Str) where
  Searching-offer :
      {source : Str} (from : Str) (rest : List Str) (parent : ParentMap) (next : List Str)
      → Searching blocked callees source parent (from ∷ rest) next
      → Searching blocked callees source
          (offer_callees blocked from (callees from) parent next).0
          rest
          (offer_callees blocked from (callees from) parent next).1
  Searching-offer from rest parent next s = record {
    tree =
        Tree.offer-IsTree blocked callees from (callees from) parent next (λ a h. h)
          (s.listed from (In-contains {a = from} {xs = from ∷ rest} here)) s.tree;
    listed = λ u h.
        ground
          (arith, keys_of u, s.listed u (In-contains (there {x = from} (contains-In u rest h))));
    entered = λ u h. ground (arith, keys_of u, next_of u, s.entered u);
    closed = λ u t h m free.
        ground (arith, keys_of u, keys_of t, next_of u, s.closed u t, contains_cons u from rest);
  }
    where
      keys_of :
          (a : Str)
          → contains a (keys (offer_callees blocked from (callees from) parent next).0)
            ≡ (contains a (keys parent) || (contains a (callees from) && not (blocked a)))
      keys_of a = Tree.offer-keys blocked callees from (callees from) parent next a

      next_of :
          (a : Str)
          → contains a (offer_callees blocked from (callees from) parent next).1 ≡ (
              contains a next
              || (contains a (callees from) && not (blocked a) && not (contains a (keys parent))))
      next_of a = Tree.offer-next blocked callees from (callees from) parent next a

  Searching-level_from :
      {source : Str} (current : List Str) (parent : ParentMap) (next : List Str)
      → Searching blocked callees source parent current next
      → Searching blocked callees source
          (level_from blocked callees current parent next).0
          []
          (level_from blocked callees current parent next).1
  unfolding level_from
  Searching-level_from [] parent next s = s
  Searching-level_from (from ∷ rest) parent next s =
      Searching-level_from rest (offer_callees blocked from (callees from) parent next).0
        (offer_callees blocked from (callees from) parent next).1
        (Searching-offer from rest parent next s)

  level-measure :
      (universe : List Str) (current : List Str) (parent : ParentMap) (next : List Str)
      → ((u : Str) → Within universe (callees u))
      → unseen (keys (level_from blocked callees current parent next).0) universe
          + length (level_from blocked callees current parent next).1
        ≤ unseen (keys parent) universe + length next
  unfolding level_from
  level-measure universe [] parent next within = omega arith
  level-measure universe (from ∷ rest) parent next within = omega (
    arith,
    Tree.offer-measure blocked callees universe from (callees from) parent next (within from),
    level-measure universe rest (offer_callees blocked from (callees from) parent next).0
        (offer_callees blocked from (callees from) parent next).1 within,
  )

  -- The functions entered by one level are the next level's.
  Searching-turn :
      {source : Str} {parent : ParentMap} {next : List Str}
      → Searching blocked callees source parent [] next
      → Searching blocked callees source parent next []
  Searching-turn s = record {
    tree = s.tree;
    listed = s.entered;
    entered = s.listed;
    closed = λ u t h m free. ground (arith, s.closed u t h m free);
  }

  levels-Searching :
      {source : Str} (universe : List Str)
      → ((u : Str) → Within universe (callees u))
      → (fuel : ℕ) (parent : ParentMap) (current : List Str)
      → unseen (keys parent) universe + length current < fuel
      → Searching blocked callees source parent current []
      → Searching blocked callees source (levels blocked callees fuel parent current) [] []
  unfolding levels next_level
  levels-Searching universe within zero parent current h s = elim h [ ]
  levels-Searching universe within (suc fuel) parent [] h s = s
  levels-Searching universe within (suc fuel) parent (c ∷ current) h s =
      levels-Searching universe within fuel (level_from blocked callees (c ∷ current) parent []).0
        (level_from blocked callees (c ∷ current) parent []).1
        (omega (arith, level-measure universe (c ∷ current) parent [] within))
        (Searching-turn (Searching-level_from (c ∷ current) parent [] s))

  IsTree-Trail :
      {source : Str} {m : ParentMap} (t : Str)
      → IsTree blocked callees source m
      → contains t (keys m) ≡ true
      → Trail blocked callees source t
  IsTree-Trail {source} t root h = elim (contains_cons t source [] h) [
    | inl none_left ↦ absurd (not-In_nil (contains-In t [] none_left))
    | inr same ↦ rw same stay
  ]
  IsTree-Trail t (grown {t = t'} {f} {m} tree fresh old step) h =
      elim (contains_cons t t' (keys m) h) [
        | inl earlier ↦ IsTree-Trail t tree earlier
        | inr same ↦ rw same (go (IsTree-Trail f tree old) step)
      ]

  IsTree-source :
      {source : Str} {m : ParentMap}
      → IsTree blocked callees source m
      → contains source (keys m) ≡ true
  IsTree-source {source} root = In-contains {a = source} {xs = source ∷ []} here
  IsTree-source {source} (grown {t} {f} {m} tree fresh old step) =
      In-contains (there {x = t} (contains-In source (keys m) (IsTree-source tree)))

  closed-Trail :
      {source t : Str} {m : ParentMap}
      → Searching blocked callees source m [] []
      → Trail blocked callees source t
      → contains t (keys m) ≡ true
  closed-Trail s stay = IsTree-source s.tree
  closed-Trail {m} s (go {t} {u} trail step) =
      elim (s.closed u t (closed-Trail s trail) step.callee step.open_to) [
        | inl known ↦ known
        | inr waiting ↦ cc (waiting, contains_nil u)
      ]

  -- Reading the parents back from `c` gives the steps from the source to `c`, in front of a chain that
  -- starts at `c`.
  path_onto-Chain :
      {source target : Str} {m : ParentMap}
      → IsTree blocked callees source m
      → (big : ParentMap) (fuel : ℕ) (c : Str) (path : List Str)
      → ((a : Str) → contains a (keys m) ≡ true → lookup a big ≡ lookup a m)
      → length m ≤ fuel
      → contains c (keys m) ≡ true
      → Chain blocked callees target c (c ∷ path)
      → Chain blocked callees target source (path_onto fuel big source c path)
  unfolding path_onto
  path_onto-Chain root big zero c path agree le h chain = absurd (omega arith)
  path_onto-Chain {source} {target} root big (suc fuel) c path agree le h chain =
      elim (contains_cons c source [] h) [
        | inl none_left ↦ absurd (not-In_nil (contains-In c [] none_left))
        | inr same ↦
            rw ((eq_iff c source).1 same)
              (subst (λ x. Chain blocked callees target x (c ∷ path)) same chain)
      ]
  path_onto-Chain (grown tree fresh old step) big zero c path agree le h chain =
      absurd (omega arith)
  path_onto-Chain {source} {target} (grown {t} {f} {m} tree fresh old step) big (suc fuel) c path
        agree le h chain =
      elim (contains_cons c t (keys m) h) [
        | inl earlier ↦
            path_onto-Chain tree big (suc fuel) c path within_m (omega arith) earlier chain
        | inr same ↦ elim (Bool-cases (c == source)) [
          | inl at_source ↦ rw at_source (
              subst (λ x. Chain blocked callees target x (c ∷ path)) ((eq_iff c source).0 at_source)
                chain)
          | inr above ↦
              rw (above, parent_is same)
                (path_onto-Chain tree big fuel f (c ∷ path) within_m (omega arith) old
                  (hop (rw same step) chain))
        ]
      ]
    where
      within_m : (a : Str) → contains a (keys m) ≡ true → lookup a big ≡ lookup a m
      within_m a k =
          agree a (In-contains (there {x = t} (contains-In a (keys m) k)))
          ∙ lookup-below a t f m fresh k

      parent_is : c ≡ t → parent_of c big ≡ f
      parent_is same =
          parent_of-some c f big
            (agree c h ∙ ap (λ x. lookup x ((t, f) ∷ m)) same ∙ lookup-head t f m)

  reconstruct_path-Chain :
      {source : Str} {m : ParentMap} (t : Str)
      → IsTree blocked callees source m
      → contains t (keys m) ≡ true
      → Chain blocked callees t source (reconstruct_path m source t)
  unfolding reconstruct_path
  reconstruct_path-Chain {m} t tree h =
      path_onto-Chain tree m (length m) t [] (λ a k. refl) (omega arith) h stop

  -- The whole search, from a source's own entry, with a universe that holds every callee.
  module _ (universe : List Str) (within : (u : Str) → Within universe (callees u)) (source : Str)
      (fuel : ℕ) where
    module _ (enough : length universe + 1 < fuel) where
      search :
          Searching blocked callees source
            (levels blocked callees fuel ((source, []) ∷ []) (source ∷ []))
            []
            []
      search =
          levels-Searching universe within fuel ((source, []) ∷ []) (source ∷ [])
            (omega (arith, unseen-le (source ∷ []) universe))
            (record {
              tree = root;
              listed = λ u h. h;
              entered = λ u h. cc (h, contains_nil u);
              closed = λ u t h m free. inr (or_left _ _ h);
            })

      -- The parent map holds exactly the functions that a trail leads to.
      pub keys-levels :
          (t : Str)
          → (contains t (keys (levels blocked callees fuel ((source, []) ∷ []) (source ∷ [])))
              ≡ true)
            ↔ Trail blocked callees source t
      keys-levels t = (IsTree-Trail t search.tree, closed-Trail search)

      -- Each path read back from it is a chain of steps from the source to the function asked for.
      pub reconstruct_path-levels :
          (t : Str)
          → Trail blocked callees source t
          → Chain blocked callees t source (
              reconstruct_path
                (levels blocked callees fuel ((source, []) ∷ []) (source ∷ []))
                source
                t)
      reconstruct_path-levels t trail =
          reconstruct_path-Chain t search.tree (closed-Trail search trail)
