-- ===== src/Fitness/Descent.antt =====
-- The loop of effectiveLayeredCallees (internal/groundwork/fitness/layering.go) against the chains of
-- calls through functions that belong to no layer.
use verdi_go.Prelude.{
  ◌+◌, ◌≡◌, refl, sym, ap, subst, ◌∙◌, inl, inr, Bool, true, ◌&&◌, ◌||◌, not, List, [], ◌∷◌, arith,
  Bool-cases, and_true, or_true, and_both, or_left, or_right, length, bool_Eq, ◌==◌, eq_iff, nat_Eq,
  contains, list_Eq, In-contains, contains_cons, Str, Str_Eq, pair_Eq, here,
}
use verdi_go.Graph.Index.{Index, callees}
use verdi_go.Policy.Types.{Layer}
use verdi_go.Fitness.Names.{pkg_of}
use verdi_go.Fitness.Layering.{is_root_pkg, has_layer, push_all, visit}

pub contains-push_all :
    (n : Str) (ns stack : List Str)
    → contains n (push_all ns stack) ≡ (contains n ns || contains n stack)
unfolding contains
contains-push_all n [] stack = refl
contains-push_all n (m ∷ ns) stack = ground (arith, contains-push_all n ns (m ∷ stack))

pub length-push_all : (ns stack : List Str) → length (push_all ns stack) ≡ length ns + length stack
length-push_all [] stack = omega arith
length-push_all (n ∷ ns) stack = omega (arith, length-push_all ns (n ∷ stack))

module _ (layers : List Layer) (roots : List Str) (ix : Index) where
  -- Neither a layer's nor a root's function: the descent goes on.
  abbrev pub is_helper : Str → Bool
  is_helper n = not (is_root_pkg roots (pkg_of n)) && not (has_layer layers n)

  -- What a chain of calls through helpers leads to.
  pub data Leads (from : Str) : Str → Type 0 where
    at_once : {t : Str} → contains t (callees ix from) ≡ true → Leads from t
    through :
        {u t : Str}
        → Leads from u
        → is_helper u ≡ true
        → contains t (callees ix u) ≡ true
        → Leads from t

  abbrev pub lands : Str → Bool
  lands n = not (is_root_pkg roots (pkg_of n)) && has_layer layers n

  -- The loop's invariant.
  pub record Descending (from : Str) (seen landed stack : List Str) : Type 0 where
    pub reached : (n : Str) → contains n seen ≡ true → Leads from n
    pub waiting : (n : Str) → contains n stack ≡ true → Leads from n
    pub begun :
        (n : Str)
        → contains n (callees ix from) ≡ true
        → (contains n seen || contains n stack) ≡ true
    pub followed :
        (u n : Str)
        → contains u seen ≡ true
        → is_helper u ≡ true
        → contains n (callees ix u) ≡ true
        → (contains n seen || contains n stack) ≡ true
    pub landed_iff : (n : Str) → contains n landed ≡ (contains n seen && lands n)

  abbrev pub DescendingOn : Str → List Str × List Str × List Str → Type 0
  DescendingOn from d = Descending from d.0 d.1 d.2

  module _ (from n : Str) (seen landed rest : List Str)
      (v : Descending from seen landed (n ∷ rest)) where
    popped : Leads from n
    popped = v.waiting n (In-contains {a = n} {xs = n ∷ rest} here)

    Descending-old : contains n seen ≡ true → Descending from seen landed rest
    unfolding contains
    Descending-old old = record {
      reached = v.reached;
      waiting = λ m h. v.waiting m (ground arith);
      begun = λ m h. ground (arith, v.begun m h, eq_iff m n);
      followed = λ u m s k h. ground (arith, v.followed u m s k h, eq_iff m n);
      landed_iff = v.landed_iff;
    }

    Descending-new :
        (landed' rest' : List Str)
        → ((m : Str) → contains m landed' ≡ (((m == n) && lands n) || contains m landed))
        → ((m : Str)
            → contains m rest' ≡ ((is_helper n && contains m (callees ix n)) || contains m rest))
        → Descending from (n ∷ seen) landed' rest'
    unfolding contains
    Descending-new landed' rest' l r = record {
      reached = λ m h. elim (contains_cons m n seen h) [
        | inl old ↦ v.reached m old
        | inr e ↦ subst (Leads from) (sym e) popped
      ];
      waiting = λ m h. elim (or_true _ _ (sym (r m) ∙ h)) [
        | inl new ↦ let (k, c) = and_true _ _ new in through popped k c
        | inr old ↦ v.waiting m (or_right _ _ old)
      ];
      begun = λ m h. ground (arith, v.begun m h, r m);
      followed = λ u m s k h. elim (contains_cons u n seen s) [
        | inl old ↦ ground (arith, v.followed u m old k h, r m)
        | inr e ↦ or_right _ _ (
            r m
            ∙ or_left _ _ (
                and_both _ _ (subst (λ x. is_helper x ≡ true) e k)
                  (subst (λ x. contains m (callees ix x) ≡ true) e h)))
      ];
      landed_iff = λ m. elim (Bool-cases (m == n)) [
        | inl e ↦
            let q : lands m ≡ lands n = ap lands ((eq_iff m n).0 e) in
            ground (arith, l m, v.landed_iff m)
        | inr e ↦ ground (arith, l m, v.landed_iff m)
      ];
    }

    pub Descending-visit : DescendingOn from (visit layers roots ix n (seen, landed, rest))
    unfolding visit
    Descending-visit = elim (Bool-cases (contains n seen)) [
      | inl old ↦ rw old (Descending-old old)
      | inr new ↦ elim (Bool-cases (is_root_pkg roots (pkg_of n))) [
        | inl root ↦
            rw (new, root) (Descending-new landed rest (λ m. ground arith) (λ m. ground arith))
        | inr plain ↦ elim (Bool-cases (has_layer layers n)) [
          | inl layered ↦
              rw (new, plain, layered)
                (Descending-new (n ∷ landed) rest (λ m. ground arith) (λ m. ground arith))
          | inr helper ↦
              rw (new, plain, helper)
                (Descending-new landed (push_all (callees ix n) rest) (λ m. ground arith)
                  (λ m. ground (arith, contains-push_all m (callees ix n) rest)))
        ]
      ]
    ]
