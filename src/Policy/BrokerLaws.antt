-- ===== src/Policy/BrokerLaws.antt =====
-- What MergeBrokers of internal/groundwork/policy/policy.go reports.
use verdi_go.Prelude.{
  ◌≡◌, refl, sym, ap, subst, ◌∙◌, ◌≢◌, ◌↔◌, ◌⊎◌, inl, inr, true, false, Option, none, some, List,
  [], ◌∷◌, ◌++◌, arith, Bool-cases, true_ne_false, In, not-In_nil, flat_map, In-cases, bool_Eq,
  ◌==◌, eq_iff, nat_Eq, contains, list_Eq, contains_cons, contains_nil, Str, Str_Eq,
  contains-sorted_keys, pair_Eq, lookup, put, lookup-put, here, there,
}
use verdi_go.Policy.Types.{Broker}
use verdi_go.Policy.Brokers.{
  broker_eq_iff, Broker_Eq, Merge, conflicts_with, merge_one, merge_service, merge_services,
  merge_brokers,
}

abbrev pub declarations : List (List (Str × Broker)) → List (Str × Broker)
declarations per_service = flat_map (λ brokers. brokers) per_service

-- Two declarations of one name that say different things.
pub record Conflict (declared : List (Str × Broker)) (name : Str) : Type 0 where
  pub first : Broker
  pub second : Broker
  pub declares_first : In (name, first) declared
  pub declares_second : In (name, second) declared
  pub differ : first ≢ second

-- The loop's invariant, on the declarations read so far.
record Merging (declared : List (Str × Broker)) (m : Merge) : Type 0 where
  held : (n : Str) (b : Broker) → lookup n m.merged ≡ some b → In (n, b) declared
  kept :
      (n : Str) (b : Broker)
      → In (n, b) declared
      → contains n m.conflict ≡ false
      → lookup n m.merged ≡ some b
  reported : (n : Str) → contains n m.conflict ≡ true → Conflict declared n

Conflict-cons :
    (x : Str × Broker) {declared : List (Str × Broker)} {name : Str}
    → Conflict declared name
    → Conflict (x ∷ declared) name
Conflict-cons x c = record {
  first = c.first;
  second = c.second;
  declares_first = there c.declares_first;
  declares_second = there c.declares_second;
  differ = c.differ;
}

conflicts_with-some :
    (o : Option Broker) (b : Broker)
    → conflicts_with o b ≡ true
    → (a : Broker) × (o ≡ some a) × (a ≢ b)
conflicts_with-some none b h = cc
conflicts_with-some (some a) b h = (a, refl, λ e. cc (h, (broker_eq_iff a b).1 e))

module _ {m : Merge} {declared : List (Str × Broker)} (v : Merging declared m) (name : Str)
    (b : Broker) where
  held-one :
      (n : Str) (c : Broker)
      → lookup n (put name b m.merged) ≡ some c
      → In (n, c) ((name, b) ∷ declared)
  held-one n c h = elim (Bool-cases (name == n)) [
    | inr other ↦ there (v.held n c (ground (arith, lookup-put name n b m.merged)))
    | inl same ↦
        let said : b ≡ c = ground (arith, lookup-put name n b m.merged) in
        subst (λ x. In x ((name, b) ∷ declared))
          (ap (λ k. (k, b)) ((eq_iff name n).0 same) ∙ ap (λ k. (n, k)) said) here
  ]

  kept-old :
      (n : Str) (c : Broker)
      → lookup n m.merged ≡ some c
      → contains n (merge_one m (name, b)).conflict ≡ false
      → lookup n (put name b m.merged) ≡ some c
  unfolding merge_one contains
  kept-old n c l h = elim (Bool-cases (name == n)) [
    | inr other ↦ ground (arith, lookup-put name n b m.merged)
    | inl same ↦
        let e : name ≡ n = (eq_iff name n).0 same in
        let quiet : conflicts_with (lookup name m.merged) b ≡ false =
          ground (arith, eq_iff n name) in
        let agree : conflicts_with (some c) b ≡ false =
          subst (λ o. conflicts_with o b ≡ false) (ap (λ k. lookup k m.merged) e ∙ l) quiet in
        ground (arith, lookup-put name n b m.merged, broker_eq_iff c b)
  ]

  kept-one :
      (n : Str) (c : Broker)
      → In (n, c) ((name, b) ∷ declared)
      → contains n (merge_one m (name, b)).conflict ≡ false
      → lookup n (put name b m.merged) ≡ some c
  unfolding merge_one contains
  kept-one n c i h = elim (In-cases i) [
    | inr old ↦ kept-old n c (v.kept n c old (ground arith)) h
    | inl e ↦
        let e0 : n ≡ name = ap (λ (x : Str × Broker). x.0) e in
        let e1 : c ≡ b = ap (λ (x : Str × Broker). x.1) e in
        ground (arith, lookup-put name n b m.merged, eq_iff name n)
  ]

  reported-one :
      (n : Str)
      → contains n (merge_one m (name, b)).conflict ≡ true
      → Conflict ((name, b) ∷ declared) n
  unfolding merge_one
  reported-one n h = elim (Bool-cases (conflicts_with (lookup name m.merged) b)) [
    | inr quiet ↦ Conflict-cons (name, b) (v.reported n (ground arith))
    | inl loud ↦ elim (contains_cons n name m.conflict (ground arith)) [
      | inl old ↦ Conflict-cons (name, b) (v.reported n old)
      | inr e ↦
          let (a, l, d) = conflicts_with-some (lookup name m.merged) b loud in
          subst (λ k. Conflict ((name, b) ∷ declared) k) (sym e)
            (record {
              first = a;
              second = b;
              declares_first = there (v.held name a l);
              declares_second = here;
              differ = d;
            })
    ]
  ]

-- The declarations in the order in which they are read, the last one first.
onto : List (Str × Broker) → List (Str × Broker) → List (Str × Broker)
onto [] declared = declared
onto (b ∷ bs) declared = onto bs (b ∷ declared)

In-onto :
    (bs declared : List (Str × Broker)) {x : Str × Broker}
    → In x (onto bs declared) ↔ (In x bs ⊎ In x declared)
unfolding onto
In-onto [] declared = (λ h. inr h, λ h. elim h [ inl i ↦ absurd (not-In_nil i) | inr i ↦ i ])
In-onto (b ∷ bs) declared = (
  λ h. elim ((In-onto bs (b ∷ declared)).0 h) [
    | inl i ↦ inl (there i)
    | inr i ↦ elim (In-cases i) [
      | inl e ↦ inl (subst (λ y. In y (b ∷ bs)) (sym e) here)
      | inr j ↦ inr j
    ]
  ],
  λ h. (In-onto bs (b ∷ declared)).1 (elim h [
    | inr i ↦ inr (there i)
    | inl i ↦ elim (In-cases i) [
      | inl e ↦ inr (subst (λ y. In y (b ∷ declared)) (sym e) here)
      | inr j ↦ inl j
    ]
  ]),
)

Merging-service :
    (m : Merge) (declared bs : List (Str × Broker))
    → Merging declared m
    → Merging (onto bs declared) (merge_service m bs)
unfolding merge_service onto merge_one
Merging-service m declared [] v = v
Merging-service m declared ((name, b) ∷ bs) v =
    Merging-service (merge_one m (name, b)) ((name, b) ∷ declared) bs (record {
      held = held-one v name b;
      kept = kept-one v name b;
      reported = reported-one v name b;
    })

merge_service-append :
    (m : Merge) (bs cs : List (Str × Broker))
    → merge_service m (bs ++ cs) ≡ merge_service (merge_service m bs) cs
unfolding merge_service
merge_service-append m [] cs = refl
merge_service-append m (b ∷ bs) cs = merge_service-append (merge_one m b) bs cs

merge_services-flat :
    (m : Merge) (per_service : List (List (Str × Broker)))
    → merge_services m per_service ≡ merge_service m (declarations per_service)
unfolding merge_services merge_service
merge_services-flat m [] = refl
merge_services-flat m (bs ∷ rest) =
    merge_services-flat (merge_service m bs) rest
    ∙ sym (merge_service-append m bs (declarations rest))

-- A name is reported exactly when two of the policies' declarations of it differ.
pub merge_brokers-Conflict :
    (per_service : List (List (Str × Broker))) (name : Str)
    → (contains name (merge_brokers per_service).1 ≡ true)
      ↔ Conflict (declarations per_service) name
unfolding merge_brokers
merge_brokers-Conflict per_service name = (
  λ h.
      let c = v.reported name (sym (contains-sorted_keys name final.conflict) ∙ h) in
      record {
        first = c.first;
        second = c.second;
        declares_first = read c.declares_first;
        declares_second = read c.declares_second;
        differ = c.differ;
      },
  λ c. elim (Bool-cases (contains name final.conflict)) [
    | inl h ↦ contains-sorted_keys name final.conflict ∙ h
    | inr h ↦ absurd (
        c.differ (
          both (
            sym (v.kept name c.first (unread c.declares_first) h)
            ∙ v.kept name c.second (unread c.declares_second) h)))
  ],
)
  where
    all : List (Str × Broker)
    all = declarations per_service

    start : Merge
    start = record { merged = []; conflict = [] }

    final : Merge
    final = merge_services start per_service

    v : Merging (onto all []) final
    v =
        subst (λ m. Merging (onto all []) m) (sym (merge_services-flat start per_service))
          (Merging-service start [] all (record {
            held = λ n b h. ground (arith, h);
            kept = λ n b i h. absurd (not-In_nil i);
            reported = λ n h. absurd (true_ne_false (sym h ∙ contains_nil n));
          }))

    read : {x : Str × Broker} → In x (onto all []) → In x all
    read i = elim ((In-onto all []).0 i) [ inl j ↦ j | inr j ↦ absurd (not-In_nil j) ]

    unread : {x : Str × Broker} → In x all → In x (onto all [])
    unread i = (In-onto all []).1 (inl i)

    both : {a b : Broker} → some a ≡ some b → a ≡ b
    both h = ground arith
