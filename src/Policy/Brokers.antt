-- ===== src/Policy/Brokers.antt =====
-- MergeBrokers of internal/groundwork/policy/policy.go.
use verdi_go.Prelude.{
  ◌≡◌, ◌↔◌, Bool, true, false, ◌&&◌, not, Option, none, some, List, [], ◌∷◌, arith, if◌then◌else◌,
  Eq, bool_Eq, ◌==◌, eq_iff, nat_Eq, list_Eq, Str, Str_Eq, sorted_keys, pair_Eq, lookup, put,
}
use verdi_go.Policy.Types.{Broker}

-- The `==` of the struct.
unfoldable pub broker_eq : Broker → Broker → Bool
broker_eq a b =
    (a.transport == b.transport)
    && ((a.delivery == b.delivery)
        && ((a.ordered == b.ordered)
            && ((a.consumers == b.consumers)
                && ((a.dedup == b.dedup) && (a.signed_by == b.signed_by)))))

pub broker_eq_iff : (a b : Broker) → (broker_eq a b ≡ true) ↔ (a ≡ b)
unfolding broker_eq
broker_eq_iff a b = ground (
  arith,
  eq_iff a.transport b.transport,
  eq_iff a.delivery b.delivery,
  eq_iff a.ordered b.ordered,
  eq_iff a.consumers b.consumers,
  eq_iff a.dedup b.dedup,
  eq_iff a.signed_by b.signed_by,
)

instance abbrev pub Broker_Eq : Eq Broker
Broker_Eq = record { beq = broker_eq; beq_iff = broker_eq_iff }

pub record Merge : Type 0 where
  pub merged : List (Str × Broker)
  pub conflict : List Str

-- `existing, dup := merged[name]; dup && existing != b`
abbrev pub conflicts_with : Option Broker → Broker → Bool
conflicts_with none b = false
conflicts_with (some existing) b = not (existing == b)

unfoldable pub merge_one : Merge → Str × Broker → Merge
unfolding lookup put
merge_one m (name, b) = record {
  merged = put name b m.merged;
  conflict = if conflicts_with (lookup name m.merged) b then name ∷ m.conflict else m.conflict;
}

unfoldable pub merge_service : Merge → List (Str × Broker) → Merge
unfolding merge_one
merge_service m [] = m
merge_service m (b ∷ bs) = merge_service (merge_one m b) bs

unfoldable pub merge_services : Merge → List (List (Str × Broker)) → Merge
unfolding merge_service
merge_services m [] = m
merge_services m (brokers ∷ rest) = merge_services (merge_service m brokers) rest

unfoldable pub merge_brokers : List (List (Str × Broker)) → List (Str × Broker) × List Str
unfolding merge_services sorted_keys
merge_brokers per_service =
    let m = merge_services (record { merged = []; conflict = [] }) per_service in
    (m.merged, sorted_keys m.conflict)
