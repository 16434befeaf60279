-- ===== src/Facts/Types.antt =====
-- The outcomes and the witnesses of internal/groundwork/facts/types.go.
use verdi_go.Prelude.{
  ℕ, ◌≡◌, ◌↔◌, Bool, true, ◌&&◌, Option, List, arith, nat_eq, bool_eq, Eq, ◌==◌, eq_iff, nat_Eq,
  bool_Eq, list_Eq, Str, Str_Eq, pair_Eq,
}
use verdi_go.Graph.Types.{Edge}

pub data ReachState : Type 0 where
  reach_unbound reach_found reach_absent reach_blind : ReachState

pub record PathWitness : Type 0 where
  pub from : Str
  pub to : Str
  pub path : List Str

pub data BlindLocation : Type 0 where
  blind_at_function : BlindLocation
  blind_in_package : BlindLocation
  blind_at_dynamic_effect : BlindLocation
  blind_at_concurrent_boundary : BlindLocation
  blind_at_concurrent_dispatch : BlindLocation

pub record BlindWitness : Type 0 where
  pub from : Str
  pub site : Str
  pub kind : Str
  pub detail : Str
  pub location : BlindLocation

pub record ReachResult : Type 0 where
  pub state : ReachState
  pub from : List Str
  pub to : List Str
  pub paths : List PathWitness
  pub blind : Option BlindWitness
  pub unbound_from : List Str
  pub unbound_to : List Str

pub record AllowPair : Type 0 where
  pub from : Str
  pub to : Str

pub record PassThroughInput : Type 0 where
  pub from : List Str
  pub to : List Str
  pub through : List Str
  pub allow : List AllowPair

pub data PassThroughState : Type 0 where
  pass_through_unbound pass_through_bypassed pass_through_guarded pass_through_blind :
      PassThroughState

pub record PassThroughResult : Type 0 where
  pub state : PassThroughState
  pub from : List Str
  pub to : List Str
  pub through : List Str
  pub bypasses : List PathWitness
  pub bypass_occurrences : List PathWitness
  pub blind : Option BlindWitness
  pub unbound_from : List Str
  pub unbound_to : List Str
  pub unbound_through : List Str

-- The place of a location in its enumeration, by which Go orders it.
abbrev pub rank : BlindLocation → ℕ
rank blind_at_function = 0
rank blind_in_package = 1
rank blind_at_dynamic_effect = 2
rank blind_at_concurrent_boundary = 3
rank blind_at_concurrent_dispatch = 4

-- The `==` of the structs that the facts compare, field by field.
unfoldable pub witness_eq : BlindWitness → BlindWitness → Bool
witness_eq a b =
    (a.from == b.from)
    && ((a.site == b.site)
        && ((a.kind == b.kind)
            && ((a.detail == b.detail) && nat_eq (rank a.location) (rank b.location))))

rank-injective : (a b : BlindLocation) → rank a ≡ rank b → a ≡ b
rank-injective a b h = ground arith

pub witness_eq_iff : (a b : BlindWitness) → (witness_eq a b ≡ true) ↔ (a ≡ b)
unfolding witness_eq
witness_eq_iff a b = ground (
  arith,
  eq_iff a.from b.from,
  eq_iff a.site b.site,
  eq_iff a.kind b.kind,
  eq_iff a.detail b.detail,
  rank-injective a.location b.location,
)

instance abbrev pub BlindWitness_Eq : Eq BlindWitness
BlindWitness_Eq = record { beq = witness_eq; beq_iff = witness_eq_iff }

unfoldable pub edge_eq : Edge → Edge → Bool
edge_eq a b =
    (a.from == b.from)
    && ((a.to == b.to)
        && (nat_eq a.tier b.tier
            && ((a.boundary == b.boundary)
                && (bool_eq a.concurrent b.concurrent && (a.via == b.via)))))

pub edge_eq_iff : (a b : Edge) → (edge_eq a b ≡ true) ↔ (a ≡ b)
unfolding edge_eq
edge_eq_iff a b = ground (
  arith,
  eq_iff a.from b.from,
  eq_iff a.to b.to,
  eq_iff a.boundary b.boundary,
  eq_iff a.via b.via,
)

instance abbrev pub Edge_Eq : Eq Edge
Edge_Eq = record { beq = edge_eq; beq_iff = edge_eq_iff }
