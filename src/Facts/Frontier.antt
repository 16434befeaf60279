-- ===== src/Facts/Frontier.antt =====
-- Where the graph stops being able to answer: the effects of a cone and the blind witness that is
-- selected for it (internal/groundwork/facts/reach.go; the two disclosure-only kinds are those of
-- internal/static/blindspots/blindspots.go).
use verdi_go.Prelude.{
  ◌≡◌, ◌↔◌, Bool, true, ◌&&◌, ◌||◌, not, Option, none, some, List, [], ◌∷◌, map, arith, ltb,
  bool_eq, if◌then◌else◌, keep, Eq, ◌==◌, eq_iff, nat_Eq, bool_Eq, contains, compact, list_Eq, Str,
  codes, Str_Eq, str_lt, sort_by, pair_Eq, at_key, append_at,
}
use verdi_go.Graph.Types.{Edge, BlindSpot, is_boundary, is_dynamic}
use verdi_go.Graph.Index.{Index}
use verdi_go.Graph.Surface
use verdi_go.Facts.Types.{
  BlindWitness, BlindLocation, blind_at_function, blind_in_package, blind_at_dynamic_effect, rank,
  BlindWitness_Eq,
}
use verdi_go.Facts.Match.{package_of, canonical_strings}

abbrev pub external_boundary_call : Str
external_boundary_call = codes "ExternalBoundaryCall"

abbrev pub unresolved_spec_operation : Str
unresolved_spec_operation = codes "UnresolvedSpecOperation"

unfoldable pub is_disclosure_only_frontier : Str → Bool
is_disclosure_only_frontier k = k == external_boundary_call || k == unresolved_spec_operation

abbrev pub dynamic_effect_kind : Str
dynamic_effect_kind = codes "DynamicEffect"

pub record BoundaryEffect : Type 0 where
  pub from : Str
  pub to : Str
  pub dynamic : Bool

unfoldable pub effect_eq : BoundaryEffect → BoundaryEffect → Bool
effect_eq a b = (a.from == b.from) && ((a.to == b.to) && bool_eq a.dynamic b.dynamic)

pub effect_eq_iff : (a b : BoundaryEffect) → (effect_eq a b ≡ true) ↔ (a ≡ b)
unfolding effect_eq
effect_eq_iff a b = ground (arith, eq_iff a.from b.from, eq_iff a.to b.to)

instance abbrev pub BoundaryEffect_Eq : Eq BoundaryEffect
BoundaryEffect_Eq = record { beq = effect_eq; beq_iff = effect_eq_iff }

abbrev pub effect_of : Edge → BoundaryEffect
effect_of e = record { from = e.from; to = e.to; dynamic = is_dynamic e }

-- The order (To, From).
unfoldable pub effect_less : BoundaryEffect → BoundaryEffect → Bool
unfolding str_lt
effect_less a b = if not (a.to == b.to) then str_lt a.to b.to else str_lt a.from b.from

unfoldable pub sort_boundary_effects : List BoundaryEffect → List BoundaryEffect
unfolding sort_by effect_less
sort_boundary_effects = sort_by effect_less

unfoldable pub canonical_boundary_effects : List Edge → List BoundaryEffect
unfolding sort_boundary_effects compact
canonical_boundary_effects edges =
    compact (sort_boundary_effects (map effect_of (keep is_boundary edges)))

abbrev pub EffectMap : Type 0
EffectMap = List (Str × List BoundaryEffect)

unfoldable pub group_effects : List BoundaryEffect → EffectMap → EffectMap
unfolding append_at
group_effects [] m = m
group_effects (e ∷ es) m = group_effects es (append_at e.from e m)

unfoldable pub effects_by_owner : Index → EffectMap
unfolding group_effects canonical_boundary_effects
effects_by_owner ix = group_effects (canonical_boundary_effects (Surface.edges ix)) []

-- The order (Kind, Site, Detail, Location).
unfoldable pub witness_less : BlindWitness → BlindWitness → Bool
unfolding str_lt
witness_less left right =
    if not (left.kind == right.kind)
    then str_lt left.kind right.kind
    else if not (left.site == right.site)
    then str_lt left.site right.site
    else if not (left.detail == right.detail)
    then str_lt left.detail right.detail
    else ltb (rank left.location) (rank right.location)

unfoldable pub canonical_blind_witnesses : List BlindWitness → List BlindWitness
unfolding sort_by witness_less compact
canonical_blind_witnesses witnesses = compact (sort_by witness_less witnesses)

abbrev pub spot_witness : Str → Str → BlindLocation → BlindSpot → BlindWitness
spot_witness from site location spot = record {
  from = from;
  site = site;
  kind = spot.kind;
  detail = spot.detail;
  location = location;
}

-- The spots that hide something.
abbrev pub is_opaque : BlindSpot → Bool
is_opaque spot = not (is_disclosure_only_frontier spot.kind)

unfoldable pub site_witnesses : Index → Str → Str → BlindLocation → List BlindWitness
unfolding canonical_blind_witnesses is_disclosure_only_frontier
site_witnesses ix from site location =
    canonical_blind_witnesses
      (map (spot_witness from site location) (keep is_opaque (Surface.blind_spots_at ix site)))

abbrev pub first {ℓ} : {A : Type ℓ} → List A → Option A
first [] = none
first (x ∷ xs) = some x

abbrev pub or_else {ℓ} : {A : Type ℓ} → Option A → Option A → Option A
or_else none o = o
or_else (some a) o = some a

-- The first loop: a function's own spots before its package's.
unfoldable pub blind_site : Index → Str → List Str → Option BlindWitness
unfolding site_witnesses package_of
blind_site ix from [] = none
blind_site ix from (fn ∷ cone) = or_else (first (site_witnesses ix from fn blind_at_function)) (
    or_else (first (site_witnesses ix from (package_of fn) blind_in_package))
      (blind_site ix from cone))

abbrev pub dynamic_witness : Str → Str → BoundaryEffect → BlindWitness
dynamic_witness from fn effect = record {
  from = from;
  site = fn;
  kind = dynamic_effect_kind;
  detail = effect.to;
  location = blind_at_dynamic_effect;
}

-- The second loop: the dynamic effects, function by function.
unfoldable pub blind_effect : Str → List Str → EffectMap → Option BlindWitness
unfolding canonical_blind_witnesses at_key
blind_effect from [] effects = none
blind_effect from (fn ∷ cone) effects =
    or_else
      (first (
        canonical_blind_witnesses (
          map (dynamic_witness from fn)
            (keep (λ (e : BoundaryEffect). e.dynamic) (at_key fn effects)))))
      (blind_effect from cone effects)

unfoldable pub blind_for_cone : Index → Str → List Str → EffectMap → Option BlindWitness
unfolding blind_site blind_effect
blind_for_cone ix from cone effects =
    or_else (blind_site ix from cone) (blind_effect from cone effects)

-- The caller's function first, where the cone has it.
unfoldable pub source_first : Str → List Str → List Str
unfolding contains
source_first from cone =
    if not (from == []) && contains from cone
    then from ∷ keep (λ fn. not (fn == from)) cone
    else cone

unfoldable pub blind_frontier : Index → Str → List Str → List Edge → Option BlindWitness
unfolding source_first canonical_strings canonical_boundary_effects group_effects blind_for_cone
blind_frontier ix from cone effects =
    blind_for_cone ix from (source_first from (canonical_strings cone))
      (group_effects (canonical_boundary_effects effects) [])
