-- ===== src/Graph/Surface.antt =====
-- The effect surface and the blind-spot manifest that the index serves
-- (internal/groundwork/graph/index.go): Effects, BusEffects, DBEffects, the blind spots and the
-- annotations, and WithBlindSpots seen from there.
use verdi_go.Prelude.{
  ℕ, suc, Bool, not, Option, List, [], ◌∷◌, ◌++◌, if◌then◌else◌, any, ◌==◌, nat_Eq, bool_Eq,
  contains, list_Eq, Str, codes, Str_Eq, str_lt, has_prefix, trim_prefix, fields, sort_by, pair_Eq,
  at_key,
}
use verdi_go.Vocabulary.Verbs.{bus_prefix, db_prefix}
use verdi_go.Graph.Types.{
  Edge, BlindSpot, Annotation, Obligation, EffectOrderFact, Entrypoint, FrontierSection, is_dynamic,
}
use verdi_go.Graph.Index.{Index}

-- Effects, in the order of the functions given.
unfoldable pub effects : Index → List Str → List Edge
unfolding at_key
effects ix [] = []
effects ix (fqn ∷ fqns) = at_key fqn ix.eff_of ++ effects ix fqns

pub record BusEffect : Type 0 where
  pub op : Str
  pub event : Str
  pub from : Str
  pub label : Str

pub record DbEffect : Type 0 where
  pub op : Str
  pub table : Str
  pub from : Str
  pub label : Str

-- What one edge adds: nothing, an effect that was read, or one that could not be named.
pub data Decoded {ℓ} (A : Type ℓ) : Type ℓ where
  skipped : Decoded A
  named : A → Decoded A
  unnamed : Decoded A

abbrev bus_fields : Edge → List Str → Decoded BusEffect
bus_fields e (op ∷ event ∷ rest) =
    named (record { op = op; event = event; from = e.from; label = e.to })
bus_fields e _ = unnamed

unfoldable pub decode_bus : Edge → Decoded BusEffect
decode_bus e =
    if not (has_prefix e.to bus_prefix)
    then skipped
    else if is_dynamic e
    then unnamed
    else bus_fields e (fields (trim_prefix e.to bus_prefix))

abbrev db_fields : Edge → List Str → Decoded DbEffect
db_fields e (op ∷ table ∷ rest) =
    named (record { op = op; table = table; from = e.from; label = e.to })
db_fields e _ = unnamed

unfoldable pub decode_db : Edge → Decoded DbEffect
decode_db e =
    if not (has_prefix e.to db_prefix)
    then skipped
    else db_fields e (fields (trim_prefix e.to db_prefix))

-- The loop that appends what could be named and counts what could not.
abbrev pub tally {ℓ} : {A : Type ℓ} → Decoded A → List A × ℕ → List A × ℕ
tally skipped r = r
tally (named a) (es, n) = (a ∷ es, n)
tally unnamed (es, n) = (es, suc n)

unfoldable pub decode_all {ℓ} : {A : Type ℓ} → (Edge → Decoded A) → List Edge → List A × ℕ
decode_all decode [] = ([], 0)
decode_all decode (e ∷ es) = tally (decode e) (decode_all decode es)

unfoldable pub bus_effects : Index → List BusEffect × ℕ
unfolding decode_all decode_bus has_prefix is_dynamic fields trim_prefix
bus_effects ix = decode_all decode_bus ix.g.edges

unfoldable pub db_effects : Index → List DbEffect × ℕ
unfolding decode_all decode_db has_prefix fields trim_prefix
db_effects ix = decode_all decode_db ix.g.edges

abbrev pub kind_high_fan_out : Str
kind_high_fan_out = codes "HighFanOut"

unfoldable pub blind_spots_at : Index → Str → List BlindSpot
unfolding at_key
blind_spots_at ix site = at_key site ix.blind

unfoldable pub crosses_high_fan_out : Index → List Str → Bool
unfolding blind_spots_at
crosses_high_fan_out ix nodes =
    any (λ fn. any (λ (b : BlindSpot). b.kind == kind_high_fan_out) (blind_spots_at ix fn)) nodes

unfoldable pub annotations_at : Index → Str → Str → List Annotation
unfolding at_key
annotations_at ix site kind = at_key (site, kind) ix.annot

unfoldable pub annotations : Index → List Annotation
annotations ix = ix.g.annotations

unfoldable pub distinct_from : Index → List (Str × Str) → List BlindSpot → List Annotation
unfolding annotations_at contains
distinct_from ix seen [] = []
distinct_from ix seen (s ∷ spots) =
    let old = distinct_from ix seen spots in
    let new = annotations_at ix s.site s.kind ++ distinct_from ix ((s.site, s.kind) ∷ seen) spots in
    if contains (s.site, s.kind) seen then old else new

unfoldable pub distinct_annotations_at : Index → List BlindSpot → List Annotation
unfolding distinct_from
distinct_annotations_at ix spots = distinct_from ix [] spots

-- The order (Kind, Site, Detail).
unfoldable pub blind_spot_less : BlindSpot → BlindSpot → Bool
unfolding str_lt
blind_spot_less a b =
    if not (a.kind == b.kind)
    then str_lt a.kind b.kind
    else if not (a.site == b.site)
    then str_lt a.site b.site
    else str_lt a.detail b.detail

unfoldable pub sort_blind_spots : List BlindSpot → List BlindSpot
unfolding sort_by blind_spot_less
sort_blind_spots = sort_by blind_spot_less

unfoldable pub blind_spots : Index → List BlindSpot
blind_spots ix = ix.g.blind_spots

unfoldable pub edges : Index → List Edge
edges ix = ix.g.edges

unfoldable pub obligations : Index → List Obligation
obligations ix = ix.g.obligations

unfoldable pub effect_order : Index → List EffectOrderFact
effect_order ix = ix.g.effect_order

unfoldable pub frontier : Index → Option FrontierSection
frontier ix = ix.g.frontier

unfoldable pub algo : Index → Str
algo ix = ix.g.algo

unfoldable pub stamp : Index → Str
stamp ix = ix.g.stamp

unfoldable pub tool : Index → Str
tool ix = ix.g.tool

unfoldable pub entrypoints : Index → List Entrypoint
entrypoints ix = ix.g.entrypoints

unfoldable pub composition_roots : Index → List Str
composition_roots ix = ix.g.composition_roots
