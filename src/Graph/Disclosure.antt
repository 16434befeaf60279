-- ===== src/Graph/Disclosure.antt =====
-- Nothing of the boundary surface is dropped in silence, and disclosing a blind spot changes the blind
-- spots alone (internal/groundwork/graph/index.go).
use verdi_go.Prelude.{
  ℕ, ◌+◌, ◌≡◌, refl, sym, ap, ◌∙◌, ◌≢◌, Bool, true, false, ◌&&◌, List, [], ◌∷◌, ◌++◌, append_assoc,
  append-nil, arith, length, keep, In, not-In_nil, ◌==◌, eq_iff, nat_Eq, bool_Eq, list_Eq, Str,
  Str_Eq, has_prefix, pair_Eq, at_key, append_at, at_key-append_at, here, there,
}
use verdi_go.Vocabulary.Verbs.{bus_prefix, db_prefix}
use verdi_go.Graph.Types.{Graph, Node, Edge, BlindSpot, is_boundary}
use verdi_go.Graph.Index.{
  Index, Adjacency, node_map, add_edge, add_edges, no_edges, blind_map, new_index, with_blind_spots,
  sources, reachable, reaching, callees, callers,
}
use verdi_go.Graph.Surface.{
  effects, tally, BusEffect, DbEffect, Decoded, skipped, named, unnamed, decode_bus, decode_db,
  decode_all, bus_effects, db_effects, blind_spots_at,
}

-- How many edges have a label of the kind that `prefix` names.
abbrev pub count_kind : Str → List Edge → ℕ
count_kind prefix es = length (keep (λ (e : Edge). has_prefix e.to prefix) es)

-- Where an effect that could be named comes from: an edge with its label and its origin.
abbrev pub NamedBy {ℓ} : {A : Type ℓ} → (A → Str) → (A → Str) → Str → List Edge → A → Type 0
NamedBy label from prefix es a =
    (e : Edge) × In e es × (has_prefix e.to prefix ≡ true) × (label a ≡ e.to) × (from a ≡ e.from)

module _ {ℓ} {A : Type ℓ} (decode : Edge → Decoded A) (prefix : Str) where
  decode_all-count :
      ((e : Edge) → has_prefix e.to prefix ≡ false → decode e ≡ skipped)
      → ((e : Edge) → has_prefix e.to prefix ≡ true → decode e ≢ skipped)
      → (es : List Edge)
      → length (decode_all decode es).0 + (decode_all decode es).1 ≡ count_kind prefix es
  unfolding decode_all
  decode_all-count out within [] = refl
  decode_all-count out within (e ∷ es) =
      ground (arith, out e, within e, decode_all-count out within es)

  decode_all-In :
      (es : List Edge) {a : A}
      → In a (decode_all decode es).0
      → (e : Edge) × In e es × (decode e ≡ named a)
  unfolding decode_all
  decode_all-In [] m = absurd (not-In_nil m)
  decode_all-In (e ∷ es) {a} m =
      from_head (decode e) refl (λ k. let (e', m', h) = decode_all-In es k in (e', there m', h)) m
    where
      from_head :
          (d : Decoded A)
          → decode e ≡ d
          → (In a (decode_all decode es).0 → (e' : Edge) × In e' (e ∷ es) × (decode e' ≡ named a))
          → In a (tally d (decode_all decode es)).0
          → (e' : Edge) × In e' (e ∷ es) × (decode e' ≡ named a)
      from_head skipped h later m = later m
      from_head unnamed h later m = later m
      from_head (named b) h later here = (e, here, h)
      from_head (named b) h later (there m) = later m

decode_bus-out : (e : Edge) → has_prefix e.to bus_prefix ≡ false → decode_bus e ≡ skipped
unfolding decode_bus
decode_bus-out e h = rw h refl

decode_bus-within : (e : Edge) → has_prefix e.to bus_prefix ≡ true → decode_bus e ≢ skipped
unfolding decode_bus
decode_bus-within e h = ground arith

decode_bus-named :
    (e : Edge) (b : BusEffect)
    → decode_bus e ≡ named b
    → (has_prefix e.to bus_prefix ≡ true) × (b.label ≡ e.to) × (b.from ≡ e.from)
unfolding decode_bus
decode_bus-named e b h = ground arith

decode_db-out : (e : Edge) → has_prefix e.to db_prefix ≡ false → decode_db e ≡ skipped
unfolding decode_db
decode_db-out e h = rw h refl

decode_db-within : (e : Edge) → has_prefix e.to db_prefix ≡ true → decode_db e ≢ skipped
unfolding decode_db
decode_db-within e h = ground arith

decode_db-named :
    (e : Edge) (b : DbEffect)
    → decode_db e ≡ named b
    → (has_prefix e.to db_prefix ≡ true) × (b.label ≡ e.to) × (b.from ≡ e.from)
unfolding decode_db
decode_db-named e b h = ground arith

-- The bus surface is accounted for in full: the named effects and the tally of the unnamed ones together are
-- as many as the bus edges of the graph.
pub bus_effects-count :
    (g : Graph)
    → length (bus_effects (new_index g)).0 + (bus_effects (new_index g)).1
      ≡ count_kind bus_prefix g.edges
unfolding bus_effects new_index
bus_effects-count g =
    decode_all-count decode_bus bus_prefix decode_bus-out decode_bus-within g.edges

-- Each named bus effect carries the label and the origin of a bus edge of the graph.
pub bus_effects-NamedBy :
    (g : Graph) (b : BusEffect)
    → In b (bus_effects (new_index g)).0
    → NamedBy (λ (x : BusEffect). x.label) (λ (x : BusEffect). x.from) bus_prefix g.edges b
unfolding bus_effects new_index
bus_effects-NamedBy g b m =
    let (e, m', h) = decode_all-In decode_bus bus_prefix g.edges m in
    let (p, l, f) = decode_bus-named e b h in (e, m', p, l, f)

-- The database surface is accounted for in full, its unreadable statements being the tally.
pub db_effects-count :
    (g : Graph)
    → length (db_effects (new_index g)).0 + (db_effects (new_index g)).1
      ≡ count_kind db_prefix g.edges
unfolding db_effects new_index
db_effects-count g = decode_all-count decode_db db_prefix decode_db-out decode_db-within g.edges

-- Each named database effect carries the label and the origin of a database edge of the graph.
pub db_effects-NamedBy :
    (g : Graph) (b : DbEffect)
    → In b (db_effects (new_index g)).0
    → NamedBy (λ (x : DbEffect). x.label) (λ (x : DbEffect). x.from) db_prefix g.edges b
unfolding db_effects new_index
db_effects-NamedBy g b m =
    let (e, m', h) = decode_all-In decode_db db_prefix g.edges m in
    let (p, l, f) = decode_db-named e b h in (e, m', p, l, f)

-- What one function does directly.
abbrev pub own_effects : Graph → Str → List Edge
own_effects g f = keep (λ (e : Edge). is_boundary e && e.from == f) g.edges

add_edges-effects :
    (nodes : List (Str × Node)) (a : Adjacency) (es : List Edge) (f : Str)
    → at_key f (add_edges nodes a es).effects
      ≡ at_key f a.effects ++ keep (λ (e : Edge). is_boundary e && e.from == f) es
unfolding add_edges
add_edges-effects nodes a [] f = sym (append-nil _)
add_edges-effects nodes a (e ∷ es) f = ground (
  arith,
  add_edges-effects nodes (add_edge nodes a e) es f,
  at_key-append_at e.from f e a.effects,
  eq_iff e.from f,
  append_assoc (at_key f a.effects) (e ∷ []) (keep (λ (x : Edge). is_boundary x && x.from == f) es),
)

-- `Effects` lists, function by function in the order asked, exactly the boundary edges that start there,
-- in the order of the graph.
pub effects_lem :
    (g : Graph) (f : Str) (fs : List Str)
    → effects (new_index g) (f ∷ fs) ≡ own_effects g f ++ effects (new_index g) fs
unfolding effects new_index
effects_lem g f fs =
    ap (λ es. es ++ effects (new_index g) fs)
      (add_edges-effects (node_map g.nodes []) no_edges g.edges f)

blind_map-at_key :
    (bs : List BlindSpot) (m : List (Str × List BlindSpot)) (site : Str)
    → at_key site (blind_map bs m) ≡ at_key site m ++ keep (λ (b : BlindSpot). b.site == site) bs
unfolding blind_map
blind_map-at_key [] m site = sym (append-nil _)
blind_map-at_key (b ∷ bs) m site = ground (
  arith,
  blind_map-at_key bs (append_at b.site b m) site,
  at_key-append_at b.site site b m,
  eq_iff b.site site,
  append_assoc (at_key site m) (b ∷ []) (keep (λ (x : BlindSpot). x.site == site) bs),
)

-- The blind spots at a site are those of the manifest with that site, in its order.
pub blind_spots_at_lem :
    (g : Graph) (site : Str)
    → blind_spots_at (new_index g) site ≡ keep (λ (b : BlindSpot). b.site == site) g.blind_spots
unfolding blind_spots_at new_index
blind_spots_at_lem g site = blind_map-at_key g.blind_spots [] site

keep-append {ℓ} :
    {A : Type ℓ} (p : A → Bool) (xs ys : List A) → keep p (xs ++ ys) ≡ keep p xs ++ keep p ys
keep-append p [] ys = refl
keep-append p (x ∷ xs) ys = ground (arith, keep-append p xs ys)

effects-eff_of :
    (ix iy : Index) (fs : List Str) → ix.eff_of ≡ iy.eff_of → effects ix fs ≡ effects iy fs
unfolding effects
effects-eff_of ix iy [] e = refl
effects-eff_of ix iy (f ∷ fs) e = cc (effects-eff_of ix iy fs e, e)

-- Disclosing blind spots adds them at their sites, behind those that stood there, and changes neither
-- what is reachable from the seeds nor what reaches them, neither the sources nor the effects of the
-- seeds, and neither the callees nor the callers of a function.
pub with_blind_spots_lem :
    (g : Graph) (bs : List BlindSpot) (site : Str) (seeds : List Str)
    → (blind_spots_at (with_blind_spots (new_index g) bs) site
        ≡ blind_spots_at (new_index g) site ++ keep (λ (b : BlindSpot). b.site == site) bs)
      × (reachable (with_blind_spots (new_index g) bs) seeds ≡ reachable (new_index g) seeds)
      × (reaching (with_blind_spots (new_index g) bs) seeds ≡ reaching (new_index g) seeds)
      × (sources (with_blind_spots (new_index g) bs) ≡ sources (new_index g))
      × (effects (with_blind_spots (new_index g) bs) seeds ≡ effects (new_index g) seeds)
      × (callees (with_blind_spots (new_index g) bs) site ≡ callees (new_index g) site)
      × (callers (with_blind_spots (new_index g) bs) site ≡ callers (new_index g) site)
unfolding with_blind_spots new_index blind_spots_at reachable reaching sources effects callees
    callers
with_blind_spots_lem g bs site seeds = (
  blind_map-at_key (g.blind_spots ++ bs) [] site
      ∙ keep-append (λ (b : BlindSpot). b.site == site) g.blind_spots bs
      ∙ ap (λ l. l ++ keep (λ (b : BlindSpot). b.site == site) bs)
          (sym (blind_map-at_key g.blind_spots [] site)),
  refl,
  refl,
  refl,
  effects-eff_of (new_index (record g { blind_spots = g.blind_spots ++ bs })) (new_index g) seeds
      refl,
  refl,
  refl,
)
