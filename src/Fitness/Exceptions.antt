-- ===== src/Fitness/Exceptions.antt =====
-- The audit of the allow-lists (internal/groundwork/fitness/exceptions.go).
use verdi_go.Prelude.{
  ℕ, Bool, false, ◌&&◌, ◌||◌, not, Option, none, some, List, [], ◌∷◌, ◌++◌, map, if◌then◌else◌,
  length, any, keep, flat_map, bool_Eq, ◌==◌, nat_Eq, contains, list_Eq, Str, codes, Str_Eq, str_lt,
  has_prefix, sort_by, pair_Eq, Format, concat,
}
use verdi_go.Graph.Types.{BlindSpot}
use verdi_go.Graph.Index.{Index}
use verdi_go.Graph.Surface
use verdi_go.Policy.Types.{
  Policy, Layering, Exception, PassRule, BlindSpotException, BlindSpotRatchet, EffectException,
  EffectRatchet, allowed, blind_spot_allows, effect_allows,
}
use verdi_go.Policy.Validate.{must_pass_through_kind}
use verdi_go.Fitness.Findings.{Finding, key}
use verdi_go.Fitness.Layering.{layering_rule, exempted}
use verdi_go.Fitness.Effects.{labels, write_label}
use verdi_go.Fitness.Check.{check}

pub record ExceptionStatus : Type 0 where
  pub source : Str
  pub from : Str
  pub to : Str
  pub kind : Str
  pub site : Str
  pub reason : Str
  pub dead : Bool

abbrev pub without_allow : PassRule → PassRule
without_allow rule = record rule { allow = [] }

abbrev pub strip_layering : Option Layering → Option Layering
strip_layering none = none
strip_layering (some l) = some (record l { allow = [] })

unfoldable pub strip_allows : Policy → Policy
strip_allows p = record p {
  layering = strip_layering p.layering;
  must_pass_through = map without_allow p.must_pass_through;
}

unfoldable pub suppressed : Format → Policy → Index → List Finding
unfolding check strip_allows key contains
suppressed format p ix =
    let baseline = map key (check format p ix).findings in
    keep (λ (f : Finding). not (contains (key f) baseline))
      (check format (strip_allows p) ix).findings

unfoldable pub layering_live : List Finding → Exception → Bool
unfolding exempted
layering_live fs a =
    any (λ (f : Finding). (f.rule == layering_rule) && exempted (a ∷ []) f.from f.to) fs

-- `policy.PassRule{Allow: []policy.Exception{a}}`
abbrev pub one_allow : Exception → PassRule
one_allow a = record {
  name = [];
  from = [];
  to = [];
  through = [];
  require_proof = false;
  allow = a ∷ [];
}

unfoldable pub pass_live : List Finding → PassRule → Exception → Bool
unfolding has_prefix allowed
pass_live fs rule a =
    any
      (λ (f : Finding).
        (f.rule == must_pass_through_kind)
        && (has_prefix f.summary (rule.name ++ codes ": ") && allowed (one_allow a) f.from f.to))
      fs

abbrev pub edge_status : Str → Exception → Bool → ExceptionStatus
edge_status source a live = record {
  source = source;
  from = a.from;
  to = a.to;
  kind = [];
  site = [];
  reason = a.reason;
  dead = not live;
}

unfoldable pub layering_statuses : List Finding → Option Layering → List ExceptionStatus
unfolding layering_live
layering_statuses fs none = []
layering_statuses fs (some l) = map (λ a. edge_status layering_rule a (layering_live fs a)) l.allow

unfoldable pub pass_statuses : List Finding → PassRule → List ExceptionStatus
unfolding pass_live
pass_statuses fs rule =
    map
      (λ a. edge_status (must_pass_through_kind ++ codes ":" ++ rule.name) a (pass_live fs rule a))
      rule.allow

unfoldable pub spot_live : List BlindSpot → BlindSpotException → Bool
unfolding blind_spot_allows
spot_live spots a =
    any
      (λ (b : BlindSpot).
        blind_spot_allows (some (record { gate = false; allow = a ∷ [] })) b.kind b.site)
      spots

unfoldable pub spot_statuses : List BlindSpot → Option BlindSpotRatchet → List ExceptionStatus
unfolding spot_live
spot_statuses spots none = []
spot_statuses spots (some r) =
    map
      (λ (a : BlindSpotException). record {
        source = codes "blind_spot_ratchet";
        from = [];
        to = [];
        kind = a.kind;
        site = a.site;
        reason = a.reason;
        dead = not (spot_live spots a);
      })
      r.allow

unfoldable pub effect_live : List Str → EffectException → Bool
unfolding effect_allows
effect_live write_labels a =
    any (λ l. effect_allows (some (record { gate = false; allow = a ∷ [] })) l) write_labels

unfoldable pub effect_statuses : List Str → Option EffectRatchet → List ExceptionStatus
unfolding effect_live
effect_statuses write_labels none = []
effect_statuses write_labels (some r) =
    map
      (λ (a : EffectException). record {
        source = codes "effect_ratchet";
        from = [];
        to = [];
        kind = [];
        site = a.target;
        reason = a.reason;
        dead = not (effect_live write_labels a);
      })
      r.allow

-- The order (Source, From, To, Site, Kind, Reason).
unfoldable pub status_less : ExceptionStatus → ExceptionStatus → Bool
unfolding str_lt
status_less a b =
    if not (a.source == b.source)
    then str_lt a.source b.source
    else if not (a.from == b.from)
    then str_lt a.from b.from
    else if not (a.to == b.to)
    then str_lt a.to b.to
    else if not (a.site == b.site)
    then str_lt a.site b.site
    else if not (a.kind == b.kind)
    then str_lt a.kind b.kind
    else str_lt a.reason b.reason

unfoldable pub all_statuses : Format → Policy → Index → List ExceptionStatus
unfolding suppressed layering_statuses pass_statuses spot_statuses effect_statuses
    Surface.blind_spots Surface.edges labels write_label
all_statuses format p ix =
    let fs = suppressed format p ix in
    layering_statuses fs p.layering
    ++ (flat_map (pass_statuses fs) p.must_pass_through
        ++ (spot_statuses (Surface.blind_spots ix) p.blind_spot_ratchet
            ++ effect_statuses (labels write_label (Surface.edges ix)) p.effect_ratchet))

unfoldable pub exceptions : Format → Policy → Index → List ExceptionStatus
unfolding all_statuses sort_by status_less
exceptions format p ix = sort_by status_less (all_statuses format p ix)

unfoldable pub dead_count : List ExceptionStatus → ℕ
dead_count xs = length (keep (λ (x : ExceptionStatus). x.dead) xs)

unfoldable pub exception_string : ExceptionStatus → Str
exception_string x =
    let state = if x.dead then codes "DEAD" else codes "LIVE" in
    let edge =
      if not (x.from == []) || not (x.to == [])
      then concat (x.from ∷ codes " → " ∷ x.to ∷ [])
      else x.site in
    let what = if not (x.kind == []) then concat (x.kind ∷ codes " " ∷ edge ∷ []) else edge in
    concat (
      codes "["
      ∷ state
      ∷ codes "] "
      ∷ x.source
      ∷ codes " — "
      ∷ what
      ∷ (if not (x.reason == []) then concat (codes " (" ∷ x.reason ∷ codes ")" ∷ []) else [])
      ∷ [])
