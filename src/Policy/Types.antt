-- ===== src/Policy/Types.antt =====
-- The schema of internal/groundwork/policy/policy.go, its allow-lists and its ratchets. A pointer is
-- an Option, an int is an ℤ, and the broker map is an association list.
use verdi_go.Prelude.{
  Bool, false, ◌&&◌, not, Option, none, some, List, [], if◌then◌else◌, any, bool_Eq, ◌==◌, nat_Eq,
  list_Eq, Str, codes, Str_Eq, is_space, trim, pair_Eq, ℤ,
}
use verdi_go.Vocabulary.Matcher.{match_prefix, match_exception_side}

pub record ImpeachmentGate : Type 0 where
  pub gate : Bool

pub record Broker : Type 0 where
  pub transport : Str
  pub delivery : Str
  pub ordered : Str
  pub consumers : Str
  pub dedup : Str
  pub signed_by : Str

pub record Layer : Type 0 where
  pub name : Str
  pub packages : List Str

pub record Exception : Type 0 where
  pub from : Str
  pub to : Str
  pub reason : Str

pub record Layering : Type 0 where
  pub allow : List Exception
  pub roots : List Str

pub record ReachRule : Type 0 where
  pub name : Str
  pub from : List Str
  pub to : List Str
  pub require_proof : Bool

pub record PassRule : Type 0 where
  pub name : Str
  pub from : List Str
  pub to : List Str
  pub through : List Str
  pub require_proof : Bool
  pub allow : List Exception

pub record ConcurrentRule : Type 0 where
  pub name : Str
  pub to : List Str
  pub require_proof : Bool

pub record IoBudget : Type 0 where
  pub max_writes_per_route : ℤ

pub record BlindSpotException : Type 0 where
  pub kind : Str
  pub site : Str
  pub reason : Str

pub record BlindSpotRatchet : Type 0 where
  pub gate : Bool
  pub allow : List BlindSpotException

pub record EffectException : Type 0 where
  pub target : Str
  pub reason : Str

pub record EffectRatchet : Type 0 where
  pub gate : Bool
  pub allow : List EffectException

pub record Policy : Type 0 where
  pub service : Str
  pub version : ℤ
  pub substrate : Str
  pub layers : List Layer
  pub layering : Option Layering
  pub must_not_reach : List ReachRule
  pub must_pass_through : List PassRule
  pub no_concurrent_reach : List ConcurrentRule
  pub io_budget : Option IoBudget
  pub blind_spot_ratchet : Option BlindSpotRatchet
  pub effect_ratchet : Option EffectRatchet
  pub impeachment_gate : Option ImpeachmentGate
  pub brokers : List (Str × Broker)

-- `strings.TrimSpace(s) == ""`
unfoldable pub blank : Str → Bool
unfolding trim
blank s = trim is_space s == []

unfoldable pub signed : Broker → Bool
unfolding blank
signed b = not (blank b.signed_by)

unfoldable pub allowed : PassRule → Str → Str → Bool
unfolding match_exception_side
allowed r source target =
    any (λ (a : Exception). match_exception_side source a.from && match_exception_side target a.to)
      r.allow

unfoldable pub blind_spot_allows : Option BlindSpotRatchet → Str → Str → Bool
unfolding match_prefix
blind_spot_allows none kind site = false
blind_spot_allows (some r) kind site =
    any
      (λ (a : BlindSpotException).
        if not (a.kind == []) && not (a.kind == kind) then false else match_prefix site a.site)
      r.allow

unfoldable pub effect_allows : Option EffectRatchet → Str → Bool
unfolding match_prefix
effect_allows none label = false
effect_allows (some r) label = any (λ (a : EffectException). match_prefix label a.target) r.allow

unfoldable pub gates_blind_spots : Policy → Bool
gates_blind_spots p = elim p.blind_spot_ratchet [ none ↦ false | some r ↦ r.gate ]

unfoldable pub gates_effects : Policy → Bool
gates_effects p = elim p.effect_ratchet [ none ↦ false | some r ↦ r.gate ]

unfoldable pub gates_impeachment : Policy → Bool
gates_impeachment p = elim p.impeachment_gate [ none ↦ false | some r ↦ r.gate ]

abbrev pub coupling_wording : Str
coupling_wording =
    codes
      "effect_ratchet gates but blind_spot_ratchet does not — a new write laundered through dynamic dispatch collapses to an existing <dynamic> label and escapes the effect ratchet; gate blind_spot_ratchet too to close the escape"

unfoldable pub effect_ratchet_coupling_caution : Policy → Str
unfolding gates_effects gates_blind_spots
effect_ratchet_coupling_caution p =
    if gates_effects p && not (gates_blind_spots p) then coupling_wording else []

unfoldable pub root_packages : Policy → List Str
root_packages p = elim p.layering [ none ↦ [] | some l ↦ l.roots ]
