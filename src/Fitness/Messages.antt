-- ===== src/Fitness/Messages.antt =====
-- The findings that disclose an inert or an unprovable rule, and how a blind witness reads
-- (internal/groundwork/fitness/reach.go).
use verdi_go.Prelude.{
  Bool, true, false, Option, none, some, [], ◌∷◌, ◌++◌, if◌then◌else◌, bool_Eq, nat_Eq, list_Eq,
  Str, codes, Str_Eq, pair_Eq, concat,
}
use verdi_go.Facts.Types.{
  BlindWitness, BlindLocation, blind_at_function, blind_in_package, blind_at_dynamic_effect,
  blind_at_concurrent_boundary, blind_at_concurrent_dispatch,
}
use verdi_go.Fitness.Findings.{Severity, caution, violation, Finding}
use verdi_go.Fitness.Names.{short_name}

-- The severity of what could not be proved: `if requireProof { sev = Violation }`.
abbrev pub unproved : Bool → Severity
unproved true = violation
unproved false = caution

-- A finding with a summary only.
abbrev pub about_rule : Str → Severity → Str → Finding
about_rule kind severity summary = record {
  rule = kind;
  severity = severity;
  summary = summary;
  from = [];
  to = [];
  detail = [];
}

unfoldable pub inert_rule_finding : Str → Str → Bool → Finding
inert_rule_finding kind name require_proof = about_rule kind (unproved require_proof) (
    concat (
      name
      ∷ codes ": from binds nothing in this graph — "
      ∷ (if require_proof
          then codes "require_proof is set and an inert rule guards nothing"
          else codes "inert rule")
      ∷ []))

unfoldable pub unbindable_target_finding : Str → Str → Str → Bool → Finding
unbindable_target_finding kind name field require_proof = about_rule kind (unproved require_proof) (
    concat (
      name
      ∷ codes ": "
      ∷ field
      ∷ codes " binds nothing in this graph — "
      ∷ (if require_proof
          then codes "require_proof is set and an unbindable target cannot be proven absent"
          else codes "name a first-party sink it can bind, or this invariant is vacuous")
      ∷ []))

-- `none` is the nil witness.
unfoldable pub blind_from : Option BlindWitness → Str
blind_from none = []
blind_from (some w) = w.from

unfoldable pub describe : BlindWitness → BlindLocation → Str
unfolding short_name
describe w blind_at_function = concat (w.kind ∷ codes " at " ∷ short_name w.site ∷ [])
describe w blind_in_package = concat (w.kind ∷ codes " in " ∷ w.site ∷ [])
describe w blind_at_dynamic_effect = codes "unresolved boundary effect " ++ w.detail
describe w blind_at_concurrent_boundary = codes "unresolved concurrent boundary effect " ++ w.detail
describe w blind_at_concurrent_dispatch = concat (w.kind ∷ codes " at " ∷ short_name w.site ∷ [])

unfoldable pub blind_description : Option BlindWitness → Str
unfolding short_name
blind_description none = []
blind_description (some w) = describe w w.location
