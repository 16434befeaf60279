-- ===== src/Fitness/Liveness.antt =====
-- The audit of the rules' patterns (internal/groundwork/fitness/liveness.go).
use verdi_go.Prelude.{
  ℕ, Bool, true, false, ◌&&◌, not, List, [], ◌∷◌, ◌++◌, map, ltb, if◌then◌else◌, length, any, keep,
  flat_map, bool_Eq, ◌==◌, nat_Eq, contains, list_Eq, Str, codes, Str_Eq, str_lt, sort_by, pair_Eq,
  Format, concat,
}
use verdi_go.Graph.Types.{Edge, is_boundary}
use verdi_go.Graph.Index.{Index, nodes, sources}
use verdi_go.Graph.Surface
use verdi_go.Facts.Match.{entrypoint_selector}
use verdi_go.Policy.Types.{Policy, ReachRule, PassRule, ConcurrentRule}
use verdi_go.Policy.Validate.{
  must_not_reach_kind, must_pass_through_kind, no_concurrent_reach_kind, from_field, to_field,
  through_field,
}
use verdi_go.Fitness.Names.{match_any}

pub record PatternLiveness : Type 0 where
  pub source : Str
  pub field : Str
  pub pattern : Str
  pub dead : Bool
  pub info : Bool

-- The loop that collects each boundary label once.
unfoldable pub boundary_labels : List Str → List Edge → List Str
unfolding is_boundary contains
boundary_labels seen [] = []
boundary_labels seen (e ∷ es) =
    let old = boundary_labels seen es in
    let new = e.to ∷ boundary_labels (e.to ∷ seen) es in
    if is_boundary e && not (contains e.to seen) then new else old

unfoldable pub node_live : Index → Str → Bool
unfolding nodes sources match_any
node_live ix pat =
    if pat == entrypoint_selector
    then ltb 0 (length (sources ix))
    else any (λ fqn. match_any fqn (pat ∷ [])) (nodes ix)

unfoldable pub target_live : Index → Str → Bool
unfolding node_live boundary_labels Surface.edges match_any
target_live ix pat =
    if node_live ix pat
    then true
    else any (λ l. match_any l (pat ∷ [])) (boundary_labels [] (Surface.edges ix))

-- The closure `add`.
unfoldable pub add_entries : Str → Str → List Str → (Str → Bool) → Bool → List PatternLiveness
add_entries source field pats live info =
    map
      (λ pat. record {
        source = source;
        field = field;
        pattern = pat;
        dead = not (live pat);
        info = info;
      })
      pats

unfoldable pub liveness_less : PatternLiveness → PatternLiveness → Bool
unfolding str_lt
liveness_less a b =
    if not (a.source == b.source)
    then str_lt a.source b.source
    else if not (a.field == b.field)
    then str_lt a.field b.field
    else str_lt a.pattern b.pattern

unfoldable pub pattern_entries : Policy → Index → List PatternLiveness
unfolding node_live target_live add_entries
pattern_entries p ix =
    flat_map
      (λ (r : ReachRule).
        let source = must_not_reach_kind ++ codes ":" ++ r.name in
        add_entries source from_field r.from (node_live ix) false
        ++ add_entries source to_field r.to (target_live ix) true)
      p.must_not_reach
    ++ (flat_map
          (λ (r : PassRule).
            let source = must_pass_through_kind ++ codes ":" ++ r.name in
            add_entries source from_field r.from (node_live ix) false
            ++ (add_entries source through_field r.through (node_live ix) false
                ++ add_entries source to_field r.to (target_live ix) true))
          p.must_pass_through
        ++ flat_map
            (λ (r : ConcurrentRule).
              add_entries (no_concurrent_reach_kind ++ codes ":" ++ r.name) to_field r.to
                (target_live ix) true)
            p.no_concurrent_reach)

unfoldable pub liveness : Policy → Index → List PatternLiveness
unfolding pattern_entries sort_by liveness_less
liveness p ix = sort_by liveness_less (pattern_entries p ix)

unfoldable pub dead_pattern_count : List PatternLiveness → ℕ
dead_pattern_count ls = length (keep (λ (l : PatternLiveness). l.dead && not l.info) ls)

unfoldable pub pattern_string : Format → PatternLiveness → Str
pattern_string format l =
    let state =
      if l.dead && l.info then codes "INFO" else if l.dead then codes "DEAD" else codes "LIVE" in
    concat (
      codes "["
      ∷ state
      ∷ codes "] "
      ∷ l.source
      ∷ codes " "
      ∷ l.field
      ∷ codes " "
      ∷ format.quoted l.pattern
      ∷ (if l.dead && l.info
          then codes
              " — matches nothing (may be success: the forbidden thing is absent — or a renamed target)"
          else if l.dead
          then codes " — binds nothing"
          else [])
      ∷ [])
