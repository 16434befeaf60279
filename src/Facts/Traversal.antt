-- ===== src/Facts/Traversal.antt =====
-- The level-by-level search with its parent map: nextLevel, canonicalCone and reconstructPath of
-- internal/groundwork/facts/reach.go, and GuardedWalk of passthrough.go. The newest entry of the parent
-- map stands first; an entry is never written twice.
use verdi_go.Prelude.{
  ℕ, zero, suc, Bool, false, ◌||◌, not, none, some, List, [], ◌∷◌, ◌++◌, if◌then◌else◌, length,
  keep, ◌==◌, nat_Eq, bool_Eq, contains, list_Eq, Str, Str_Eq, sort_strings, pair_Eq, lookup, keys,
}
use verdi_go.Graph.Index.{Index}
use verdi_go.Graph.Index as GraphIndex
use verdi_go.Facts.Match.{matches_any}

abbrev pub ParentMap : Type 0
ParentMap = List (Str × Str)

-- One step of the search: callees that have been seen, or that may not be entered, are passed over.
module _ (blocked : Str → Bool) where
  unfoldable pub offer_callees : Str → List Str → ParentMap → List Str → ParentMap × List Str
  unfolding contains
  offer_callees from [] parent next = (parent, next)
  offer_callees from (to ∷ tos) parent next =
      let skipped = offer_callees from tos parent next in
      let entered = offer_callees from tos ((to, from) ∷ parent) (next ++ to ∷ []) in
      if contains to (keys parent) || blocked to then skipped else entered

  module _ (callees : Str → List Str) where
    unfoldable pub level_from : List Str → ParentMap → List Str → ParentMap × List Str
    unfolding offer_callees
    level_from [] parent next = (parent, next)
    level_from (from ∷ current) parent next =
        let (parent', next') = offer_callees from (callees from) parent next in
        level_from current parent' next'

    unfoldable pub next_level : List Str → ParentMap → ParentMap × List Str
    unfolding level_from
    next_level current parent = level_from current parent []

    -- `for len(current) > 0`
    unfoldable pub levels : ℕ → ParentMap → List Str → ParentMap
    unfolding next_level
    levels zero parent current = parent
    levels (suc fuel) parent [] = parent
    levels (suc fuel) parent (c ∷ current) =
        let (parent', next) = next_level (c ∷ current) parent in levels fuel parent' next

-- Every level but the first enters a function that an edge leads to.
abbrev pub level_fuel : Index → ℕ
level_fuel ix = suc (suc (length ix.g.edges))

abbrev pub no_parent : Str → ParentMap
no_parent source = (source, []) ∷ []

-- The parent map of `searchFrom`.
unfoldable pub search_tree : Index → Str → ParentMap
unfolding levels GraphIndex.callees
search_tree ix source =
    levels (λ _. false) (GraphIndex.callees ix) (level_fuel ix) (no_parent source) (source ∷ [])

unfoldable pub canonical_cone : Str → ParentMap → List Str
unfolding sort_strings
canonical_cone source parent = source ∷ sort_strings (keep (λ fn. not (fn == source)) (keys parent))

-- `parent[current]`: the empty string where there is no entry.
abbrev pub parent_of : Str → ParentMap → Str
parent_of current parent = elim (lookup current parent) [ none ↦ [] | some from ↦ from ]

-- The parent chain from `current` back to `source`, put in front of what has been collected. The source
-- of a search is met within as many steps as the map has entries.
unfoldable pub path_onto : ℕ → ParentMap → Str → Str → List Str → List Str
unfolding lookup
path_onto zero parent source current path = []
path_onto (suc fuel) parent source current path =
    let up = path_onto fuel parent source (parent_of current parent) (current ∷ path) in
    if current == source then current ∷ path else up

unfoldable pub reconstruct_path : ParentMap → Str → Str → List Str
unfolding path_onto
reconstruct_path parent source target = path_onto (length parent) parent source target []

unfoldable pub guarded_tree : Index → Str → List Str → ParentMap
unfolding levels GraphIndex.callees matches_any
guarded_tree ix from through =
    levels (λ candidate. matches_any candidate through) (GraphIndex.callees ix) (level_fuel ix)
      (no_parent from) (from ∷ [])

unfoldable pub guarded_walk : Index → Str → List Str → List Str × ParentMap
unfolding guarded_tree sort_strings
guarded_walk ix from through =
    let parent = guarded_tree ix from through in (sort_strings (keys parent), parent)
