-- ===== src/Policy/Layers.antt =====
-- LayerOf, LayerRank and LayerNames of internal/groundwork/policy/policy.go.
use verdi_go.Prelude.{
  ℕ, ◌+◌, Bool, true, false, ◌&&◌, List, [], ◌∷◌, map, if◌then◌else◌, length, bool_Eq, ◌==◌, nat_Eq,
  list_Eq, Str, Str_Eq, pair_Eq, ℤ, above, pos, negsuc,
}
use verdi_go.Vocabulary.Matcher.{match_prefix}
use verdi_go.Policy.Types.{Layer}

-- `best, bestLen`; the length is -1 before anything is found.
pub record Best : Type 0 where
  pub name : Str
  pub size : ℤ

module _ (pkg_path : Str) where
  -- The body of the inner loop.
  unfoldable pub consider : Str → Str → Best → Best
  unfolding match_prefix
  consider name pre best =
      if match_prefix pkg_path pre && above (length pre) best.size
      then record { name = name; size = pos (length pre) }
      else best

  unfoldable pub scan_packages : Str → List Str → Best → Best
  unfolding consider
  scan_packages name [] best = best
  scan_packages name (pre ∷ pres) best = scan_packages name pres (consider name pre best)

  unfoldable pub scan_layers : List Layer → Best → Best
  unfolding scan_packages
  scan_layers [] best = best
  scan_layers (l ∷ ls) best = scan_layers ls (scan_packages l.name l.packages best)

abbrev pub no_best : Best
no_best = record { name = []; size = negsuc 0 }

-- The argument is the policy's layers.
unfoldable pub layer_of : List Layer → Str → Str
unfolding scan_layers
layer_of layers pkg_path = (scan_layers pkg_path layers no_best).name

unfoldable pub rank_from : ℕ → List Layer → Str → ℕ × Bool
rank_from i [] name = (0, false)
rank_from i (l ∷ ls) name =
    let rest = rank_from (i + 1) ls name in if l.name == name then (i, true) else rest

unfoldable pub layer_rank : List Layer → Str → ℕ × Bool
unfolding rank_from
layer_rank layers name = rank_from 0 layers name

unfoldable pub layer_names : List Layer → List Str
layer_names layers = map (λ (l : Layer). l.name) layers
