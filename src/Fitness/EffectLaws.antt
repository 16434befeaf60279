-- ===== src/Fitness/EffectLaws.antt =====
-- The three readings of an effect label exclude one another (internal/groundwork/fitness/budget.go).
use verdi_go.Prelude.{
  ◌≡◌, refl, sym, subst, inl, inr, true, false, none, some, List, [], ◌∷◌, arith, Bool-cases,
  true_ne_false, bool_Eq, ◌==◌, eq_iff, nat_Eq, list_eq, list_Eq, Str, Str_Eq, fields, pair_Eq,
}
use verdi_go.Vocabulary.Verbs.{kind_db, is_method_named}
use verdi_go.Graph.Types.{Edge}
use verdi_go.Fitness.Effects.{
  label, method_named_effect, writes_by, is_write, write_label, unclassified_op,
  unclassified_db_label, unclassified_effect_label,
}

-- A method-named kind is no database.
method_named-db : (kind : Str) → is_method_named kind ≡ true → (kind == kind_db) ≡ false
unfolding is_method_named list_eq
method_named-db kind h = elim (Bool-cases (kind == kind_db)) [
  | inr e ↦ e
  | inl e ↦
      absurd
        (true_ne_false (sym (subst (λ k. is_method_named k ≡ true) ((eq_iff kind kind_db).0 e) h)))
]

-- An operation that the budget cannot read does not read as a write.
unclassified-writes : (f : List Str) → unclassified_op f ≡ true → writes_by f ≡ false
unfolding unclassified_op writes_by
unclassified-writes [] h = refl
unclassified-writes (s ∷ []) h = refl
unclassified-writes (s ∷ op ∷ rest) h = ground arith

method_named-unclassified :
    (f : List Str) → method_named_effect f ≡ true → unclassified_op f ≡ false
unfolding method_named_effect unclassified_op
method_named-unclassified [] h = refl
method_named-unclassified (s ∷ []) h = refl
method_named-unclassified (s ∷ op ∷ []) h = ground (arith, method_named-db s h)
method_named-unclassified (s ∷ op ∷ t ∷ rest) h = cc

-- An effect that reads as a write is no unclassified effect of either kind.
pub write_label-exclusive :
    (e : Edge) (l : Str)
    → write_label e ≡ some l
    → (unclassified_db_label e ≡ none) × (unclassified_effect_label e ≡ none)
unfolding write_label is_write unclassified_db_label unclassified_effect_label
write_label-exclusive e l h = (ground (arith, unclassified-writes (fields (label e))), ground arith)

-- An unclassified effect of a method-named kind is no unclassified database effect.
pub unclassified_effect_label-exclusive :
    (e : Edge) (l : Str) → unclassified_effect_label e ≡ some l → unclassified_db_label e ≡ none
unfolding unclassified_db_label unclassified_effect_label
unclassified_effect_label-exclusive e l h =
    ground (arith, method_named-unclassified (fields (label e)))
