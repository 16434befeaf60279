-- ===== src/TierMap/Laws.antt =====
-- What the classifier decides and why (internal/tiermap/tiermap.go).
use verdi_go.Prelude.{
  ◌≡◌, refl, sym, ◌∙◌, ◌≢◌, ◌↔◌, ◌⊎◌, inl, inr, Bool, true, false, ◌&&◌, not, Option, none, some,
  [], arith, if◌then◌else◌, Bool-cases, true_ne_false, ◌==◌, eq_iff, nat_Eq, bool_Eq, list_Eq, Str,
  Str_Eq, pair_Eq,
}
use verdi_go.Glob as Glob
use verdi_go.TierMap.Defs.{Features, MatchSpec, glob_match, differs, matches}

or_false_lem :
    (r : Option Bool) → r ≢ none → ((elim r [ none ↦ false | some b ↦ b ]) ≡ true) ↔ (r ≡ some true)
or_false_lem none n = absurd (n refl)
or_false_lem (some true) n = (λ h. refl, λ h. refl)
or_false_lem (some false) n = (λ h. cc, λ h. cc)

glob_match_iff : (p s : Str) → (glob_match p s ≡ true) ↔ Glob.Matches p s
unfolding glob_match
glob_match_iff p s =
    let (answers, i) = Glob.match_iff p s in
    let j = or_false_lem (Glob.match p s) answers in (λ h. i.0 (j.0 h), λ m. j.1 (i.1 m))

-- A feature is free or as given.
abbrev pub FitsText : Str → Str → Type 0
FitsText given actual = (given ≡ []) ⊎ (given ≡ actual)

abbrev pub FitsFlag : Option Bool → Bool → Type 0
FitsFlag given actual = (given ≡ none) ⊎ (given ≡ some actual)

pub record Fits (m : MatchSpec) (f : Features) : Type 0 where
  pub boundary : FitsText m.boundary f.boundary
  pub effect : FitsText m.effect f.effect
  pub origin : FitsText m.origin f.origin
  pub fallible : FitsFlag m.fallible f.fallible
  pub concurrent : FitsFlag m.concurrent f.concurrent
  pub identity : (m.identity ≡ []) ⊎ Glob.Matches m.identity f.identity

text_lem : (a b : Str) → ((not (a == []) && not (a == b)) ≡ false) ↔ FitsText a b
text_lem a b = ground (arith, eq_iff a [], eq_iff a b)

flag_lem : (a : Option Bool) (b : Bool) → (differs a b ≡ false) ↔ FitsFlag a b
flag_lem none b = (λ h. inl refl, λ h. refl)
flag_lem (some a) b = ground arith

identity_lem :
    (p s : Str) → ((not (p == []) && not (glob_match p s)) ≡ false) ↔ ((p ≡ []) ⊎ Glob.Matches p s)
identity_lem p s = elim (Bool-cases (p == [])) [
  | inl e ↦ rw e (λ h. inl ((eq_iff p []).0 e), λ h. refl)
  | inr e ↦ elim (Bool-cases (glob_match p s)) [
    | inl m ↦ rw (e, m) (λ h. inr ((glob_match_iff p s).0 m), λ h. refl)
    | inr m ↦
        rw (e, m)
          (
            λ h. cc,
            λ h. elim h [
              | inl k ↦ absurd (true_ne_false (sym ((eq_iff p []).1 k) ∙ e))
              | inr k ↦ absurd (true_ne_false (sym ((glob_match_iff p s).1 k) ∙ m))
            ],
          )
  ]
]

-- The tests as one conjunction.
matches_lem :
    (m : MatchSpec) (f : Features)
    → (matches m f ≡ true) ↔ (
        ((not (m.boundary == []) && not (m.boundary == f.boundary)) ≡ false)
        × ((not (m.effect == []) && not (m.effect == f.effect)) ≡ false)
        × ((not (m.origin == []) && not (m.origin == f.origin)) ≡ false)
        × (differs m.fallible f.fallible ≡ false)
        × (differs m.concurrent f.concurrent ≡ false)
        × ((not (m.identity == []) && not (glob_match m.identity f.identity)) ≡ false))
unfolding matches
matches_lem m f = six_tests _ _ _ _ _ _
  where
    six_tests :
        (a b c d e g : Bool)
        → ((if a
              then false
              else if b
              then false
              else if c
              then false
              else if d
              then false
              else if e
              then false
              else if g
              then false
              else true)
            ≡ true)
          ↔ ((a ≡ false) × (b ≡ false) × (c ≡ false) × (d ≡ false) × (e ≡ false) × (g ≡ false))
    six_tests a b c d e g = ground arith

-- A rule's pattern matches exactly the features that agree with it wherever it names one, with the identity
-- read as a glob.
pub matches_iff : (m : MatchSpec) (f : Features) → (matches m f ≡ true) ↔ Fits m f
matches_iff m f =
    let i = matches_lem m f in
    (
      λ h.
          let t = i.0 h in
          record {
            boundary = (text_lem m.boundary f.boundary).0 t.0;
            effect = (text_lem m.effect f.effect).0 t.1;
            origin = (text_lem m.origin f.origin).0 t.2;
            fallible = (flag_lem m.fallible f.fallible).0 t.3;
            concurrent = (flag_lem m.concurrent f.concurrent).0 t.4;
            identity = (identity_lem m.identity f.identity).0 t.5;
          },
      λ h. i.1 (
        (text_lem m.boundary f.boundary).1 h.boundary,
        (text_lem m.effect f.effect).1 h.effect,
        (text_lem m.origin f.origin).1 h.origin,
        (flag_lem m.fallible f.fallible).1 h.fallible,
        (flag_lem m.concurrent f.concurrent).1 h.concurrent,
        (identity_lem m.identity f.identity).1 h.identity,
      ),
    )
