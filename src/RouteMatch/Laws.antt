-- ===== src/RouteMatch/Laws.antt =====
-- The tolerance of the route matcher: symmetry, mount prefixes, params.
use verdi_go.Prelude.{
  ℕ, suc, ◌-◌, ◌≤◌, ◌≡◌, refl, sym, ap, ◌∙◌, ◌≢◌, ◌↔◌, ◌⊎◌, inl, inr, true, false, List, [], ◌∷◌,
  ◌++◌, arith, ltb, Bool-cases, length, take, drop, length-append, length-drop, take-append-drop,
  drop-append, ◌==◌, eq_iff, nat_Eq, bool_Eq, list_Eq, Str, Str_Eq, equal_fold_comm,
}
use verdi_go.RouteMatch.Defs.{
  route_seg_eq, segs_eq, align, route_segs_match, routes_match, split_route, match, is_param_seg,
}

str_eq_comm : (x y : Str) → (x == y) ≡ (y == x)
str_eq_comm x y = ground (arith, eq_iff x y, eq_iff y x)

route_seg_eq_comm : (x y : Str) → route_seg_eq x y ≡ route_seg_eq y x
unfolding route_seg_eq
route_seg_eq_comm x y = ground (arith, str_eq_comm x y)

segs_eq_comm : (xs ys : List Str) → length xs ≡ length ys → segs_eq xs ys ≡ segs_eq ys xs
unfolding segs_eq
segs_eq_comm [] [] e = refl
segs_eq_comm [] (y ∷ ys) e = absurd (omega arith)
segs_eq_comm (x ∷ xs) [] e = absurd (omega arith)
segs_eq_comm (x ∷ xs) (y ∷ ys) e = ground (arith, route_seg_eq_comm x y, segs_eq_comm xs ys)

drop-zero {ℓ} : {A : Type ℓ} (n : ℕ) (xs : List A) → n ≡ 0 → drop n xs ≡ xs
drop-zero n xs e = rw e refl

align-same_length : (xs ys : List Str) → length xs ≡ length ys → align xs ys ≡ segs_eq xs ys
unfolding align segs_eq
align-same_length [] [] e = refl
align-same_length [] (y ∷ ys) e = absurd (omega arith)
align-same_length (x ∷ xs) ys e = ap (segs_eq (x ∷ xs)) (drop-zero _ ys (omega arith))

align_comm : (xs ys : List Str) → length xs ≡ length ys → align xs ys ≡ align ys xs
align_comm xs ys e =
    align-same_length xs ys e ∙ segs_eq_comm xs ys e ∙ sym (align-same_length ys xs (sym e))

-- The alignment is symmetric: it does not matter which side is the registration.
route_segs_match_comm : (a b : List Str) → route_segs_match a b ≡ route_segs_match b a
unfolding route_segs_match
route_segs_match_comm a b = elim (Bool-cases (ltb (length b) (length a))) [
  | inl p ↦ let q : ltb (length a) (length b) ≡ false = ground arith in rw (p, q) refl
  | inr p ↦ elim (Bool-cases (ltb (length a) (length b))) [
    | inl q ↦ rw (p, q) refl
    | inr q ↦ rw (p, q) (align_comm a b (ground arith))
  ]
]

routes_match_comm : (e q : Str × List Str) → routes_match e q ≡ routes_match q e
unfolding routes_match
routes_match_comm (em, es) (qm, qs) =
    ground (arith, equal_fold_comm em qm, route_segs_match_comm es qs)

-- The matcher is symmetric in the registration and the query, on every pair of names.
pub match_comm : (entry_name query : Str) → match entry_name query ≡ match query entry_name
unfolding match
match_comm entry_name query = routes_match_comm (split_route entry_name) (split_route query)

-- Segment by segment: the same text, or a param on either side.
pub data SegsAgree : List Str → List Str → Type 0 where
  none_left : SegsAgree [] []
  agree :
      {x y : Str} {xs ys : List Str}
      → (is_param_seg x ≡ true) ⊎ (is_param_seg y ≡ true) ⊎ (x ≡ y)
      → SegsAgree xs ys
      → SegsAgree (x ∷ xs) (y ∷ ys)

route_seg_eq_iff :
    (x y : Str)
    → (route_seg_eq x y ≡ true) ↔ ((is_param_seg x ≡ true) ⊎ (is_param_seg y ≡ true) ⊎ (x ≡ y))
unfolding route_seg_eq
route_seg_eq_iff x y = ground (arith, eq_iff x y)

segs_eq-SegsAgree :
    (xs ys : List Str) → length xs ≡ length ys → segs_eq xs ys ≡ true → SegsAgree xs ys
unfolding segs_eq
segs_eq-SegsAgree [] [] e h = none_left
segs_eq-SegsAgree [] (y ∷ ys) e h = absurd (omega arith)
segs_eq-SegsAgree (x ∷ xs) [] e h = absurd (omega arith)
segs_eq-SegsAgree (x ∷ xs) (y ∷ ys) e h =
    agree ((route_seg_eq_iff x y).0 (ground arith))
      (segs_eq-SegsAgree xs ys (omega arith) (ground arith))

SegsAgree-segs_eq : {xs ys : List Str} → SegsAgree xs ys → segs_eq xs ys ≡ true
unfolding segs_eq
SegsAgree-segs_eq none_left = refl
SegsAgree-segs_eq (agree {x} {y} h rest) =
    ground (arith, (route_seg_eq_iff x y).1 h, SegsAgree-segs_eq rest)

SegsAgree-length : {xs ys : List Str} → SegsAgree xs ys → length xs ≡ length ys
SegsAgree-length none_left = refl
SegsAgree-length (agree h rest) = ap suc (SegsAgree-length rest)

-- The shorter list agrees with the tail of the longer behind a mount prefix; an empty one has no
-- mount, and stands for the bare root.
pub data Mounted (short long : List Str) : Type 0 where
  root : short ≡ [] → long ≡ [] → Mounted short long
  under :
      (mount tail : List Str)
      → short ≢ []
      → long ≡ mount ++ tail
      → SegsAgree short tail
      → Mounted short long

align-Mounted :
    (short long : List Str)
    → length short ≤ length long
    → align short long ≡ true
    → Mounted short long
unfolding align
align-Mounted [] [] le h = root refl refl
align-Mounted [] (y ∷ ys) le h = cc
align-Mounted (x ∷ xs) long le h =
    let n : ℕ = length long - suc (length xs) in
    under (take n long) (drop n long) (λ e. cc) (sym (take-append-drop n long))
      (segs_eq-SegsAgree (x ∷ xs) (drop n long) (omega (arith, length-drop n long)) h)

Mounted-align : (short long : List Str) → Mounted short long → align short long ≡ true
unfolding align
Mounted-align [] [] m = refl
Mounted-align [] (y ∷ ys) (root e e') = cc
Mounted-align [] (y ∷ ys) (under mount tail n e agrees) = absurd (n refl)
Mounted-align (x ∷ xs) long (root e e') = cc
Mounted-align (x ∷ xs) long (under mount tail n e agrees) =
    let at_mount : length long - suc (length xs) ≡ length mount =
      omega (arith, SegsAgree-length agrees, ap length e, length-append mount tail) in
    rw (at_mount, e, drop-append mount tail) (SegsAgree-segs_eq agrees)

-- Of two segment lists the one that is not longer matches exactly when it agrees, segment by segment
-- and with params as wildcards, with the tail of the other behind some mount prefix; the empty list
-- matches the empty list only.
pub route_segs_match_iff :
    (short long : List Str)
    → length short ≤ length long
    → (route_segs_match short long ≡ true) ↔ Mounted short long
unfolding route_segs_match
route_segs_match_iff short long le =
    let ordered : ltb (length long) (length short) ≡ false = ground arith in
    (
      λ h. align-Mounted short long le (rw ordered at h),
      λ m. rw ordered (Mounted-align short long m),
    )
