-- ===== src/Glob/Decides.antt =====
-- The matching loop of internal/glob/glob.go decides `Matches`: what a saved star stands for, and why
-- the fuel is enough.
use verdi_go.Prelude.{
  ℕ, zero, suc, ◌+◌, ◌*◌, ◌≤◌, ◌<◌, ◌≡◌, refl, ◌≢◌, ◌↔◌, Bool, true, false, Option, none, some, [],
  ◌∷◌, subst, sym, inl, inr, arith, length, nat_eq, nat_eq_iff, Bool-cases, Str,
}
use verdi_go.Glob.Defs.{
  star_byte, only_stars, backtrack, match_loop, match, Matches, end, byte, leave, take,
}

-- The run ended, and its answer about `G` is right.
abbrev pub Answers : Type 0 → Option Bool → Type 0
Answers G none = ⊥
Answers G (some true) = G
Answers G (some false) = ¬ G

only_stars-Matches : (p : Str) → only_stars p ≡ true → Matches p []
unfolding only_stars
only_stars-Matches [] h = end
only_stars-Matches (c ∷ p) h = elim (Bool-cases (nat_eq c star_byte)) [
  | inl e ↦ leave ((nat_eq_iff c star_byte).0 e) (only_stars-Matches p (ground arith))
  | inr e ↦ absurd (no_star e h)
]
  where
    no_star : nat_eq c star_byte ≡ false → only_stars (c ∷ p) ≡ true → ⊥
    no_star e h = ground arith

Matches-only_stars : {p : Str} → Matches p [] → only_stars p ≡ true
unfolding only_stars
Matches-only_stars end = refl
Matches-only_stars (leave {d} {p} e m) = ground (arith, Matches-only_stars m)

stars-Answers : (G : Type 0) (p : Str) → G ↔ Matches p [] → Answers G (some (only_stars p))
stars-Answers G p e = elim (Bool-cases (only_stars p)) [
  | inl h ↦ rw h (e.1 (only_stars-Matches p h))
  | inr h ↦ rw h (λ g. cc (h, Matches-only_stars (e.0 g)))
]

byte_inv : {c d : ℕ} {p s : Str} → d ≢ star_byte → Matches (d ∷ p) (c ∷ s) → (d ≡ c) × Matches p s
byte_inv n (byte m d) = (refl, d)
byte_inv n (leave e d) = absurd (n e)
byte_inv n (take e d) = absurd (n e)

-- A star that cannot be left must take the next byte.
take_inv :
    {c d : ℕ} {p s : Str}
    → Matches (d ∷ p) (c ∷ s)
    → d ≡ star_byte
    → ¬ Matches p (c ∷ s)
    → Matches (d ∷ p) s
take_inv (byte n m) e no_match = absurd (n e)
take_inv (leave _ m) e no_match = absurd (no_match m)
take_inv (take _ m) e no_match = m

at_end : {d : ℕ} {p : Str} → d ≡ star_byte → Matches (d ∷ p) [] → Matches p []
at_end e (leave _ m) = m

-- Two stars in a row are one.
merge_stars :
    {d d' : ℕ} {p s : Str}
    → Matches (d ∷ d' ∷ p) s
    → d ≡ star_byte
    → d' ≡ star_byte
    → Matches (d' ∷ p) s
merge_stars (byte n m) e e' = absurd (n e)
merge_stars (leave _ m) e e' = m
merge_stars (take _ m) e e' = take e' (merge_stars m e e')

-- Behind a star a byte that fits may be matched at once: the star can move past it later.
pass_byte :
    {x d c : ℕ} {p : Str} (s : Str)
    → x ≡ star_byte
    → d ≢ star_byte
    → Matches (x ∷ d ∷ p) (c ∷ s)
    → Matches (x ∷ p) s
pass_byte s e n (byte bad m) = absurd (bad e)
pass_byte s e n (leave _ m) = leave e (byte_inv n m).1
pass_byte [] e n (take _ (leave _ (leave bad m))) = absurd (n bad)
pass_byte (c ∷ s) e n (take _ m) = take e (pass_byte s e n m)

-- The loop's invariant for a question `G`, with `k` above every pattern's length.
module _ (G : Type 0) (k : ℕ) where
  -- What is known of the star saved last: `G` asks whether the pattern from it matches, and a match
  -- right behind it would go on through what has been matched since.
  abbrev Saved : ℕ → Str → Str → Option (Str × Str) → Type 0
  Saved n p s none = G → Matches p s
  Saved n p s (some (q, t)) =
      (G ↔ Matches (star_byte ∷ q) t)
      × (Matches q t → Matches p s)
      × (length s ≤ length t)
      × (length t ≤ n)
      × (length q < k)

  record Holds (f n : ℕ) (p s : Str) (back : Option (Str × Str)) : Type 0 where
    sound : Matches p s → G
    reach : G → Matches (star_byte ∷ p) s
    saved : Saved n p s back
    text_left : length s ≤ n
    pattern_left : length p < k
    fuel_left : n * k + length p < f

  restart :
      {f n : ℕ} {q t : Str}
      → G ↔ Matches (star_byte ∷ q) t
      → length t ≤ n
      → length q < k
      → n * k + length q < f
      → Holds f n q t (some (q, t))
  restart e ht hq hf = record {
    sound = λ m. e.1 (leave refl m);
    reach = e.0;
    saved = (e, λ m. m, omega arith, ht, hq);
    text_left = ht;
    pattern_left = hq;
    fuel_left = hf;
  }

  Saved-step :
      (n : ℕ) (d c : ℕ) (p s : Str) (back : Option (Str × Str))
      → d ≢ star_byte
      → Saved n (d ∷ p) (c ∷ s) back
      → Saved n p s back
  Saved-step n d c p s none e h = λ g. (byte_inv e (h g)).1
  Saved-step n d c p s (some (q, t)) e (iff, through, shorter, ht, hq) =
      (iff, λ m. (byte_inv e (through m)).1, omega arith, ht, hq)

  Holds-step :
      {f n d c : ℕ} {p s : Str} {back : Option (Str × Str)}
      → Holds (suc f) n (d ∷ p) (c ∷ s) back
      → d ≢ star_byte
      → d ≡ c
      → Holds f n p s back
  Holds-step {f} {n} {d} {c} {p} {s} {back} h e same = record {
    sound = λ m. h.sound (subst (λ x. Matches (d ∷ p) (x ∷ s)) same (byte e m));
    reach = λ g. pass_byte s refl e (h.reach g);
    saved = Saved-step n d c p s back e h.saved;
    text_left = omega arith;
    pattern_left = omega arith;
    fuel_left = omega arith;
  }

  -- A mismatch: the saved star takes one byte more.
  backtrack-Answers :
      {f c : ℕ} {p s : Str} (n : ℕ) (back : Option (Str × Str))
      (next : Str → Str → Option (Str × Str) → Option Bool)
      → ((n' : ℕ) (p' s' : Str) (b : Option (Str × Str))
          → Holds f n' p' s' b
          → Answers G (next p' s' b))
      → Holds (suc f) n p (c ∷ s) back
      → ¬ Matches p (c ∷ s)
      → Answers G (backtrack back next)
  unfolding backtrack
  backtrack-Answers n none next ih h no_match = λ g. no_match (h.saved g)
  backtrack-Answers n (some (q, [])) next ih h no_match = omega arith
  backtrack-Answers zero (some (q, x ∷ t)) next ih h no_match = absurd (omega arith)
  backtrack-Answers (suc n) (some (q, x ∷ t)) next ih h no_match =
      let (iff, through, _, _, _) = h.saved in
      ih n q t (some (q, t)) (
        restart (λ g. take_inv (iff.0 g) refl (λ m. no_match (through m)), λ m. iff.1 (take refl m))
          (omega arith) (omega arith) (omega arith))

  loop-Answers :
      (f n : ℕ) (p s : Str) (back : Option (Str × Str))
      → Holds f n p s back
      → Answers G (match_loop f p s back)
  unfolding match_loop
  loop-Answers zero n p s back h = omega arith
  loop-Answers (suc f) n p [] back h = stars-Answers G p (λ g. at_end refl (h.reach g), h.sound)
  loop-Answers (suc f) n [] (c ∷ s) back h =
      backtrack-Answers n back (match_loop f) (loop-Answers f) h λ m. elim m [ ]
  loop-Answers (suc f) n (d ∷ p) (c ∷ s) back h = elim (Bool-cases (nat_eq d star_byte)) [
    | inl e ↦
        rw e (loop-Answers f n p (c ∷ s) (some (p, c ∷ s)) (on_star ((nat_eq_iff d star_byte).0 e)))
    | inr e ↦ elim (Bool-cases (nat_eq d c)) [
      | inl e' ↦
          rw (e, e') (loop-Answers f n p s back (Holds-step h (not_star e) ((nat_eq_iff d c).0 e')))
      | inr e' ↦
          rw (e, e')
            (backtrack-Answers n back (match_loop f) (loop-Answers f) h
              λ m. cc (e', (nat_eq_iff d c).1 (byte_inv (not_star e) m).0))
    ]
  ]
    where
      not_star : nat_eq d star_byte ≡ false → d ≢ star_byte
      not_star e p = cc (e, (nat_eq_iff d star_byte).1 p)

      on_star : d ≡ star_byte → Holds f n p (c ∷ s) (some (p, c ∷ s))
      on_star e =
          restart
            (
              λ g. subst (λ x. Matches (x ∷ p) (c ∷ s)) e (merge_stars (h.reach g) refl e),
              λ m. h.sound (subst (λ x. Matches (x ∷ p) (c ∷ s)) (sym e) m),
            )
            h.text_left (omega arith) (omega arith)

match-Answers : (p s : Str) → Answers (Matches p s) (match p s)
unfolding match
match-Answers p s = loop-Answers (Matches p s) (length p + 1) _ (length s) p s none (record {
  sound = λ m. m;
  reach = leave refl;
  saved = λ m. m;
  text_left = omega arith;
  pattern_left = omega arith;
  fuel_left = omega arith;
})

Answers-iff : (G : Type 0) (r : Option Bool) → Answers G r → (r ≢ none) × ((r ≡ some true) ↔ G)
Answers-iff G none a = absurd a
Answers-iff G (some true) a = (λ e. cc, (λ e. a, λ g. refl))
Answers-iff G (some false) a = (λ e. cc, (λ e. cc, λ g. absurd (a g)))

-- The matcher always answers, within its fuel and without reading out of range, and it accepts
-- exactly the texts that match the pattern.
pub match_iff : (p s : Str) → (match p s ≢ none) × ((match p s ≡ some true) ↔ Matches p s)
match_iff p s = Answers-iff (Matches p s) (match p s) (match-Answers p s)
