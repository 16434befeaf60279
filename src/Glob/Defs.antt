-- ===== src/Glob/Defs.antt =====
-- Match of internal/glob/glob.go, and what it means for a text to match a pattern.
use verdi_go.Prelude.{
  ℕ, zero, suc, ◌+◌, ◌*◌, ◌≡◌, ◌≢◌, Bool, true, false, Option, none, some, [], ◌∷◌, length, nat_eq,
  if◌then◌else◌, Str,
}

abbrev pub star_byte : ℕ
star_byte = b'*'

-- The second loop of `Match` and its final test.
unfoldable pub only_stars : Str → Bool
only_stars [] = true
only_stars (c ∷ p) = let rest = only_stars p in if nat_eq c star_byte then rest else false

-- The last two branches of the `switch`. The text at the star is never used up there, since it is no
-- shorter than what is left of the text; `none` is the index out of range that would follow.
unfoldable pub backtrack :
    Option (Str × Str) → (Str → Str → Option (Str × Str) → Option Bool) → Option Bool
backtrack none next = some false
backtrack (some (star_p, [])) next = none
backtrack (some (star_p, c ∷ star_s)) next = next star_p star_s (some (star_p, star_s))

-- The loop over what is left of the text; `none` also means that the fuel ran out.
unfoldable pub match_loop : ℕ → Str → Str → Option (Str × Str) → Option Bool
match_loop zero p s back = none
match_loop (suc f) p [] back = some (only_stars p)
match_loop (suc f) [] (c ∷ s) back = backtrack back (match_loop f)
match_loop (suc f) (d ∷ p) (c ∷ s) back =
    let at_star = match_loop f p (c ∷ s) (some (p, c ∷ s)) in
    let same = match_loop f p s back in
    let other = backtrack back (match_loop f) in
    if nat_eq d star_byte then at_star else if nat_eq d c then same else other

unfoldable pub match : Str → Str → Option Bool
unfolding match_loop only_stars backtrack
match pattern s = match_loop ((length s + 1) * (length pattern + 1)) pattern s none

-- A star stands for any run of bytes, every other byte for itself.
pub data Matches : Str → Str → Type 0 where
  end : Matches [] []
  byte : {c : ℕ} {p s : Str} → c ≢ star_byte → Matches p s → Matches (c ∷ p) (c ∷ s)
  leave : {d : ℕ} {p s : Str} → d ≡ star_byte → Matches p s → Matches (d ∷ p) s
  take : {c d : ℕ} {p s : Str} → d ≡ star_byte → Matches (d ∷ p) s → Matches (d ∷ p) (c ∷ s)
