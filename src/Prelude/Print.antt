-- ===== src/Prelude/Print.antt =====
-- Integers, and the pieces of packages strings and fmt that findings are written with.
use Prim.Native.Nat.{ℕ, ◌-◌}
use mathlib.Core.Bool.{Bool, true, false, ◌&&◌}
use mathlib.Core.List.{List, [], ◌∷◌, ◌++◌}
use verdi_go.Prelude.Tests.{if◌then◌else◌, leb, nat_eq, ltb}
use verdi_go.Prelude.Lists.{length, drop, keep}
use verdi_go.Prelude.Equality.{◌==◌, nat_Eq, list_Eq}
use verdi_go.Prelude.Text.{Str}

-- `negsuc n` is -(n + 1).
pub data ℤ : Type 0 where
  pos : ℕ → ℤ
  negsuc : ℕ → ℤ

abbrev pub is_zero : ℤ → Bool
is_zero (pos n) = nat_eq n 0
is_zero (negsuc n) = false

abbrev pub is_negative : ℤ → Bool
is_negative (pos n) = false
is_negative (negsuc n) = true

-- `max < n` for a length `n`.
abbrev pub above : ℕ → ℤ → Bool
above n (pos max) = ltb max n
above n (negsuc k) = true

-- The verbs `%d` and `%q`.
pub record Format : Type 0 where
  pub decimal : ℤ → Str
  pub quoted : Str → Str

-- strings.ToUpper on ASCII
abbrev pub upper_byte : ℕ → ℕ
upper_byte c = if leb b'a' c && leb c b'z' then c - 32 else c

abbrev pub upper : Str → Str
upper [] = []
upper (c ∷ s) = upper_byte c ∷ upper s

-- strings.HasSuffix
unfoldable pub has_suffix : Str → Str → Bool
has_suffix s p = leb (length p) (length s) && (drop (length s - length p) s == p)

-- strings.ReplaceAll by the empty string, for one byte
abbrev pub delete_byte : ℕ → Str → Str
delete_byte b s = keep (λ c. if nat_eq c b then false else true) s

-- strings.Join
unfoldable pub join : Str → List Str → Str
join separator [] = []
join separator (s ∷ []) = s
join separator (s ∷ t ∷ rest) = s ++ (separator ++ join separator (t ∷ rest))

-- The pieces of a message, one after the other.
abbrev pub concat : List Str → Str
concat [] = []
concat (s ∷ pieces) = s ++ concat pieces
