-- ===== src/Base/Decimal.antt =====
-- `big.Int.String` and `SetString(_, 10)`: decimal texts as lists of bytes.
pub mod Suffix
pub mod Prefix
use Prim.Native.Nat.{ℕ, zero, suc, ◌+◌, ◌-◌, ◌*◌, ◌/◌, ◌%◌, ◌^◌, ◌≤◌, ◌<◌}
use mathlib.Core.Path.{◌≡◌, refl, ap, ◌∙◌, sym}
use mathlib.Core.Bool.{Bool, true, false, ◌&&◌, ◌||◌}
use mathlib.Core.Option.{Option, none, some}
use mathlib.Core.List.{List, [], ◌∷◌, ◌++◌, reverse}
use native.Mathlib.Omega.{arith}
use elastos_ela_side_chain_t.Base.Tests.{ltb, leb, ◌==◌, if◌then◌else◌}
use elastos_ela_side_chain_t.Base.Lists.{Bytes, length, drop}
use elastos_ela_side_chain_t.Base.Int.{ℤ, pos, negsuc, sub_ℕ}

-- The digits of `n`, the last one first, for `n` up to the fuel; none for zero.
unfoldable pub digits : ℕ → ℕ → Bytes
digits zero n = []
digits (suc f) zero = []
digits (suc f) (suc n) = (b'0' + suc n % 10) ∷ digits f (suc n / 10)

unfoldable pub decimal : ℕ → Bytes
unfolding digits
decimal zero = b'0' ∷ []
decimal (suc n) = reverse (digits (suc n) (suc n))

-- `z.String()`
unfoldable pub to_string : ℤ → Bytes
unfolding decimal
to_string (pos n) = decimal n
to_string (negsuc n) = b'-' ∷ decimal (suc n)

abbrev pub is_digit : ℕ → Bool
is_digit c = leb b'0' c && leb c b'9'

-- One or more digits, and their value behind `n`.
unfoldable pub scan_digits : Bytes → ℕ → Option ℕ
scan_digits [] n = some n
scan_digits (c ∷ s) n =
    let rest = scan_digits s (n * 10 + (c - b'0')) in if is_digit c then rest else none

unfoldable pub parse_digits : Bytes → Option ℕ
unfolding scan_digits
parse_digits [] = none
parse_digits (c ∷ s) = scan_digits (c ∷ s) 0

-- `new(big.Int).SetString(s, 10)`: a sign, and digits.
unfoldable pub set_string : Bytes → Option ℤ
unfolding parse_digits
set_string [] = none
set_string (c ∷ s) =
    if c == b'-'
    then elim (parse_digits s) [ none ↦ none | some n ↦ some (sub_ℕ 0 n) ]
    else if c == b'+'
    then elim (parse_digits s) [ none ↦ none | some n ↦ some (pos n) ]
    else elim (parse_digits (c ∷ s)) [ none ↦ none | some n ↦ some (pos n) ]

-- The text, or its last `k` bytes: `value[len(value)-k:]`.
abbrev pub last_digits : ℕ → Bytes → Bytes
last_digits k s = if leb (length s) k then s else drop (length s - k) s

decimal_max : to_string (negsuc 1023) ≡ b'-' ∷ b'1' ∷ b'0' ∷ b'2' ∷ b'4' ∷ []
unfolding to_string
decimal_max = refl

decimal_big : set_string (to_string (negsuc (10 ^ 25))) ≡ some (negsuc (10 ^ 25))
unfolding to_string set_string
decimal_big = refl
