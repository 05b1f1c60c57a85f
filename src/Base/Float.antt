-- ===== src/Base/Float.antt =====
-- The two float64 operations that the source applies to amounts, in exact integer arithmetic.
use Prim.Native.Nat.{ℕ, zero, suc, ◌+◌, ◌-◌, ◌*◌, ◌/◌, ◌%◌, ◌^◌}
use mathlib.Core.Bool.{true, false}
use mathlib.Core.Path.{◌≡◌, refl}
use elastos_ela_side_chain_t.Base.Tests.{ltb, ◌==◌, if◌then◌else◌}
use elastos_ela_side_chain_t.Base.Int.{ℤ, pos, negsuc}

-- The number of binary digits of `n`, as far as the fuel goes.
unfoldable pub bit_length : ℕ → ℕ → ℕ
bit_length zero n = 0
bit_length (suc f) n = elim (n == 0) [ true ↦ 0 | false ↦ suc (bit_length f (n / 2)) ]

-- `n / 2 ^ k` rounded to the nearest integer, a tie to the even one.
unfoldable pub round_shift : ℕ → ℕ → ℕ
round_shift n zero = n
round_shift n (suc k) =
    let q = n / 2 ^ suc k in
    let r = n % 2 ^ suc k in if ltb r (2 ^ k) then q else if ltb (2 ^ k) r then q + 1 else q + q % 2

-- `n` rounded to the 53 significant bits of a float64, for `n` below 2 ^ 128.
unfoldable pub round_float : ℕ → ℕ
unfolding bit_length round_shift
round_float n = let k = bit_length 128 n - 53 in round_shift n k * 2 ^ k

-- `int64(float64(n) * 0.3)`: the float64 next to 0.3 is 5404319552844595 / 2 ^ 54, both roundings
-- are to nearest even, and the conversion drops the fraction.
unfoldable pub thirty_percent_abs : ℕ → ℕ
unfolding round_float
thirty_percent_abs n = round_float (round_float n * 5404319552844595) / 2 ^ 54

-- The same on signed amounts: float64 rounding and the conversion are symmetric about zero.
unfoldable pub thirty_percent : ℤ → ℤ
unfolding thirty_percent_abs
thirty_percent (pos n) = pos (thirty_percent_abs n)
thirty_percent (negsuc n) =
    let m = thirty_percent_abs (suc n) in if m == 0 then pos 0 else negsuc (m - 1)

thirty_percent_of_ten : thirty_percent (pos 10) ≡ pos 3
unfolding thirty_percent
thirty_percent_of_ten = refl

thirty_percent_of_nine : thirty_percent (pos 9) ≡ pos 2
unfolding thirty_percent
thirty_percent_of_nine = refl

thirty_percent_of_max : thirty_percent (pos (2 ^ 63 - 1)) ≡ pos 2767011611056432640
unfolding thirty_percent
thirty_percent_of_max = refl
