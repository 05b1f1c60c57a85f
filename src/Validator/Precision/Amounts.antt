-- ===== src/Validator/Precision/Amounts.antt =====
-- The decimal text of `checkTokenAmountPrecise` computes a remainder.
use elastos_ela_side_chain_t.Base.{
  ℕ, zero, suc, ℤ, pos, negsuc, ◌+◌, ◌-◌, ◌%◌, ◌^◌, ◌≤◌, ◌<◌, ◌≡◌, refl, [], ◌∷◌, Bytes, some, ◌==◌,
  nat_abs, sub_ℕ, wrap_int64, wrap_int64-eq, IsInt64, decimal, to_string, parse_digits, scan_digits,
  set_string, last_digits, ok, arith, inl, inr, Bool-cases, leb, length, true, false,
}
use elastos_ela_side_chain_t.Base.Decimal.Suffix.{parse_digits-last_digits}
use Prim.Native.Nat.{◌∣◌}
use native.Mathlib.Nat.{one-le-pow, pow-suc, dvd_refl, dvd-mul_right_of_dvd, mod-mod_of_dvd}
use native.Mathlib.Decide.{dec_lt}
use elastos_ela_side_chain_t.Library.{Library}
use elastos_ela_side_chain_t.Validator.Precision.{
  is_multiple, pow10_int64, check_amount_precise, check_token_amount_precise,
}

set_string-parse_digits :
    (s : Bytes) {n : ℕ} → parse_digits s ≡ some n → set_string s ≡ some (pos n)
unfolding set_string parse_digits scan_digits
set_string-parse_digits [] e = cc
set_string-parse_digits (c ∷ s) e = ground arith

set_string-minus :
    (s : Bytes) {n : ℕ} → parse_digits s ≡ some n → set_string (b'-' ∷ s) ≡ some (sub_ℕ 0 n)
unfolding set_string
set_string-minus s e = rw e

nat_abs-sub_ℕ : (n : ℕ) → nat_abs (sub_ℕ 0 n) ≡ n
nat_abs-sub_ℕ n = ground arith

last_digits-minus_short :
    (k : ℕ) (s : Bytes)
    → length s < suc k
    → last_digits (suc k) (b'-' ∷ s) ≡ b'-' ∷ last_digits (suc k) s
last_digits-minus_short k s h = ground arith

last_digits-minus_long :
    (k : ℕ) (s : Bytes) → suc k ≤ length s → last_digits (suc k) (b'-' ∷ s) ≡ last_digits (suc k) s
last_digits-minus_long k s h =
    rw (suc_below, suc_sub)
      (elim (Bool-cases (leb (length s) (suc k))) [ inl e ↦ rw (e, whole e) | inr e ↦ rw e ])
  where
    suc_below : leb (suc (length s)) (suc k) ≡ false
    suc_below = ground arith

    suc_sub : suc (length s) - suc k ≡ suc (length s - suc k)
    suc_sub = omega arith

    whole : leb (length s) (suc k) ≡ true → length s - suc k ≡ 0
    whole e = ground arith

-- What the text of an amount is read back as: its last 18 digits, perhaps with its sign.
read_last :
    (z : ℤ)
    → (d : ℤ) × (set_string (last_digits 18 (to_string z)) ≡ some d)
      × (nat_abs d ≡ nat_abs z % 10 ^ 18)
unfolding to_string
read_last (pos n) = (pos _, set_string-parse_digits _ (parse_digits-last_digits 17 n), refl)
read_last (negsuc n) = elim (dec_lt (length (decimal (suc n))) 18) [
  | yes short ↦ (
    sub_ℕ 0 (suc n % 10 ^ 18),
    rw (last_digits-minus_short 17 (decimal (suc n)) short)
        (set_string-minus _ (parse_digits-last_digits 17 (suc n))),
    nat_abs-sub_ℕ _,
  )
  | no long ↦ (
    pos (suc n % 10 ^ 18),
    rw (last_digits-minus_long 17 (decimal (suc n)) (omega arith))
        (set_string-parse_digits _ (parse_digits-last_digits 17 (suc n))),
    refl,
  )
]

pow-dvd-pow : (m k : ℕ) → k ≤ m → 10 ^ k ∣ 10 ^ m
pow-dvd-pow zero k h = rw (le-zero h) (dvd_refl 1)
  where
    le-zero : k ≤ 0 → k ≡ 0
    le-zero e = omega arith
pow-dvd-pow (suc m) k h = elim (dec_lt m k) [
  | yes top ↦ rw (ends top) (dvd_refl _)
  | no below ↦ rw (pow-suc 10 m) (dvd-mul_right_of_dvd _ (pow-dvd-pow m k (omega arith)) 10)
]
  where
    ends : m < k → k ≡ suc m
    ends e = omega arith

is_multiple_lem : (z m : ℤ) → 0 < nat_abs m → is_multiple z m ≡ ok (nat_abs z % nat_abs m == 0)
unfolding is_multiple
is_multiple_lem z m h = ground arith

wrap_int64-remainder : (d : ℤ) (n : ℕ) → nat_abs d ≡ n % 10 ^ 18 → wrap_int64 d ≡ d
wrap_int64-remainder d n e = wrap_int64-eq d (small d (omega arith))
  where
    small : (x : ℤ) → nat_abs x < 10 ^ 18 → IsInt64 x
    small (pos m) h = omega arith
    small (negsuc m) h = omega arith

module _ (lib : Library) where
  pow10_int64-small : (n : ℕ) → n ≤ 18 → pow10_int64 lib n ≡ pos (10 ^ n)
  unfolding pow10_int64
  pow10_int64-small n h = ground arith

  byte_sub : (a p : ℕ) → p ≤ a → a < 256 → (a + 256 - p) % 256 ≡ a - p
  byte_sub a p h lt = omega arith

  -- On an asset of at most 18 decimals the test on the decimal text never fails or panics, and it
  -- answers whether the amount, of either sign, has no digit beyond the precision.
  pub check_token_amount_precise_lem :
      (amount : ℤ) (precision : ℕ)
      → precision ≤ 18
      → check_token_amount_precise lib amount precision 18
        ≡ ok (nat_abs amount % 10 ^ (18 - precision) == 0)
  unfolding check_token_amount_precise
  check_token_amount_precise_lem amount precision h =
      let (d, read, rest) = read_last amount in
      rw (
        read,
        byte_sub 18 precision h (omega arith),
        pow10_int64-small (18 - precision) (omega arith),
        wrap_int64-remainder d (nat_abs amount) rest,
        is_multiple_lem d (pos (10 ^ (18 - precision)))
            (one-le-pow (18 - precision) 10 (omega arith)),
        rest,
        mod-mod_of_dvd (10 ^ (18 - precision)) (nat_abs amount)
            (pow-dvd-pow 18 (18 - precision) (omega arith)),
      )

  -- On an asset of at most 8 decimals the test of an ELA amount answers whether the amount has no
  -- digit beyond the precision.
  pub check_amount_precise_lem :
      (amount : ℤ) (precision : ℕ)
      → precision ≤ 8
      → check_amount_precise lib amount precision 8
        ≡ ok (nat_abs amount % 10 ^ (8 - precision) == 0)
  unfolding check_amount_precise
  check_amount_precise_lem amount precision h =
      rw (byte_sub 8 precision h (omega arith), pow10_int64-small (8 - precision) (omega arith))
        (is_multiple_lem amount (pos (10 ^ (8 - precision)))
          (one-le-pow (8 - precision) 10 (omega arith)))
