-- ===== src/Base/Decimal/Prefix.antt =====
-- The value of a decimal text without its last digits, and of a text with leading zeros.
use Prim.Native.Nat.{ℕ, zero, suc, ◌-◌, ◌/◌, ◌^◌, ◌≤◌, ◌<◌}
use mathlib.Core.Path.{◌≡◌, refl, ap, ◌∙◌, sym}
use mathlib.Core.Option.{some}
use mathlib.Core.List.{[], ◌∷◌, ◌++◌}
use native.Mathlib.Omega.{arith}
use native.Mathlib.Nat.{pow-succ', div-div-eq-div-mul, zero-div}
use elastos_ela_side_chain_t.Base.Lists.{
  Bytes, length, take, drop, replicate, All, length-reverse, length-drop, take-reverse,
  length-append,
}
use elastos_ela_side_chain_t.Base.Decimal.{digits, decimal, scan_digits, parse_digits}
use elastos_ela_side_chain_t.Base.Decimal.Suffix.{
  IsDigit, low_value, digit_list, decimal-digit_list, digit_list-IsDigit, digit_list-ne-nil,
  parse_digits-reverse, parse_scan,
}

low_value-digits : (f n : ℕ) → n ≤ f → low_value (digits f n) ≡ n
unfolding low_value digits
low_value-digits zero n h = omega arith
low_value-digits (suc f) zero h = refl
low_value-digits (suc f) (suc n) h = omega (arith, low_value-digits f (suc n / 10) (omega arith))

low_value-digit_list : (n : ℕ) → low_value (digit_list n) ≡ n
unfolding digit_list
low_value-digit_list zero = unfold low_value in refl
low_value-digit_list (suc n) = low_value-digits (suc n) (suc n) (omega arith)

low_value-nil : (s : Bytes) → length s ≤ 0 → low_value s ≡ 0
unfolding low_value
low_value-nil [] h = refl
low_value-nil (c ∷ s) h = absurd (omega arith)

low_value-drop-digits : (k f n : ℕ) → n ≤ f → low_value (drop k (digits f n)) ≡ n / 10 ^ k
unfolding low_value digits
low_value-drop-digits zero f n h = omega (arith, low_value-digits f n h)
low_value-drop-digits (suc k) zero n h =
    let none_left : n ≡ 0 = omega arith in rw none_left (sym (zero-div (10 ^ suc k)))
low_value-drop-digits (suc k) (suc f) zero h = sym (zero-div (10 ^ suc k))
low_value-drop-digits (suc k) (suc f) (suc n) h =
    rw (pow-succ' 10 k, ← div-div-eq-div-mul (suc n) 10 (10 ^ k))
      (low_value-drop-digits k f (suc n / 10) (omega arith))

low_value-drop-digit_list : (k n : ℕ) → low_value (drop (suc k) (digit_list n)) ≡ n / 10 ^ suc k
unfolding digit_list
low_value-drop-digit_list k zero =
    low_value-nil (drop k []) (omega (arith, length-drop {A = ℕ} k []))
    ∙ sym (zero-div (10 ^ suc k))
low_value-drop-digit_list k (suc n) = low_value-drop-digits (suc k) (suc n) (suc n) (omega arith)

pub lengths : (n : ℕ) → length (decimal n) ≡ length (digit_list n)
lengths n = rw (decimal-digit_list n) (length-reverse (digit_list n))

All-drop : (k : ℕ) (ds : Bytes) → All IsDigit ds → All IsDigit (drop k ds)
All-drop zero ds h = h
All-drop (suc k) [] h = tt
All-drop (suc k) (d ∷ ds) h = All-drop k ds h.1

-- Without its last `k` digits, of which it has more, a decimal text spells the quotient by a power
-- of ten.
pub parse_digits-whole :
    (k n : ℕ)
    → suc k < length (decimal n)
    → parse_digits (take (length (decimal n) - suc k) (decimal n)) ≡ some (n / 10 ^ suc k)
parse_digits-whole k n long =
    ap parse_digits (rw decimal-digit_list (take-reverse (suc k) (digit_list n)))
    ∙ parse_digits-reverse (drop (suc k) (digit_list n)) (All-drop (suc k) _ (digit_list-IsDigit n))
        (omega (arith, long, lengths n, length-drop (suc k) (digit_list n)))
    ∙ ap some (low_value-drop-digit_list k n)

scan_digits-zeros : (k : ℕ) (s : Bytes) → scan_digits (replicate k b'0' ++ s) 0 ≡ scan_digits s 0
unfolding scan_digits
scan_digits-zeros zero s = refl
scan_digits-zeros (suc k) s = scan_digits-zeros k s

-- Leading zeros do not count.
pub parse_digits-zeros :
    (k : ℕ) (s : Bytes) → 1 ≤ length s → parse_digits (replicate k b'0' ++ s) ≡ parse_digits s
parse_digits-zeros k s ne =
    parse_scan _ (omega (arith, length-append (replicate k b'0') s))
    ∙ scan_digits-zeros k s
    ∙ sym (parse_scan s ne)

-- A number of at most `k` digits is less than the power of ten.
pub decimal-short : (k n : ℕ) → length (decimal n) ≤ suc k → n / 10 ^ suc k ≡ 0
decimal-short k n short =
    sym (low_value-drop-digit_list k n)
    ∙ low_value-nil _ (omega (arith, short, lengths n, length-drop (suc k) (digit_list n)))

-- A decimal text spells its number.
pub parse_digits-decimal : (n : ℕ) → parse_digits (decimal n) ≡ some n
parse_digits-decimal n =
    ap parse_digits (decimal-digit_list n)
    ∙ parse_digits-reverse (digit_list n) (digit_list-IsDigit n) (digit_list-ne-nil n)
    ∙ ap some (low_value-digit_list n)
