-- ===== src/Base/Decimal/Suffix.antt =====
-- The value of a decimal text and of its last digits.
use Prim.Native.Nat.{ℕ, zero, suc, ◌+◌, ◌-◌, ◌*◌, ◌/◌, ◌%◌, ◌^◌, ◌≤◌, ◌<◌}
use mathlib.Core.Path.{◌≡◌, refl, ap, ◌∙◌, sym, ◌≡⟨◌⟩◌, ◌∎}
use mathlib.Core.Bool.{true}
use mathlib.Core.Logic.{inl, inr}
use mathlib.Core.Option.{some}
use mathlib.Core.List.{[], ◌∷◌, ◌++◌, reverse, reverse-append, append_assoc, append-nil}
use native.Mathlib.Omega.{arith}
use native.Mathlib.Nat.{
  pow-suc, pow-succ', one-le-pow, mod-lt, mod-eq_of_lt, div-add-mod, add-mul-mod_self_left,
}
use elastos_ela_side_chain_t.Base.Tests.{leb, Bool-cases}
use elastos_ela_side_chain_t.Base.Lists.{
  Bytes, length, take, All, take_of_length-le, drop-reverse, length-reverse,
}
use elastos_ela_side_chain_t.Base.Decimal.{
  digits, decimal, last_digits, is_digit, scan_digits, parse_digits,
}

abbrev pub IsDigit : ℕ → Type 0
IsDigit c = (b'0' ≤ c) × (c ≤ b'9')

-- The value of digits that stand with the last one first.
unfoldable pub low_value : Bytes → ℕ
low_value [] = 0
low_value (c ∷ s) = (c - b'0') + 10 * low_value s

pub is_digit_of : (c : ℕ) → IsDigit c → is_digit c ≡ true
is_digit_of c h = ground arith

pub scan_digits-reverse :
    (ds s : Bytes) (n : ℕ)
    → All IsDigit ds
    → scan_digits (reverse ds ++ s) n ≡ scan_digits s (n * 10 ^ length ds + low_value ds)
unfolding low_value
scan_digits-reverse [] s n h = ap (scan_digits s) (omega arith)
scan_digits-reverse (c ∷ ds) s n (hc, h) =
    rw
      (
        reverse-append (c ∷ []) ds,
        append_assoc (reverse ds) (c ∷ []) s,
        scan_digits-reverse ds (c ∷ s) n h,
      )
      (unfold scan_digits in
        rw (is_digit_of c hc)
          (ap (scan_digits s) (omega (arith, ap (λ (t : ℕ). n * t) (pow-suc 10 (length ds))))))

-- The remainder by ten times `m`, digit by digit.
mod_step : (n m : ℕ) → 0 < m → n % (10 * m) ≡ n % 10 + 10 * (n / 10 % m)
mod_step n m h =
    n % (10 * m)
    ≡⟨ ap (λ (k : ℕ). k % (10 * m)) split ⟩
      ((n % 10 + 10 * (n / 10 % m)) + 10 * m * (n / 10 / m)) % (10 * m)
    ≡⟨ add-mul-mod_self_left _ (10 * m) _ ⟩ (n % 10 + 10 * (n / 10 % m)) % (10 * m)
    ≡⟨ mod-eq_of_lt (omega (arith, mod-lt (n / 10) h)) ⟩ n % 10 + 10 * (n / 10 % m) ∎
  where
    split : n ≡ (n % 10 + 10 * (n / 10 % m)) + 10 * m * (n / 10 / m)
    split = omega (arith, div-add-mod (n / 10) m)

pub digits-IsDigit : (f n : ℕ) → All IsDigit (digits f n)
unfolding digits
digits-IsDigit zero n = tt
digits-IsDigit (suc f) zero = tt
digits-IsDigit (suc f) (suc n) = (omega arith, digits-IsDigit f (suc n / 10))

digit_value : (n : ℕ) → b'0' + n % 10 - b'0' ≡ n % 10
digit_value n = omega arith

pub low_value-take-digits : (k f n : ℕ) → n ≤ f → low_value (take k (digits f n)) ≡ n % 10 ^ k
unfolding low_value digits
low_value-take-digits zero f n h = omega arith
low_value-take-digits (suc k) zero n h = omega arith
low_value-take-digits (suc k) (suc f) zero h = omega arith
low_value-take-digits (suc k) (suc f) (suc n) h =
    rw (pow-succ' 10 k, mod_step (suc n) (10 ^ k) (one-le-pow k 10 (omega arith)))
      (cc (low_value-take-digits k f (suc n / 10) (omega arith), digit_value (suc n)))

-- The digits of `n` behind one another; zero has one digit.
unfoldable pub digit_list : ℕ → Bytes
digit_list zero = b'0' ∷ []
digit_list (suc n) = digits (suc n) (suc n)

pub decimal-digit_list : (n : ℕ) → decimal n ≡ reverse (digit_list n)
unfolding decimal digit_list
decimal-digit_list zero = refl
decimal-digit_list (suc n) = refl

pub digit_list-IsDigit : (n : ℕ) → All IsDigit (digit_list n)
unfolding digit_list
digit_list-IsDigit zero = omega arith
digit_list-IsDigit (suc n) = digits-IsDigit (suc n) (suc n)

pub low_value-take-digit_list : (k n : ℕ) → low_value (take (suc k) (digit_list n)) ≡ n % 10 ^ suc k
unfolding digit_list
low_value-take-digit_list zero zero = unfold low_value in refl
low_value-take-digit_list (suc k) zero = unfold low_value in omega arith
low_value-take-digit_list k (suc n) = low_value-take-digits (suc k) (suc n) (suc n) (omega arith)

digits-ne-nil : (f n : ℕ) → 0 < n → n ≤ f → 1 ≤ length (digits f n)
unfolding digits
digits-ne-nil zero n p h = absurd (omega arith)
digits-ne-nil (suc f) zero p h = absurd (omega arith)
digits-ne-nil (suc f) (suc n) p h = omega arith

pub digit_list-ne-nil : (n : ℕ) → 1 ≤ length (digit_list n)
unfolding digit_list
digit_list-ne-nil zero = omega arith
digit_list-ne-nil (suc n) = digits-ne-nil (suc n) (suc n) (omega arith) (omega arith)

pub parse_scan : (s : Bytes) → 1 ≤ length s → parse_digits s ≡ scan_digits s 0
parse_scan [] e = absurd (omega arith)
parse_scan (c ∷ s) e = unfold parse_digits in refl

pub parse_digits-reverse :
    (ds : Bytes) → All IsDigit ds → 1 ≤ length ds → parse_digits (reverse ds) ≡ some (low_value ds)
parse_digits-reverse ds h ne =
    parse_scan (reverse ds) (rw length-reverse ne)
    ∙ ap (λ s. scan_digits s 0) (sym (append-nil (reverse ds)))
    ∙ scan_digits-reverse ds [] 0 h
    ∙ (unfold scan_digits in ap some (omega arith))

All-take : (k : ℕ) (ds : Bytes) → All IsDigit ds → All IsDigit (take k ds)
All-take zero ds h = tt
All-take (suc k) [] h = tt
All-take (suc k) (d ∷ ds) h = (h.0, All-take k ds h.1)

length-take-pos : (k : ℕ) (ds : Bytes) → 1 ≤ length ds → 1 ≤ length (take (suc k) ds)
length-take-pos k [] h = h
length-take-pos k (d ∷ ds) h = omega arith

-- The last digits of a decimal text spell the number modulo a power of ten; a shorter text spells
-- it whole.
pub last_digits-decimal : (k n : ℕ) → last_digits k (decimal n) ≡ reverse (take k (digit_list n))
last_digits-decimal k n = elim (Bool-cases (leb (length (decimal n)) k)) [
  | inl e ↦ rw (e, take_of_length-le k (digit_list n) (shorter e), decimal-digit_list)
  | inr e ↦ rw (e, decimal-digit_list, drop-reverse)
]
  where
    shorter : leb (length (decimal n)) k ≡ true → length (digit_list n) ≤ k
    shorter e = ground (arith, length-reverse (digit_list n), decimal-digit_list n)

pub parse_digits-last_digits :
    (k n : ℕ) → parse_digits (last_digits (suc k) (decimal n)) ≡ some (n % 10 ^ suc k)
parse_digits-last_digits k n =
    ap parse_digits (last_digits-decimal (suc k) n)
    ∙ parse_digits-reverse _ (All-take (suc k) _ (digit_list-IsDigit n))
        (length-take-pos k _ (digit_list-ne-nil n))
    ∙ ap some (low_value-take-digit_list k n)
