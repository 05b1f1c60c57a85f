-- ===== src/Base/Big.antt =====
-- `big.Int.Bytes` and `SetBytes`: magnitudes as big-endian bytes.
use Prim.Native.Nat.{ℕ, zero, suc, ◌+◌, ◌*◌, ◌/◌, ◌%◌, ◌^◌, ◌≤◌, ◌<◌}
use mathlib.Core.Path.{◌≡◌, refl, ap, ◌∙◌, sym}
use mathlib.Core.List.{[], ◌∷◌, ◌++◌, reverse, reverse-append, append_assoc, append-nil}
use native.Mathlib.Omega.{arith}
use native.Mathlib.Nat.{pow-suc, one-le-pow}
use elastos_ela_side_chain_t.Base.Lists.{Bytes, length, length-reverse}
use elastos_ela_side_chain_t.Base.Int.{ℤ, pos, nat_abs}

-- The base 256 digits of `n`, the last one first, for `n` up to the fuel.
unfoldable pub low_bytes : ℕ → ℕ → Bytes
low_bytes zero n = []
low_bytes (suc f) zero = []
low_bytes (suc f) (suc n) = suc n % 256 ∷ low_bytes f (suc n / 256)

-- `z.Bytes()`: the magnitude, without leading zeros; the sign is lost.
unfoldable pub big_bytes : ℤ → Bytes
unfolding low_bytes
big_bytes z = reverse (low_bytes (nat_abs z) (nat_abs z))

unfoldable pub value_from : Bytes → ℕ → ℕ
value_from [] n = n
value_from (b ∷ s) n = value_from s (n * 256 + b)

-- `z.SetBytes(s)`
unfoldable pub set_bytes : Bytes → ℤ
unfolding value_from
set_bytes s = pos (value_from s 0)

abbrev low_number : Bytes → ℕ
low_number [] = 0
low_number (b ∷ s) = b + 256 * low_number s

value_from-reverse :
    (ds s : Bytes) (n : ℕ)
    → value_from (reverse ds ++ s) n ≡ value_from s (n * 256 ^ length ds + low_number ds)
value_from-reverse [] s n = ap (value_from s) (omega arith)
value_from-reverse (b ∷ ds) s n =
    rw
      (
        reverse-append (b ∷ []) ds,
        append_assoc (reverse ds) (b ∷ []) s,
        value_from-reverse ds (b ∷ s) n,
      )
      (unfold value_from in
        ap (value_from s) (omega (arith, ap (λ (t : ℕ). n * t) (pow-suc 256 (length ds)))))

low_number-low_bytes : (f n : ℕ) → n ≤ f → low_number (low_bytes f n) ≡ n
unfolding low_bytes
low_number-low_bytes zero n h = omega arith
low_number-low_bytes (suc f) zero h = refl
low_number-low_bytes (suc f) (suc n) h =
    omega (arith, low_number-low_bytes f (suc n / 256) (omega arith))

-- Reading the bytes back gives the magnitude.
pub set_bytes-big_bytes : (z : ℤ) → set_bytes (big_bytes z) ≡ pos (nat_abs z)
unfolding set_bytes big_bytes
set_bytes-big_bytes z = ap pos (
    ap (λ s. value_from s 0) (sym (append-nil (reverse (low_bytes (nat_abs z) (nat_abs z)))))
    ∙ value_from-reverse (low_bytes (nat_abs z) (nat_abs z)) [] 0
    ∙ (unfold value_from in
        omega (arith, low_number-low_bytes (nat_abs z) (nat_abs z) (omega arith))))

length-low_bytes-le : (k f n : ℕ) → n < 256 ^ k → length (low_bytes f n) ≤ k
unfolding low_bytes
length-low_bytes-le k zero n h = omega arith
length-low_bytes-le k (suc f) zero h = omega arith
length-low_bytes-le zero (suc f) (suc n) h = absurd (omega arith)
length-low_bytes-le (suc k) (suc f) (suc n) h =
    omega (arith, length-low_bytes-le k f (suc n / 256) (omega (arith, pow-suc 256 k)))

lt-length-low_bytes : (k f n : ℕ) → n ≤ f → 256 ^ k ≤ n → k < length (low_bytes f n)
unfolding low_bytes
lt-length-low_bytes k zero n h g = absurd (omega (arith, one-le-pow k 256 (omega arith)))
lt-length-low_bytes k (suc f) zero h g = absurd (omega (arith, one-le-pow k 256 (omega arith)))
lt-length-low_bytes zero (suc f) (suc n) h g = omega arith
lt-length-low_bytes (suc k) (suc f) (suc n) h g =
    omega
      (arith, lt-length-low_bytes k f (suc n / 256) (omega arith) (omega (arith, pow-suc 256 k)))

-- The bytes number at most `k` exactly for magnitudes below 256 ^ k.
pub length-big_bytes-le : (k : ℕ) (z : ℤ) → nat_abs z < 256 ^ k → length (big_bytes z) ≤ k
unfolding big_bytes
length-big_bytes-le k z h = rw length-reverse (length-low_bytes-le k (nat_abs z) (nat_abs z) h)

pub lt-length-big_bytes : (k : ℕ) (z : ℤ) → 256 ^ k ≤ nat_abs z → k < length (big_bytes z)
unfolding big_bytes
lt-length-big_bytes k z h =
    rw length-reverse (lt-length-low_bytes k (nat_abs z) (nat_abs z) (omega arith) h)
