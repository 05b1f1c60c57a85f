-- ===== src/Store/Amount/Value.antt =====
-- What the text of `ValueString` spells.
use elastos_ela_side_chain_t.Base.{
  ℕ, suc, zero, ◌-◌, ◌/◌, ◌%◌, ◌^◌, ◌≤◌, ◌<◌, ◌≡◌, ◌≢◌, refl, Bytes, [], ◌∷◌, ◌++◌, bytes_eq,
  bytes_eq_iff, leb, length, length-append, length-drop, take, drop, replicate, decimal,
  parse_digits, arith, true, false, Bool-cases, inl, inr, some, nat_abs, set_bytes-big_bytes,
  to_string, ok, scan_digits, sym, ◌∙◌, ap,
}
use elastos_ela_side_chain_t.Base.Decimal.Suffix.{parse_digits-last_digits, digit_list-ne-nil}
use elastos_ela_side_chain_t.Base.Decimal.Prefix.{
  parse_digits-whole, parse_digits-zeros, decimal-short, lengths, parse_digits-decimal,
}
use elastos_ela_side_chain_t.Types.{Uint256, Output}
use elastos_ela_side_chain_t.Library.{Library}
use elastos_ela_side_chain_t.Format.{Format}
use elastos_ela_side_chain_t.Texts.{Texts}
use elastos_ela_side_chain_t.Store.Utxo.{value_bytes}
use elastos_ela_side_chain_t.Store.UtxoSet.{utxo_of}
use elastos_ela_side_chain_t.Store.Amount.{max_precision, with_point, value_string}

-- A text in two parts around a point: whole tokens, and 18 digits of a fraction.
pub record Spells (s : Bytes) (n : ℕ) : Type 0 where
  pub whole : Bytes
  pub fraction : Bytes
  pub text : s ≡ whole ++ (b'.' ∷ fraction)
  pub places : length fraction ≡ 18
  pub whole_value : parse_digits whole ≡ some (n / 10 ^ 18)
  pub fraction_value : parse_digits fraction ≡ some (n % 10 ^ 18)

length-replicate : (k : ℕ) → length {A = ℕ} (replicate k b'0') ≡ k
length-replicate zero = refl
length-replicate (suc k) = omega (arith, length-replicate k)

-- A number that is not zero is not written as a single zero.
decimal-ne-zero : (n : ℕ) → 0 < n → bytes_eq (decimal n) (b'0' ∷ []) ≡ false
decimal-ne-zero n positive = elim (Bool-cases (bytes_eq (decimal n) (b'0' ∷ []))) [
  | inr other ↦ other
  | inl same ↦
      let text = (bytes_eq_iff (decimal n) (b'0' ∷ [])).0 same in
      let reads : parse_digits (b'0' ∷ []) ≡ some n = rw text at (parse_digits-decimal n) in
      let none_left : n ≡ 0 = unfold parse_digits scan_digits in ground (arith, reads) in
      absurd (omega (arith, none_left, positive))
]

with_point-Spells : (n : ℕ) → 0 < n → Spells (with_point (decimal n)) n
unfolding with_point
with_point-Spells n positive =
    let total = decimal n in
    elim (Bool-cases (leb (suc max_precision) (length total))) [
      | inl long ↦
          let more : 18 < length total = ground arith in
          let at = length total - max_precision in
          record {
            whole = take at total;
            fraction = drop at total;
            text = rw (decimal-ne-zero n positive, long) refl;
            places = omega (arith, length-drop at total, more);
            whole_value = parse_digits-whole 17 n more;
            fraction_value =
                let over : leb (length total) 18 ≡ false = ground arith in
                rw over at (parse_digits-last_digits 17 n);
          }
      | inr short ↦
          let few : length total ≤ 18 = ground arith in
          record {
            whole = b'0' ∷ [];
            fraction = replicate (max_precision - length total) b'0' ++ total;
            text = rw (decimal-ne-zero n positive, short) refl;
            places = omega (
              arith,
              length-append (replicate (max_precision - length total) b'0') total,
              length-replicate (max_precision - length total),
              few,
            );
            whole_value = unfold parse_digits scan_digits in ap some (sym (decimal-short 17 n few));
            fraction_value =
                let under : leb (length total) 18 ≡ true = ground arith in
                parse_digits-zeros (max_precision - length total) total
                  (omega (arith, lengths n, digit_list-ne-nil n))
                ∙ (rw under at (parse_digits-last_digits 17 n));
          }
    ]

module _ (lib : Library) (format : Format) (texts : Texts) where
  -- The text of the entry that the store makes for an output of tokens, not zero, is the magnitude of
  -- the amount in tokens: the whole tokens, a point, and 18 digits of a fraction.
  pub value_string-utxo_of :
      (h : Uint256) (i : ℕ) (o : Output)
      → o.asset_id ≢ lib.system_asset_id
      → 0 < nat_abs o.token_value
      → (s : Bytes) × (value_string lib texts (utxo_of lib format h i o) ≡ ok s)
        × Spells s (nat_abs o.token_value)
  unfolding value_string utxo_of value_bytes to_string
  value_string-utxo_of h i o other positive =
      let not_ela : lib.is_equal o.asset_id lib.system_asset_id ≡ false =
        ground (arith, lib.is_equal_iff o.asset_id lib.system_asset_id) in
      let no_ela : bytes_eq o.asset_id lib.system_asset_id ≡ false =
        ground (arith, bytes_eq_iff o.asset_id lib.system_asset_id) in
      (
        with_point (decimal (nat_abs o.token_value)),
        rw (not_ela, no_ela, set_bytes-big_bytes) refl,
        with_point-Spells (nat_abs o.token_value) positive,
      )
