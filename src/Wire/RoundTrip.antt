-- ===== src/Wire/RoundTrip.antt =====
-- Outputs survive the round trip through bytes, up to the sign of their tokens.
use mathlib.Core.List.{append_assoc}
use elastos_ela_side_chain_t.Base.{
  pos, ◌^◌, ◌≤◌, ◌<◌, ◌≡◌, ◌≢◌, Bytes, [], ap, ◌>>=◌, true, false, ◌++◌, length, nat_abs, IsInt64,
  big_bytes, set_bytes-big_bytes, length-big_bytes-le, lt-length-big_bytes, if◌then◌else◌, ok, err,
  arith, Bool-cases, inl, inr,
}
use elastos_ela_side_chain_t.Types.{Output}
use elastos_ela_side_chain_t.Library.{Library}
use elastos_ela_side_chain_t.Wire.{
  output_amount_bytes, serialize_output, read_output_amount, deserialize_output,
  max_token_value_data_size,
}
use elastos_ela_side_chain_t.Format.{Format, Writer, bytes_buffer, write, read_failed}

module _ (lib : Library) (format : Format) where
  -- All that `serialize_output` writes.
  pub output_bytes : Output → Bytes
  output_bytes o =
      format.uint256_bytes o.asset_id
      ++ (output_amount_bytes lib format o
          ++ (format.uint32_bytes o.output_lock ++ format.uint168_bytes o.program_hash))

  pub serialize_output-buffer :
      (o : Output) (w : Bytes)
      → serialize_output lib format bytes_buffer o w ≡ ok (w ++ output_bytes o)
  unfolding serialize_output write output_bytes
  serialize_output-buffer o w = rw (append_assoc, append_assoc, append_assoc)

  -- The fields are in the range of their Go types, and the tokens fit the limit on their bytes.
  pub record Fits (o : Output) : Type 0 where
    pub asset_id : length o.asset_id ≡ 32
    pub value : IsInt64 o.value
    pub token_value : nat_abs o.token_value < 256 ^ 33
    pub output_lock : o.output_lock < 2 ^ 32
    pub program_hash : length o.program_hash ≡ 21

  -- What a fresh output holds after reading: an ELA output its amount, any other the magnitude of
  -- its tokens.
  pub read_back : Output → Output → Output
  read_back into o =
      if lib.is_equal o.asset_id lib.system_asset_id
      then record o { token_value = into.token_value }
      else record o { value = into.value; token_value = pos (nat_abs o.token_value) }

  read_back-fields :
      (into o : Output)
      → record o { value = (read_back into o).value; token_value = (read_back into o).token_value }
        ≡ read_back into o
  unfolding read_back
  read_back-fields into o = elim (Bool-cases (lib.is_equal o.asset_id lib.system_asset_id)) [
    | inl e ↦ rw e
    | inr e ↦ rw e
  ]

  read_amount :
      (into o : Output) (rest : Bytes)
      → Fits o
      → read_output_amount lib format
          (record into { asset_id = o.asset_id })
          (output_amount_bytes lib format o ++ rest)
        ≡ ok (
          record into {
            asset_id = o.asset_id;
            value = (read_back into o).value;
            token_value = (read_back into o).token_value;
          },
          rest,
        )
  unfolding read_output_amount output_amount_bytes read_back
  read_amount into o rest fits = elim (Bool-cases (lib.is_equal o.asset_id lib.system_asset_id)) [
    | inl e ↦ rw (e, format.read_fixed64-bytes o.value rest fits.value)
    | inr e ↦ rw (
      e,
      format.read_var_bytes-bytes max_token_value_data_size (big_bytes o.token_value) rest
          (length-big_bytes-le 33 o.token_value fits.token_value),
      set_bytes-big_bytes o.token_value,
    )
  ]

  deserialize-output_bytes :
      (into o : Output) (rest : Bytes)
      → Fits o
      → deserialize_output lib format into (output_bytes o ++ rest) ≡ ok (read_back into o, rest)
  unfolding deserialize_output output_bytes
  deserialize-output_bytes into o rest fits =
      let tail : Bytes = format.uint168_bytes o.program_hash ++ rest in
      rw
        (
          append_assoc (format.uint256_bytes o.asset_id) _ rest,
          append_assoc (output_amount_bytes lib format o) _ rest,
          append_assoc (format.uint32_bytes o.output_lock) (format.uint168_bytes o.program_hash)
              rest,
          format.read_uint256-bytes o.asset_id
              (output_amount_bytes lib format o ++ (format.uint32_bytes o.output_lock ++ tail))
              fits.asset_id,
          read_amount into o (format.uint32_bytes o.output_lock ++ tail) fits,
          format.read_uint32-bytes o.output_lock tail fits.output_lock,
          format.read_uint168-bytes o.program_hash rest fits.program_hash,
        )
        (ap (λ x. ok (x, rest)) (read_back-fields into o))

  -- What `serialize_output` writes to a buffer is read back, with anything behind it left over. The
  -- amount that the asset does not use comes from the output that is read into, and a token amount
  -- comes back as its magnitude.
  pub deserialize-serialize :
      (into o : Output) (rest : Bytes)
      → Fits o
      → (do
        w ← serialize_output lib format bytes_buffer o []
        deserialize_output lib format into (w ++ rest))
        ≡ ok (read_back into o, rest)
  deserialize-serialize into o rest fits =
      rw (serialize_output-buffer o []) (deserialize-output_bytes into o rest fits)

  -- An output in another asset than the system's, with a token amount of 256 ^ 33 or more, is written
  -- to a buffer without an error, and cannot be read back.
  pub deserialize-serialize_wide :
      (into o : Output) (rest : Bytes)
      → length o.asset_id ≡ 32
      → o.asset_id ≢ lib.system_asset_id
      → 256 ^ 33 ≤ nat_abs o.token_value
      → (do
        w ← serialize_output lib format bytes_buffer o []
        deserialize_output lib format into (w ++ rest))
        ≡ err read_failed
  deserialize-serialize_wide into o rest fit token wide = rw (serialize_output-buffer o []) (
      unfold deserialize_output output_bytes output_amount_bytes read_output_amount in
      rw (
        is_token,
        append_assoc (format.uint256_bytes o.asset_id) _ rest,
        append_assoc (format.var_bytes (big_bytes o.token_value)) _ rest,
        format.read_uint256-bytes o.asset_id _ fit,
        is_token,
        format.read_var_bytes-long max_token_value_data_size (big_bytes o.token_value) _
            (lt-length-big_bytes 33 o.token_value wide),
      ))
    where
      is_token : lib.is_equal o.asset_id lib.system_asset_id ≡ false
      is_token = ground (arith, lib.is_equal_iff o.asset_id lib.system_asset_id)

  -- A writer that refuses the lock alone makes no error: the bytes are written without it.
  pub serialize_output_skips_lock :
      (accepts : Writer) (o : Output) (w : Bytes)
      → accepts w (format.uint256_bytes o.asset_id) ≡ true
      → accepts (w ++ format.uint256_bytes o.asset_id) (output_amount_bytes lib format o) ≡ true
      → accepts
          (w ++ format.uint256_bytes o.asset_id ++ output_amount_bytes lib format o)
          (format.uint32_bytes o.output_lock)
        ≡ false
      → accepts
          (w ++ format.uint256_bytes o.asset_id ++ output_amount_bytes lib format o)
          (format.uint168_bytes o.program_hash)
        ≡ true
      → serialize_output lib format accepts o w
        ≡ ok (
            w
            ++ format.uint256_bytes o.asset_id
            ++ output_amount_bytes lib format o
            ++ format.uint168_bytes o.program_hash)
  unfolding serialize_output write
  serialize_output_skips_lock accepts o w a b c d = rw (a, b, c, d)
