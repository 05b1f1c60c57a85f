-- ===== src/Wire.antt =====
-- core/outputhelper.go: an output as bytes. The primitive encodings are a library's (`common` of the
-- main chain); a writer is the bytes written so far, and `accepts` says which writes succeed.
pub mod RoundTrip
use elastos_ela_side_chain_t.Format.{Format, WireError, Writer, write, or_eof}
use elastos_ela_side_chain_t.Base.{
  ℕ, ◌+◌, ◌*◌, Bytes, Bool, ◌++◌, Option, if◌then◌else◌, big_bytes, set_bytes, Outcome, ok, ◌>>=◌,
  or_err,
}
use elastos_ela_side_chain_t.Types.{Output}
use elastos_ela_side_chain_t.Library.{Library}

-- `MaxTokenValueDataSize`
abbrev pub max_token_value_data_size : ℕ
max_token_value_data_size = 8 * 4 + 1

module _ (lib : Library) (format : Format) where
  -- The branch on the asset.
  unfoldable pub output_amount_bytes : Output → Bytes
  output_amount_bytes o =
      if lib.is_equal o.asset_id lib.system_asset_id
      then format.fixed64_bytes o.value
      else format.var_bytes (big_bytes o.token_value)

  -- `serializeOutput`; the error of `WriteUint32` is not looked at, so what follows is written
  -- behind whatever the writer holds then.
  pub serialize_output : Writer → Output → Bytes → Outcome WireError Bytes
  unfolding output_amount_bytes
  serialize_output accepts o w = do
    w1 ← write accepts (format.uint256_bytes o.asset_id) w
    w2 ← write accepts (output_amount_bytes o) w1
    let w3 =
        if accepts w2 (format.uint32_bytes o.output_lock)
        then w2 ++ format.uint32_bytes o.output_lock
        else w2
    write accepts (format.uint168_bytes o.program_hash) w3

  -- The same branch on the way back, into a given output.
  pub read_output_amount : Output → Bytes → Outcome WireError (Output × Bytes)
  read_output_amount o r =
      if lib.is_equal o.asset_id lib.system_asset_id
      then (do (value, r') ← or_eof (format.read_fixed64 r); ok (record o { value = value }, r'))
      else (do
        (bytes, r') ← or_eof (format.read_var_bytes max_token_value_data_size r)
        ok (record o { token_value = set_bytes bytes }, r'))

  -- `deserializeOutput`: the fields that are not read keep what `output` held.
  pub deserialize_output : Output → Bytes → Outcome WireError (Output × Bytes)
  unfolding read_output_amount
  deserialize_output o r = do
    (asset_id, r1) ← or_eof (format.read_uint256 r)
    (o2, r2) ← read_output_amount (record o { asset_id = asset_id }) r1
    (lock, r3) ← or_eof (format.read_uint32 r2)
    (program_hash, r4) ← or_eof (format.read_uint168 r3)
    ok (record o2 { output_lock = lock; program_hash = program_hash }, r4)
