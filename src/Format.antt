-- ===== src/Format.antt =====
-- The primitive encodings that the node takes from a library, with what is known of them: reading
-- takes back what was written and leaves the rest.
use elastos_ela_side_chain_t.Base.{
  ℕ, ℤ, ◌^◌, ◌≤◌, ◌<◌, ◌≡◌, Bytes, Bool, true, ◌++◌, Option, none, some, length, IsInt64, Outcome,
  ok, err, if◌then◌else◌,
}
use elastos_ela_side_chain_t.Types.{Uint256, Uint168}

-- A read returns the value and the bytes behind it; `none` is an error.
pub record Format : Type 0 where
  -- `Uint256.Serialize` and `Bytes`, `Deserialize`
  pub uint256_bytes : Uint256 → Bytes
  pub read_uint256 : Bytes → Option (Uint256 × Bytes)
  pub read_uint256-bytes :
      (h : Uint256) (rest : Bytes)
      → length h ≡ 32
      → read_uint256 (uint256_bytes h ++ rest) ≡ some (h, rest)
  pub uint256_bytes_inj : (g h : Uint256) → uint256_bytes g ≡ uint256_bytes h → g ≡ h
  pub uint168_bytes : Uint168 → Bytes
  pub read_uint168 : Bytes → Option (Uint168 × Bytes)
  pub read_uint168-bytes :
      (h : Uint168) (rest : Bytes)
      → length h ≡ 21
      → read_uint168 (uint168_bytes h ++ rest) ≡ some (h, rest)
  -- `WriteUint32`, `ReadUint32`
  pub uint32_bytes : ℕ → Bytes
  pub read_uint32 : Bytes → Option (ℕ × Bytes)
  pub read_uint32-bytes :
      (n : ℕ) (rest : Bytes) → n < 2 ^ 32 → read_uint32 (uint32_bytes n ++ rest) ≡ some (n, rest)
  -- `WriteVarUint`, `ReadVarUint`
  pub var_uint_bytes : ℕ → Bytes
  pub read_var_uint : Bytes → Option (ℕ × Bytes)
  pub read_var_uint-bytes :
      (n : ℕ) (rest : Bytes)
      → n < 2 ^ 64
      → read_var_uint (var_uint_bytes n ++ rest) ≡ some (n, rest)
  -- `WriteVarBytes`, and `ReadVarBytes` with the most bytes that it takes
  pub var_bytes : Bytes → Bytes
  pub read_var_bytes : ℕ → Bytes → Option (Bytes × Bytes)
  pub read_var_bytes-bytes :
      (limit : ℕ) (b rest : Bytes)
      → length b ≤ limit
      → read_var_bytes limit (var_bytes b ++ rest) ≡ some (b, rest)
  pub read_var_bytes-long :
      (limit : ℕ) (b rest : Bytes)
      → limit < length b
      → read_var_bytes limit (var_bytes b ++ rest) ≡ none
  -- What a `ReadVarBytes` that fails returns beside its error, and what it leaves to read.
  pub failed_var_bytes : ℕ → Bytes → Bytes × Bytes
  -- What a failed `Deserialize` of a hash leaves in it, and what is left to read; the value beside
  -- the error of `ReadUint32`.
  pub failed_uint256 : Bytes → Uint256 × Bytes
  pub failed_uint168 : Bytes → Uint168 × Bytes
  pub failed_uint32 : Bytes → ℕ
  -- What `ReadBytes` leaves to read.
  pub skip_bytes : ℕ → Bytes → Bytes
  pub skip_bytes-append : (a b : Bytes) → skip_bytes (length a) (a ++ b) ≡ b
  -- `Fixed64.Serialize` and `Bytes`, `Deserialize`
  pub fixed64_bytes : ℤ → Bytes
  pub read_fixed64 : Bytes → Option (ℤ × Bytes)
  pub read_fixed64-bytes :
      (v : ℤ) (rest : Bytes) → IsInt64 v → read_fixed64 (fixed64_bytes v ++ rest) ≡ some (v, rest)

pub data WireError : Type 0 where
  write_failed read_failed : WireError

-- Whether a writer that holds the first bytes accepts the second.
abbrev pub Writer : Type 0
Writer = Bytes → Bytes → Bool

-- A `bytes.Buffer` accepts all.
abbrev pub bytes_buffer : Writer
bytes_buffer _ _ = true

-- A write that is checked.
unfoldable pub write : Writer → Bytes → Bytes → Outcome WireError Bytes
write accepts b w = if accepts w b then ok (w ++ b) else err write_failed

abbrev pub or_eof {ℓ} : {A : Type ℓ} → Option A → Outcome WireError A
or_eof none = err read_failed
or_eof (some a) = ok a
