-- ===== src/Texts.antt =====
-- The texts that the node takes from its libraries: amounts, hashes and addresses as strings. All of
-- it is a parameter of the model. A Go string is a list of bytes here.
use elastos_ela_side_chain_t.Base.{ℤ, Bytes, Option}
use elastos_ela_side_chain_t.Types.{Uint256, Uint168}

pub record Texts : Type 0 where
  -- the value behind the pointer that `Fixed64FromBytes` returns; `none` is a nil pointer
  pub fixed64_from_bytes : Bytes → Option ℤ
  -- `Fixed64.String`
  pub fixed64_string : ℤ → Bytes
  -- `BytesToHexString(BytesReverse(_))`
  pub bytes_to_hex_string : Bytes → Bytes
  pub bytes_reverse : Bytes → Bytes
  -- `Uint256FromBytes`: the value behind the pointer, as above; `Uint256.String`
  pub uint256_from_bytes : Bytes → Option Uint256
  pub uint256_string : Uint256 → Bytes
  -- `service.ToReversedString`, `service.FromReversedString`
  pub to_reversed_string : Uint256 → Bytes
  pub from_reversed_string : Bytes → Option Bytes
  -- `Uint168FromAddress`; the text that `Uint168.ToAddress` returns, also beside an error
  pub uint168_from_address : Bytes → Option Uint168
  pub to_address : Uint168 → Bytes
