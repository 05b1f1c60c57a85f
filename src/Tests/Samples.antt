-- ===== src/Tests/Samples.antt =====
-- Sample parameters: a library, an encoding, a store.
use mathlib.Core.Option
use mathlib.Core.List.{reverse}
use elastos_ela_side_chain_t.Base.{
  ℕ, ℤ, pos, negsuc, zero, suc, ◌^◌, ◌≤◌, ◌<◌, ◌≡◌, refl, ap, Bytes, List, [], ◌∷◌, ◌++◌, Bool,
  true, false, ◌&&◌, Option, none, some, if◌then◌else◌, leb, ltb, bytes_eq, bytes_eq_iff, length,
  length-append, take, drop, take-append, drop-append, replicate, All, IsInt64, arith,
}
use elastos_ela_side_chain_t.Texts.{Texts}
use elastos_ela_side_chain_t.Types.{Uint256, Asset, TxType, Output, Input, Transaction, Payload}
use elastos_ela_side_chain_t.Library.{Library, ChainParams}
use elastos_ela_side_chain_t.Format.{Format}
use elastos_ela_side_chain_t.Store.Database.{Database, Layout}
use elastos_ela_side_chain_t.Store.Assets.{StoreLibrary}

abbrev is_coin_base : TxType → Bool
is_coin_base TxType.coin_base = true
is_coin_base _ = false

abbrev is_registration : TxType → Bool
is_registration TxType.register_asset = true
is_registration _ = false

abbrev is_recharge_type : TxType → Bool
is_recharge_type TxType.recharge_to_side_chain = true
is_recharge_type _ = false

abbrev is_cross_chain : TxType → Bool
is_cross_chain TxType.transfer_cross_chain_asset = true
is_cross_chain _ = false

abbrev pub ela_id : Uint256
ela_id = replicate 32 1

abbrev pub token_id : Uint256
token_id = replicate 32 2

abbrev pub sample_library : Library
sample_library = record {
  hash = λ txn. replicate 32 txn.lock_time;
  is_coin_base_tx = λ txn. is_coin_base txn.tx_type;
  is_register_asset_tx = λ txn. is_registration txn.tx_type;
  is_recharge_to_side_chain_tx = λ txn. is_recharge_type txn.tx_type;
  is_transfer_cross_chain_asset_tx = λ txn. is_cross_chain txn.tx_type;
  asset_hash = λ a. replicate 32 (length a.name);
  is_equal = bytes_eq;
  is_equal_iff = bytes_eq_iff;
  get_mainchain_tx_hash = λ p v. some p.main_chain_transaction_hash;
  system_asset_id = ela_id;
  empty_hash = replicate 32 0;
  min_precision = 0;
  prefix_standard = 33;
  prefix_multi_sig = 18;
  prefix_cross_chain = 75;
  int64_of_pow10 = λ n. pos 0;
}

abbrev pub foundation : Bytes
foundation = 33 ∷ replicate 20 9

abbrev pub address : Bytes
address = 33 ∷ replicate 20 5

abbrev pub sample_params : ChainParams
sample_params = record {
  foundation = foundation;
  ela_asset_id = ela_id;
  coinbase_maturity = 100;
  min_transaction_fee = pos 100;
  min_cross_chain_tx_fee = pos 10000;
}

-- The first `n` bytes, and the rest.
abbrev read_bytes : ℕ → Bytes → Option (Bytes × Bytes)
read_bytes n b = if leb n (length b) then some (take n b, drop n b) else none

pub read_bytes-append :
    (n : ℕ) (h rest : Bytes) → length h ≡ n → read_bytes n (h ++ rest) ≡ some (h, rest)
read_bytes-append n h rest e =
    ground (arith, length-append h rest, take-append h rest, drop-append h rest)

abbrev read_four : Bytes → Option (ℕ × Bytes)
read_four (a ∷ b ∷ c ∷ d ∷ rest) = some (a, rest)
read_four _ = none

abbrev read_one : Bytes → Option (ℕ × Bytes)
read_one (a ∷ rest) = some (a, rest)
read_one [] = none

abbrev read_counted : ℕ → Bytes → Option (Bytes × Bytes)
read_counted limit (n ∷ b) = if leb n limit then read_bytes n b else none
read_counted limit [] = none

abbrev signed_bytes : ℤ → Bytes
signed_bytes (pos n) = 0 ∷ n ∷ []
signed_bytes (negsuc n) = 1 ∷ n ∷ []

abbrev read_signed : Bytes → Option (ℤ × Bytes)
read_signed (zero ∷ n ∷ rest) = some (pos n, rest)
read_signed (suc zero ∷ n ∷ rest) = some (negsuc n, rest)
read_signed _ = none

pub read_signed-signed_bytes :
    (v : ℤ) (rest : Bytes) → IsInt64 v → read_signed (signed_bytes v ++ rest) ≡ some (v, rest)
read_signed-signed_bytes (pos n) rest h = refl
read_signed-signed_bytes (negsuc n) rest h = refl

pub read_counted-long :
    (limit : ℕ) (b rest : Bytes)
    → limit < length b
    → read_counted limit (length b ∷ b ++ rest) ≡ none
read_counted-long limit b rest h = ground arith

pub read_counted-fits :
    (limit : ℕ) (b rest : Bytes)
    → length b ≤ limit
    → read_counted limit (length b ∷ b ++ rest) ≡ some (b, rest)
read_counted-fits limit b rest h = ground (arith, read_bytes-append (length b) b rest refl)

abbrev pub sample_format : Format
sample_format = record {
  uint256_bytes = λ h. h;
  read_uint256 = read_bytes 32;
  read_uint256-bytes = read_bytes-append 32;
  uint256_bytes_inj = λ g h e. e;
  uint168_bytes = λ h. h;
  read_uint168 = read_bytes 21;
  read_uint168-bytes = read_bytes-append 21;
  uint32_bytes = λ n. n ∷ 0 ∷ 0 ∷ 0 ∷ [];
  read_uint32 = read_four;
  read_uint32-bytes = λ n rest h. refl;
  var_uint_bytes = λ n. n ∷ [];
  read_var_uint = read_one;
  read_var_uint-bytes = λ n rest h. refl;
  var_bytes = λ b. length b ∷ b;
  read_var_bytes = read_counted;
  read_var_bytes-bytes = read_counted-fits;
  read_var_bytes-long = read_counted-long;
  failed_var_bytes = λ limit b. ([], b);
  failed_uint256 = λ b. ([], b);
  failed_uint168 = λ b. ([], b);
  failed_uint32 = λ b. 0;
  skip_bytes = drop;
  skip_bytes-append = drop-append;
  fixed64_bytes = signed_bytes;
  read_fixed64 = read_signed;
  read_fixed64-bytes = read_signed-signed_bytes;
}

abbrev all_uint16 : List ℕ → Bool
all_uint16 [] = true
all_uint16 (n ∷ l) = ltb n (2 ^ 16) && all_uint16 l

all_uint16-All : (l : List ℕ) → All (λ n. n < 2 ^ 16) l → all_uint16 l ≡ true
all_uint16-All [] h = refl
all_uint16-All (n ∷ l) h = ground (arith, all_uint16-All l h.1)

All-all_uint16 : (l : List ℕ) → all_uint16 l ≡ true → All (λ n. n < 2 ^ 16) l
All-all_uint16 [] h = tt
All-all_uint16 (n ∷ l) h = ground (arith, All-all_uint16 l)

abbrev read_uint16s : Bytes → Option (List ℕ)
read_uint16s b = if all_uint16 b then some b else none

pub read_uint16s-fits : (l : List ℕ) → All (λ n. n < 2 ^ 16) l → read_uint16s l ≡ some l
read_uint16s-fits l h = rw (all_uint16-All l h) refl

pub read_uint16s-range :
    (b : Bytes) (l : List ℕ) → read_uint16s b ≡ some l → All (λ n. n < 2 ^ 16) l
read_uint16s-range b l e = ground (arith, All-all_uint16 b)

pub read_uint16s-empty : (l : List ℕ) → read_uint16s [] ≡ some l → l ≡ []
read_uint16s-empty l e = ground arith

abbrev pub sample_layout : Layout
sample_layout = record {
  ix_unspent = 144;
  makes_slice = λ n. true;
  st_info = 192;
  get_uint16_array = read_uint16s;
  to_byte_array = λ l. l;
  get_uint16_array-to_byte_array = read_uint16s-fits;
  get_uint16_array_range = read_uint16s-range;
  get_uint16_array_empty = read_uint16s-empty;
}

-- An empty store.
abbrev pub sample_database : Database
sample_database = record { get = λ k. none; iterator = λ k. []; get_transaction = λ h. none }

-- The asset has a name of at most 255 runes, and that is all of it.
abbrev plain_asset : Bytes → Asset
plain_asset name = record { name = name; description = []; precision = 8; asset_type = 0 }

abbrev pub sample_asset : Asset
sample_asset = plain_asset (84 ∷ 79 ∷ 75 ∷ [])

abbrev first_as_asset : Option (Bytes × Bytes) → Option (Asset × Bytes)
first_as_asset none = none
first_as_asset (some (name, rest)) = some (plain_asset name, rest)

abbrev pub sample_store_library : StoreLibrary
sample_store_library = record {
  asset_bytes = λ a. length a.name ∷ a.name;
  read_asset = λ b. first_as_asset (read_counted 255 b);
  failed_asset = λ b. plain_asset [];
  persist_transaction = λ txn height. some [];
  rollback_transaction = λ txn. some [];
  persist_mainchain_tx = λ h. [];
  rollback_mainchain_tx = λ h. [];
}

pub sample_asset_reads :
    (more : Bytes)
    → sample_store_library.read_asset (sample_store_library.asset_bytes sample_asset ++ more)
      ≡ some (sample_asset, more)
sample_asset_reads more =
    ap first_as_asset (read_counted-fits 255 sample_asset.name more (omega arith))

-- An output of ELA, and one of tokens.
abbrev pub ela_output : Bytes → ℤ → Output
ela_output to value = record {
  asset_id = ela_id;
  value = value;
  token_value = pos 0;
  output_lock = 0;
  program_hash = to;
}

abbrev pub token_output : Bytes → ℤ → Output
token_output to amount = record {
  asset_id = token_id;
  value = pos 0;
  token_value = amount;
  output_lock = 0;
  program_hash = to;
}

abbrev pub sample_transaction : TxType → Payload → List Input → List Output → ℕ → Transaction
sample_transaction kind payload inputs outputs lock = record {
  tx_type = kind;
  payload_version = 0;
  payload = payload;
  inputs = inputs;
  outputs = outputs;
  lock_time = lock;
  attributes = [];
  programs = [];
}

abbrev pub spend : ℕ → ℕ → Input
spend hash index = record {
  previous_tx_id = replicate 32 hash;
  previous_index = index;
  sequence = 0;
}

-- Amounts of ELA as one digit, and texts that are the bytes themselves.
abbrev pub sample_texts : Texts
sample_texts = record {
  fixed64_from_bytes = λ b. Option.map (λ (r : ℤ × Bytes). r.0) (read_signed b);
  fixed64_string = λ v. signed_bytes v;
  bytes_to_hex_string = λ b. b;
  bytes_reverse = λ b. reverse b;
  uint256_from_bytes = λ b. Option.map (λ (r : Bytes × Bytes). r.0) (read_bytes 32 b);
  uint256_string = λ h. reverse h;
  to_reversed_string = λ h. reverse h;
  from_reversed_string = λ s. some (reverse s);
  uint168_from_address = λ s. Option.map (λ (r : Bytes × Bytes). r.0) (read_bytes 21 s);
  to_address = λ h. h;
}
