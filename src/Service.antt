-- ===== src/Service.antt =====
-- service/service.go: the JSON-RPC actions of the token chain. The calls of the libraries' texts and
-- hashes are those of `Texts`.
pub mod Received
pub mod Unspent
pub mod Assets
pub mod Payloads
pub mod Transactions
pub mod State
use mathlib.Core.List.{Perm}
use elastos_ela_side_chain_t.Base.{
  ℕ, Bytes, List, [], ◌∷◌, Option, none, some, Outcome, ok, err, panic, ◌≡◌, ap, ok-injective,
}

-- `param["addresses"]`: an array, whose elements that are no strings are `none`, or another type.
pub data Value : Type 0 where
  array : List (Option Bytes) → Value
  not_an_array : Value

-- `http.Params`, as what `String` gives for the keys that the actions read; `none` is not ok.
pub record Params : Type 0 where
  pub address : Option Bytes
  pub assetid : Option Bytes
  pub hash : Option Bytes
  pub addresses : Option Value

-- The errors that the actions return.
pub data ServiceError : Type 0 where
  invalid_params need_address not_a_string wrong_type invalid_address : ServiceError
  no_asset unknown_transaction store_failed : ServiceError

-- The order in which the `n`-th `range` over a map visits its entries: Go leaves it open.
pub record RangeOrder (K V : Type 0) : Type 0 where
  pub visit : ℕ → List (K × V) → List (K × V)
  pub visit-Perm : (n : ℕ) (m : List (K × V)) → Perm (visit n m) m

-- A call of the store whose error is answered by another.
abbrev pub or_error {ℓ} :
    {E : Type 0} {A : Type ℓ} → Outcome E A → ServiceError → Outcome ServiceError A
or_error (ok a) e = ok a
or_error (err _) e = err e
or_error panic e = panic

pub or_error-ok {ℓ} :
    {E : Type 0} {A : Type ℓ} (r : Outcome E A) (e : ServiceError) {a : A}
    → or_error r e ≡ ok a
    → r ≡ ok a
or_error-ok (ok a) e h = ap ok (ok-injective h)
or_error-ok (err x) e h = absurd (cc)
or_error-ok panic e h = absurd (cc)
