-- ===== src/Validator/Check.antt =====
-- The errors of the checks of mempool/validator.go, and a loop that stops at the first error.
use elastos_ela_side_chain_t.Base.{
  ℕ, List, [], ◌∷◌, Outcome, ok, ◌>>◌, ◌≡◌, refl, ◌↔◌, ◌++◌, All, arith,
}

-- One constructor for each error text; `name_registered` carries the name that it prints.
pub data Error : Type 0 where
  coinbase_outputs foundation_reward no_outputs asset_id_nil invalid_ela_output : Error
  cross_chain_asset invalid_token_output invalid_address : Error
  unknown_refered_tx invalid_refered_value invalid_refered_token ineffective_coinbase : Error
  not_registration amount_not_positive name_empty name_characters description_characters : Error
  name_registered : List ℕ → Error
  controller_mismatch register_amount : Error
  asset_not_found ela_precision token_precision : Error
  asset_precision ela_amount_precision payload_type : Error
  reference_error cross_chain_fee register_fee transaction_fee token_balance : Error

abbrev pub Check : Type 0
Check = Outcome Error (Unit {0})

-- `for _, x := range xs { if err := f(x); err != nil { return err } }`
unfoldable pub each {ℓ} : {A : Type ℓ} → (A → Check) → List A → Check
each f [] = ok tt
each f (x ∷ xs) = f x >> each f xs

-- The loop passes exactly if every element does.
pub each-All {ℓ κ} :
    {A : Type ℓ} (P : A → Type κ) (f : A → Check) (xs : List A)
    → All (λ x. (f x ≡ ok tt) ↔ P x) xs
    → (each f xs ≡ ok tt) ↔ All P xs
unfolding each
each-All P f [] h = (λ e. tt, λ p. refl)
each-All P f (x ∷ xs) h = ground (arith, h.0, each-All P f xs h.1)

-- Behind elements that pass, the loop ends as the next element does, if that fails.
pub each-append {ℓ} :
    {A : Type ℓ} (f : A → Check) (xs ys : List A)
    → each f xs ≡ ok tt
    → each f (xs ++ ys) ≡ each f ys
unfolding each
each-append f [] ys h = refl
each-append f (x ∷ xs) ys h = ground (arith, each-append f xs ys)
