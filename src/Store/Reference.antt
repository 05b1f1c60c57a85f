-- ===== src/Store/Reference.antt =====
-- `GetTxReference` of blockchain/chainstore.go: the outputs that a transaction spends.
use mathlib.Core.List.{map}
use elastos_ela_side_chain_t.Base.{
  ℕ, ◌≡◌, refl, ap, ◌∙◌, List, [], ◌∷◌, some, Outcome, ok, err, ◌>>=◌, or_err, get_elem?, All,
  >>=-eq-ok, ok-injective, ◌↔◌, arith, Option-cases, inl, inr,
}
use mathlib.Core.Path.{subst}
use elastos_ela_side_chain_t.Types.{Transaction, Input, Output}
use elastos_ela_side_chain_t.Store.Database.{StoreError, Database}

-- The lookup of one input. An index behind the outputs is an error.
unfoldable pub reference_of : Database → Input → Outcome StoreError Output
reference_of db input = do
  (transaction, _) ← or_err (db.get_transaction input.previous_tx_id) StoreError.reference_not_found
  or_err (get_elem? transaction.outputs input.previous_index) StoreError.index_out_of_range

-- The loop. The keys of the map are pointers, so each input has an entry of its own.
unfoldable pub get_references : Database → List Input → Outcome StoreError (List (Input × Output))
get_references db [] = ok []
get_references db (input ∷ inputs) = do
  o ← reference_of db input
  rest ← get_references db inputs
  ok ((input, o) ∷ rest)

-- `GetTxReference`
unfoldable pub get_tx_reference :
    Database → Transaction → Outcome StoreError (List (Input × Output))
get_tx_reference db tx = get_references db tx.inputs

-- The output that an input names is in the store.
abbrev pub Names : Database → Input × Output → Type 0
Names db (input, o) =
    (txn : Transaction) × (height : ℕ) × (db.get_transaction input.previous_tx_id
      ≡ some (txn, height))
    × (get_elem? txn.outputs input.previous_index ≡ some o)

reference_of-Names :
    (db : Database) (input : Input) {o : Output}
    → reference_of db input ≡ ok o
    → Names db (input, o)
unfolding reference_of
reference_of-Names db input {o} e = elim (Option-cases (db.get_transaction input.previous_tx_id)) [
  | inl missing ↦ absurd (ground arith)
  | inr ((txn, height), found) ↦ (txn, height, found, at txn height found)
]
  where
    refused : ◌≡◌ {A = Outcome StoreError Output} (err StoreError.index_out_of_range) (ok o) → ⊥
    refused h = cc

    at :
        (txn : Transaction) (height : ℕ)
        → db.get_transaction input.previous_tx_id ≡ some (txn, height)
        → get_elem? txn.outputs input.previous_index ≡ some o
    at txn height found = elim (Option-cases (get_elem? txn.outputs input.previous_index)) [
      | inl missing ↦ absurd (refused (rw (found, missing) at e))
      | inr (p, there) ↦ there ∙ ap some (ok-injective (rw (found, there) at e))
    ]

get_references-Names :
    (db : Database) (inputs : List Input) {refs : List (Input × Output)}
    → get_references db inputs ≡ ok refs
    → (map (λ r. r.0) refs ≡ inputs) × All (Names db) refs
unfolding get_references
get_references-Names db [] e =
    subst (λ x. (map (λ r. r.0) x ≡ []) × All (Names db) x) (ok-injective e) (refl, tt)
get_references-Names db (input ∷ inputs) e =
    let (o, here, e1) = >>=-eq-ok (reference_of db input) _ e in
    let (rest, later, made) = >>=-eq-ok (get_references db inputs) _ e1 in
    let (same, names) = get_references-Names db inputs later in
    subst (λ x. (map (λ r. r.0) x ≡ input ∷ inputs) × All (Names db) x) (ok-injective made)
      (ap (◌∷◌ input) same, (reference_of-Names db input here, names))

reference_of-total :
    (db : Database) (input : Input) (o : Output)
    → Names db (input, o)
    → reference_of db input ≡ ok o
unfolding reference_of
reference_of-total db input o (txn, height, found, at) = rw (found, at) refl

get_references-total :
    (db : Database) (refs : List (Input × Output))
    → All (Names db) refs
    → get_references db (map (λ r. r.0) refs) ≡ ok refs
unfolding get_references
get_references-total db [] names = refl
get_references-total db ((input, o) ∷ refs) (here, names) =
    rw (reference_of-total db input o here, get_references-total db refs names) refl

-- `GetTxReference` succeeds with a map exactly when the map has every input in order, each with the
-- output of the stored transaction that the input names.
pub get_tx_reference_iff :
    (db : Database) (tx : Transaction) (refs : List (Input × Output))
    → (get_tx_reference db tx ≡ ok refs) ↔ ((map (λ r. r.0) refs ≡ tx.inputs) × All (Names db) refs)
unfolding get_tx_reference
get_tx_reference_iff db tx refs = (
  get_references-Names db tx.inputs,
  λ h. subst (λ x. get_references db x ≡ ok refs) h.0 (get_references-total db refs h.1),
)
