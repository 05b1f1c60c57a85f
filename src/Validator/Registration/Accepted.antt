-- ===== src/Validator/Registration/Accepted.antt =====
-- Which registrations are accepted.
use elastos_ela_side_chain_t.Base.{
  ℕ, ℤ, pos, ◌^◌, ◌≤◌, ◌+ℤ◌, ◌*ℤ◌, ◌<ℤ◌, List, [], ◌∷◌, ◌≡◌, ◌≢◌, ◌↔◌, ◌⊎◌, inl, inr, true, some,
  if◌then◌else◌, bytes_eq_iff, length, All, All-of, ok, arith, eqb_ℤ, eqb_ℤ_iff, Option-cases,
  Outcome-cases, +ℤ_zero, zero_+ℤ, +ℤ_assoc,
}
use elastos_ela_side_chain_t.Types.{
  Transaction, Output, Asset, PayloadRegisterAsset, as_registration, is_register_asset,
}
use elastos_ela_side_chain_t.Library.{Library, ChainStore}
use elastos_ela_side_chain_t.Validator.Check.{each, each-All}
use elastos_ela_side_chain_t.Validator.Registration.{
  check_name_char, check_description_char, check_name_new, total_token, check_registration,
  check_register_asset_tx,
}

-- A digit or an ASCII letter.
abbrev pub IsAlphanumeric : ℕ → Type 0
IsAlphanumeric c = ((b'0' ≤ c) × (c ≤ b'9')) ⊎ ((b'A' ≤ c) × (c ≤ b'Z')) ⊎ ((b'a' ≤ c) × (c ≤ b'z'))

abbrev pub IsPrintable : ℕ → Type 0
IsPrintable c = (b' ' ≤ c) × (c ≤ b'~')

check_name_char_iff : (c : ℕ) → (check_name_char c ≡ ok tt) ↔ IsAlphanumeric c
unfolding check_name_char
check_name_char_iff c = ground arith

check_description_char_iff : (c : ℕ) → (check_description_char c ≡ ok tt) ↔ IsPrintable c
unfolding check_description_char
check_description_char_iff c = ground arith

check_name_new_iff : (a b : Asset) → (check_name_new a b ≡ ok tt) ↔ (b.name ≢ a.name)
unfolding check_name_new
check_name_new_iff a b = ground (arith, bytes_eq_iff b.name a.name)

module _ (lib : Library) where
  -- The tokens of the registered asset in the outputs.
  unfoldable pub tokens_of : PayloadRegisterAsset → List Output → ℤ
  tokens_of p [] = pos 0
  tokens_of p (o ∷ os) =
      if lib.is_equal o.asset_id (lib.asset_hash p.asset)
      then o.token_value +ℤ tokens_of p os
      else tokens_of p os

  -- Each output of the registered asset goes to the controller.
  abbrev pub GoesToController : PayloadRegisterAsset → Output → Type 0
  GoesToController p o = o.asset_id ≡ lib.asset_hash p.asset → o.program_hash ≡ p.controller

  total_token_sound :
      (p : PayloadRegisterAsset) (os : List Output) (t r : ℤ)
      → total_token lib p os t ≡ ok r
      → All (GoesToController p) os × (r ≡ t +ℤ tokens_of p os)
  unfolding total_token tokens_of
  total_token_sound p [] t r e = ground (arith, +ℤ_zero t)
  total_token_sound p (o ∷ os) t r e = ground (
    arith,
    lib.is_equal_iff o.asset_id (lib.asset_hash p.asset),
    lib.is_equal_iff o.program_hash p.controller,
    total_token_sound p os (t +ℤ o.token_value) r,
    total_token_sound p os t r,
    +ℤ_assoc t o.token_value (tokens_of p os),
  )

  total_token_complete :
      (p : PayloadRegisterAsset) (os : List Output) (t : ℤ)
      → All (GoesToController p) os
      → total_token lib p os t ≡ ok (t +ℤ tokens_of p os)
  unfolding total_token tokens_of
  total_token_complete p [] t h = rw (+ℤ_zero t)
  total_token_complete p (o ∷ os) t h = ground (
    arith,
    lib.is_equal_iff o.asset_id (lib.asset_hash p.asset),
    lib.is_equal_iff o.program_hash p.controller,
    total_token_complete p os (t +ℤ o.token_value) h.1,
    total_token_complete p os t h.1,
    +ℤ_assoc t o.token_value (tokens_of p os),
  )

  -- What a registration has to meet.
  pub record IsAccepted (db : ChainStore) (outputs : List Output) (p : PayloadRegisterAsset)
      : Type 0 where
    pub positive : pos 0 <ℤ p.amount
    pub named : 1 ≤ length p.asset.name
    pub name_letters : All IsAlphanumeric p.asset.name
    pub described : All IsPrintable p.asset.description
    pub new_name : All (λ a. a.name ≢ p.asset.name) db.get_assets
    pub controlled : All (GoesToController p) outputs
    pub issued : tokens_of p outputs ≡ p.amount *ℤ pos (10 ^ 18)

  each_name : (s : List ℕ) → (each check_name_char s ≡ ok tt) ↔ All IsAlphanumeric s
  each_name s = each-All IsAlphanumeric check_name_char s (All-of check_name_char_iff s)

  each_description : (s : List ℕ) → (each check_description_char s ≡ ok tt) ↔ All IsPrintable s
  each_description s =
      each-All IsPrintable check_description_char s (All-of check_description_char_iff s)

  each_new :
      (a : Asset) (l : List Asset)
      → (each (check_name_new a) l ≡ ok tt) ↔ All (λ (b : Asset). b.name ≢ a.name) l
  each_new a l =
      each-All (λ b. b.name ≢ a.name) (check_name_new a) l (All-of (check_name_new_iff a) l)

  check_registration_sound :
      (db : ChainStore) (os : List Output) (p : PayloadRegisterAsset)
      → check_registration lib db os p ≡ ok tt
      → IsAccepted db os p
  unfolding check_registration
  check_registration_sound db os p e =
      let (checks, total) = parts in
      record {
        positive = checks.0;
        named = checks.1;
        name_letters = (each_name p.asset.name).0 checks.2;
        described = (each_description p.asset.description).0 checks.3;
        new_name = (each_new p.asset db.get_assets).0 checks.4;
        controlled = (total_token_sound p os (pos 0) _ total.1).0;
        issued = ground (
          arith,
          total,
          total_token_sound p os (pos 0) total.0 total.1,
          zero_+ℤ (tokens_of p os),
          eqb_ℤ_iff total.0 (p.amount *ℤ pos (10 ^ 18)),
        );
      }
    where
      parts :
          ((pos 0 <ℤ p.amount)
            × (1 ≤ length p.asset.name)
            × (each check_name_char p.asset.name ≡ ok tt)
            × (each check_description_char p.asset.description ≡ ok tt)
            × (each (check_name_new p.asset) db.get_assets ≡ ok tt))
          × ((r : ℤ) × (total_token lib p os (pos 0) ≡ ok r)
              × (eqb_ℤ r (p.amount *ℤ pos (10 ^ 18)) ≡ true))
      parts = elim (Outcome-cases (total_token lib p os (pos 0))) [
        | inl (r, f) ↦ (ground arith, (r, f, ground arith))
        | inr (inl (x, f)) ↦ absurd (ground arith)
        | inr (inr f) ↦ absurd (ground arith)
      ]

  check_registration_complete :
      (db : ChainStore) (os : List Output) (p : PayloadRegisterAsset)
      → IsAccepted db os p
      → check_registration lib db os p ≡ ok tt
  unfolding check_registration
  check_registration_complete db os p h = ground (
    arith,
    (each_name p.asset.name).1 h.name_letters,
    (each_description p.asset.description).1 h.described,
    (each_new p.asset db.get_assets).1 h.new_name,
    total_token_complete p os (pos 0) h.controlled,
    zero_+ℤ (tokens_of p os),
    h.issued,
    eqb_ℤ_iff (tokens_of p os) (p.amount *ℤ pos (10 ^ 18)),
  )

  -- A register asset transaction passes exactly if its payload is a registration with a positive
  -- amount, a new name of ASCII letters and digits, a printable description, and outputs that send
  -- all of its tokens to the controller and issue exactly the amount, at 18 decimals.
  pub check_register_asset_tx_iff :
      (db : ChainStore) (txn : Transaction)
      → is_register_asset txn.tx_type ≡ true
      → (check_register_asset_tx lib db txn ≡ ok tt) ↔ (
          (p : PayloadRegisterAsset) × (as_registration txn.payload ≡ some p)
          × IsAccepted db txn.outputs p)
  unfolding check_register_asset_tx
  check_register_asset_tx_iff db txn is = elim (Option-cases (as_registration txn.payload)) [
    | inl missing ↦ (λ e. absurd (ground arith), λ (p, found, h). absurd (ground arith))
    | inr (p, found) ↦ (
      λ e. (p, found, check_registration_sound db txn.outputs p (ground arith)),
      λ (q, same, h). ground (arith, check_registration_complete db txn.outputs q h),
    )
  ]
