-- ===== src/Validator/Precision/Groups.antt =====
-- Grouping the outputs by asset, as `checkAssetPrecisionImpl` does, checks every output once.
use elastos_ela_side_chain_t.Base.{
  ◌-◌, ◌%◌, ◌^◌, ◌≤◌, List, [], ◌∷◌, ◌++◌, ◌≡◌, ◌≢◌, refl, ◌↔◌, false, some, none, bytes_eq,
  bytes_eq_iff, length, nat_abs, All, All-map, ok, sym, ◌∙◌, if◌then◌else◌, ◌==◌, arith, Bool-cases,
  Option-cases, inl, inr,
}
use mathlib.Core.Path.{subst}
use elastos_ela_side_chain_t.Types.{Uint256, Asset, Transaction, Output, is_register_asset}
use elastos_ela_side_chain_t.Library.{Library, ChainParams, ChainStore}
use elastos_ela_side_chain_t.Validator.Check.{each, each-All}
use elastos_ela_side_chain_t.Validator.Precision.{
  add_to_group, group_outputs, check_output_precision, check_group, check_asset_precision,
}
use elastos_ela_side_chain_t.Validator.Precision.Amounts.{
  check_amount_precise_lem, check_token_amount_precise_lem,
}

abbrev Groups : Type 0
Groups = List (Uint256 × List Output)

-- Every group has an output, and its outputs have its asset.
abbrev IsKeyed : Uint256 × List Output → Type 0
IsKeyed (k, os) = (1 ≤ length os) × All (λ o. o.asset_id ≡ k) os

module _ (P : Output → Type 0) where
  abbrev AllGroups : Groups → Type 0
  AllGroups = All (λ g. All P g.1)

  All-snoc : (os : List Output) (o : Output) → All P (os ++ (o ∷ [])) ↔ (P o × All P os)
  All-snoc [] o = ground arith
  All-snoc (x ∷ os) o = ground (arith, All-snoc os o)

  AllGroups-add : (o : Output) (gs : Groups) → AllGroups (add_to_group o gs) ↔ (P o × AllGroups gs)
  unfolding add_to_group
  AllGroups-add o [] = ground arith
  AllGroups-add o ((k, os) ∷ gs) = elim (Bool-cases (bytes_eq o.asset_id k)) [
    | inl e ↦ rw e (ground (arith, All-snoc os o))
    | inr e ↦ rw e (ground (arith, AllGroups-add o gs))
  ]

  AllGroups-group :
      (os : List Output) (gs : Groups) → AllGroups (group_outputs os gs) ↔ (All P os × AllGroups gs)
  unfolding group_outputs
  AllGroups-group [] gs = ground arith
  AllGroups-group (o ∷ os) gs =
      ground (arith, AllGroups-group os (add_to_group o gs), AllGroups-add o gs)

same : (a b : Asset) → some a ≡ some b → a ≡ b
same a b e = cc

IsKeyed-add : (o : Output) (gs : Groups) → All IsKeyed gs → All IsKeyed (add_to_group o gs)
unfolding add_to_group
IsKeyed-add o [] h = ground arith
IsKeyed-add o ((k, os) ∷ gs) h = elim (Bool-cases (bytes_eq o.asset_id k)) [
  | inl e ↦ rw e (
    (longer os h.0.0, (All-snoc (λ x. x.asset_id ≡ k) os o).1 ((bytes_eq_iff _ _).0 e, h.0.1)),
    h.1,
  )
  | inr e ↦ rw e (h.0, IsKeyed-add o gs h.1)
]
  where
    longer : (xs : List Output) → 1 ≤ length xs → 1 ≤ length (xs ++ (o ∷ []))
    longer [] e = omega arith
    longer (x ∷ xs) e = omega arith

IsKeyed-group :
    (os : List Output) (gs : Groups) → All IsKeyed gs → All IsKeyed (group_outputs os gs)
unfolding group_outputs
IsKeyed-group [] gs h = h
IsKeyed-group (o ∷ os) gs h = IsKeyed-group os (add_to_group o gs) (IsKeyed-add o gs h)

module _ (lib : Library) (params : ChainParams) (db : ChainStore) where
  -- The precisions of the stored assets, as the payload check admits them.
  pub record HasPrecisions : Type 0 where
    pub any : (k : Uint256) (a : Asset) → db.get_asset k ≡ some a → a.precision ≤ 18
    pub ela : (a : Asset) → db.get_asset params.ela_asset_id ≡ some a → a.precision ≤ 8

  -- The amount has no digit beyond the precision of the asset.
  abbrev pub HasNoExcess : Asset → Output → Type 0
  HasNoExcess a o =
      (o.asset_id ≡ params.ela_asset_id → nat_abs o.value % 10 ^ (8 - a.precision) ≡ 0)
      × (o.asset_id ≢ params.ela_asset_id → nat_abs o.token_value % 10 ^ (18 - a.precision) ≡ 0)

  -- The asset of the output is stored, and the amount has no digit beyond its precision.
  pub record IsPrecise (o : Output) : Type 0 where
    pub asset : Asset
    pub stored : db.get_asset o.asset_id ≡ some asset
    pub digits : HasNoExcess asset o

  module _ (known : HasPrecisions) where
    check_output_precision_iff :
        (o : Output) (a : Asset)
        → db.get_asset o.asset_id ≡ some a
        → (check_output_precision lib params db a.precision o ≡ ok tt) ↔ HasNoExcess a o
    unfolding check_output_precision
    check_output_precision_iff o a found =
        elim (Bool-cases (lib.is_equal o.asset_id params.ela_asset_id)) [
          | inl e ↦ ground (
            arith,
            lib.is_equal_iff o.asset_id params.ela_asset_id,
            check_amount_precise_lem lib o.value a.precision
                (known.ela a (rw (← (lib.is_equal_iff _ _).0 e) found)),
          )
          | inr e ↦ ground (
            arith,
            lib.is_equal_iff o.asset_id params.ela_asset_id,
            check_token_amount_precise_lem lib o.token_value a.precision
                (known.any o.asset_id a found),
          )
        ]

    check_group_iff :
        (g : Uint256 × List Output)
        → IsKeyed g
        → (check_group lib params db g ≡ ok tt) ↔ All IsPrecise g.1
    unfolding check_group
    check_group_iff (k, os) keyed = elim (Option-cases (db.get_asset k)) [
      | inl missing ↦ rw missing (λ e. cc, λ h. absurd (unknown os keyed missing h))
      | inr (a, found) ↦ rw found (
          each-All IsPrecise (check_output_precision lib params db a.precision) os
            (All-map (λ o e. at o a (rw e found)) os keyed.1))
    ]
      where
        unknown :
            (os : List Output) → IsKeyed (k, os) → db.get_asset k ≡ none → All IsPrecise os → ⊥
        unknown [] h missing all = absurd (omega arith)
        unknown (o ∷ os) h missing all = cc (all.0.stored, h.1.0, missing)

        at :
            (o : Output) (a : Asset)
            → db.get_asset o.asset_id ≡ some a
            → (check_output_precision lib params db a.precision o ≡ ok tt) ↔ IsPrecise o
        at o a found = (
          λ e. record {
            asset = a;
            stored = found;
            digits = (check_output_precision_iff o a found).0 e;
          },
          λ p.
              (check_output_precision_iff o a found).1
                (subst (λ b. HasNoExcess b o) (same p.asset a (sym p.stored ∙ found)) p.digits),
        )

    -- Where every stored asset has at most 18 decimals, and ELA at most 8, a transaction that registers
    -- no asset passes exactly if every output is in a stored asset and has no digit beyond that
    -- asset's precision.
    pub check_asset_precision_iff :
        (txn : Transaction)
        → is_register_asset txn.tx_type ≡ false
        → (check_asset_precision lib params db txn ≡ ok tt) ↔ All IsPrecise txn.outputs
    unfolding check_asset_precision
    check_asset_precision_iff txn plain = rw plain (go txn.outputs)
      where
        go :
            (os : List Output)
            → ((if length os == 0
                  then ok tt
                  else each (check_group lib params db) (group_outputs os []))
                ≡ ok tt)
              ↔ All IsPrecise os
        go [] = (λ e. tt, λ h. refl)
        go (o ∷ os) = ground (
          arith,
          each-All (λ g. All IsPrecise g.1) (check_group lib params db) (group_outputs (o ∷ os) [])
              (All-map check_group_iff (group_outputs (o ∷ os) []) (IsKeyed-group (o ∷ os) [] tt)),
          AllGroups-group IsPrecise (o ∷ os) [],
        )
