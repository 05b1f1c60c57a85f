-- ===== src/Store/Listing/Infos.antt =====
-- `GetAssets` against `GetAsset`.
use mathlib.Core.List.{append-nil}
use mathlib.Core.Option.{some-injective}
use elastos_ela_side_chain_t.Base.{
  ◌≡◌, refl, Bytes, List, [], ◌∷◌, length, All, Outcome, ok, err, map, Option, none, some, bytes_eq,
  bytes_eq_iff, Bool-cases, Option-cases, ◌>>=◌, inl, inr, or_err, ok-injective, ◌⊎◌, ◌≢◌, ◌↔◌, ap,
}
use elastos_ela_side_chain_t.Base.Assoc.{bytes_Eq, lookup, insert, lookup-insert, Distinct}
use elastos_ela_side_chain_t.Types.{Uint256}
use elastos_ela_side_chain_t.Library.{Library}
use elastos_ela_side_chain_t.Format.{Format}
use elastos_ela_side_chain_t.Store.Database.{StoreError, Database, Layout}
use elastos_ela_side_chain_t.Store.Assets.{
  StoreLibrary, AssetInfo, is_ela, asset_key, get_asset, deserialize_asset_info, info_of,
}
use elastos_ela_side_chain_t.Store.Listing.{
  or_failed, id_of_key, info_left, gather_assets, get_assets,
}

module _ (lib : Library) (format : Format) (layout : Layout) (store_lib : StoreLibrary) where
  id_of_key-asset_key :
      (h : Uint256)
      → length h ≡ 32
      → id_of_key format store_lib (asset_key lib format layout store_lib h) ≡ h
  unfolding id_of_key asset_key
  id_of_key-asset_key h size =
      let skip : format.skip_bytes 1 (layout.st_info ∷ format.uint256_bytes h)
          ≡ format.uint256_bytes h =
        format.skip_bytes-append (layout.st_info ∷ []) (format.uint256_bytes h) in
      let read = rw append-nil at (format.read_uint256-bytes h [] size) in
      rw (id_of_key, skip, read, or_failed) (unfold or_failed in refl)

  -- What the store holds under the prefix of assets.
  abbrev pub asset_entry : Uint256 × Bytes → Bytes × Bytes
  asset_entry (h, value) = (asset_key lib format layout store_lib h, value)

  abbrev read_as : Option Bytes → Option AssetInfo → Option AssetInfo
  read_as none before = before
  read_as (some value) before = some (info_left format store_lib value)

  gather_assets-lookup :
      (entries : List (Uint256 × Bytes)) (m : List (Uint256 × AssetInfo)) (h : Uint256)
      → All (λ (e : Uint256 × Bytes). length e.0 ≡ 32) entries
      → Distinct entries
      → lookup h (gather_assets format store_lib (map asset_entry entries) m)
        ≡ read_as (lookup h entries) (lookup h m)
  unfolding gather_assets lookup
  gather_assets-lookup [] m h sizes distinct = refl
  gather_assets-lookup ((g, value) ∷ entries) m h (size, sizes) (new, distinct) =
      let n = insert g (info_left format store_lib value) m in
      rw
        (gather_assets, id_of_key-asset_key g size, gather_assets-lookup entries n h sizes distinct)
        (elim (Bool-cases (bytes_eq g h)) [
          | inl is ↦
              let gone : lookup h entries ≡ none = rw ((bytes_eq_iff g h).0 is) at new in
              rw (is, gone, lookup-insert g h (info_left format store_lib value) m, is) refl
          | inr other ↦
              rw (other, lookup-insert g h (info_left format store_lib value) m, other) refl
        ])

  -- The read of `GetAsset` fails, or gives what `GetAssets` takes from the value.
  info_left-read :
      (value : Bytes)
      → (info_of lib format layout store_lib
            (deserialize_asset_info lib format layout store_lib 0 value)
          ≡ err StoreError.read_error)
        ⊎ (info_of lib format layout store_lib
              (deserialize_asset_info lib format layout store_lib 0 value)
            ≡ ok (info_left format store_lib value))
  unfolding info_of deserialize_asset_info info_left
  info_left-read value = elim (Option-cases (store_lib.read_asset value)) [
    | inl bad ↦ rw bad (inl refl)
    | inr ((asset, r1), good) ↦ elim (Bool-cases (is_ela asset)) [
      | inl named ↦ rw (good, named) (inr refl)
      | inr named ↦ elim (Option-cases (format.read_uint32 r1)) [
        | inl short ↦ rw (good, named, short) (inl refl)
        | inr (read, full) ↦ rw (good, named, full) (inr refl)
      ]
    ]
  ]

  -- A value that is held, and what is read from it.
  read_held : Option Bytes → Outcome StoreError AssetInfo
  read_held o = or_err o StoreError.not_found >>= λ value.
      info_of lib format layout store_lib
        (deserialize_asset_info lib format layout store_lib 0 value)

  -- Where the read does not fail, it gives what `GetAssets` takes from the value, if there is one.
  read_held-info_left :
      (o : Option Bytes)
      → read_held o ≢ err StoreError.read_error
      → ((info : AssetInfo) → (read_held o ≡ ok info) ↔ (read_as o none ≡ some info))
        × ((read_held o ≡ err StoreError.not_found) ↔ (read_as o none ≡ none))
  unfolding read_held
  read_held-info_left none sound =
      (λ info. (λ e. absurd (cc), λ e. absurd (cc)), (λ e. refl, λ e. refl))
  read_held-info_left (some value) sound = elim (info_left-read value) [
    | inl bad ↦ absurd (sound bad)
    | inr good ↦ rw good (
      λ info. (λ e. ap some (ok-injective e), λ e. ap ok (some-injective _ info e)),
      (λ e. absurd (cc), λ e. absurd (cc)),
    )
  ]

  -- Where the iterator and `Get` show the same entries, and `GetAsset` can read what is held under an
  -- id, `GetAsset` returns an asset for the id exactly if this asset stands under the id in the
  -- map that `GetAssets` returns, and finds none exactly if nothing stands there. The ids have 32
  -- bytes, and none stands twice.
  pub get_assets-get_asset :
      (db : Database) (entries : List (Uint256 × Bytes)) (h : Uint256)
      → db.iterator (layout.st_info ∷ []) ≡ map asset_entry entries
      → ((g : Uint256) → db.get (asset_key lib format layout store_lib g) ≡ lookup g entries)
      → All (λ (e : Uint256 × Bytes). length e.0 ≡ 32) entries
      → Distinct entries
      → get_asset lib format layout store_lib db h ≢ err StoreError.read_error
      → ((info : AssetInfo)
          → (get_asset lib format layout store_lib db h ≡ ok info)
            ↔ (lookup h (get_assets format store_lib layout db) ≡ some info))
        × ((get_asset lib format layout store_lib db h ≡ err StoreError.not_found)
            ↔ (lookup h (get_assets format store_lib layout db) ≡ none))
  unfolding get_assets get_asset
  get_assets-get_asset db entries h iterated got sizes distinct readable =
      let start : lookup {V = AssetInfo} h [] ≡ none = unfold lookup in refl in
      let all = rw start at (gather_assets-lookup entries [] h sizes distinct) in
      rw (iterated, all, got h)
        (unfold read_held in read_held-info_left (lookup h entries) (rw (got h) at readable))
