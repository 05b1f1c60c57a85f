-- ===== src/Base/Assoc.antt =====
-- Go maps as association lists, over keys with a decidable equality.
use Prim.Native.Nat.{ℕ}
use mathlib.Core.Path.{◌≡◌, refl}
use mathlib.Core.Bool.{Bool, true}
use mathlib.Core.Logic.{◌↔◌, inl, inr}
use mathlib.Core.Option.{Option, none, some}
use mathlib.Core.List.{List, [], ◌∷◌}
use native.Mathlib.Omega.{arith}
use elastos_ela_side_chain_t.Base.Tests.{◌==◌, ==_iff, Bool-cases, if◌then◌else◌}
use elastos_ela_side_chain_t.Base.Lists.{Bytes, bytes_eq, bytes_eq_iff}

pub record Eq {ℓ} (A : Type ℓ) : Type ℓ where
  pub eqb : A → A → Bool
  pub eqb_iff : (a b : A) → (eqb a b ≡ true) ↔ (a ≡ b)

instance abbrev pub nat_Eq : Eq ℕ
nat_Eq = record { eqb = ◌==◌; eqb_iff = ==_iff }

instance abbrev pub bytes_Eq : Eq Bytes
bytes_Eq = record { eqb = bytes_eq; eqb_iff = bytes_eq_iff }

module _ {K : Type 0} {V : Type 0} ⦃e : Eq K⦄ where
  -- `m[k]`
  unfoldable pub lookup : K → List (K × V) → Option V
  lookup k [] = none
  lookup k ((j, v) ∷ m) = if e.eqb j k then some v else lookup k m

  -- `m[k] = v`
  unfoldable pub insert : K → V → List (K × V) → List (K × V)
  insert k v [] = (k, v) ∷ []
  insert k v ((j, w) ∷ m) = if e.eqb j k then (j, v) ∷ m else (j, w) ∷ insert k v m

  pub lookup-insert :
      (k j : K) (v : V) (m : List (K × V))
      → lookup j (insert k v m) ≡ (if e.eqb k j then some v else lookup j m)
  unfolding lookup insert
  lookup-insert k j v [] = refl
  lookup-insert k j v ((i, w) ∷ m) =
      ground (arith, e.eqb_iff k j, e.eqb_iff i k, e.eqb_iff i j, lookup-insert k j v m)

  -- No key stands twice.
  abbrev pub Distinct : List (K × V) → Type 0
  Distinct [] = Unit {0}
  Distinct ((k, v) ∷ m) = (lookup k m ≡ none) × Distinct m

  pub Distinct-insert : (k : K) (v : V) (m : List (K × V)) → Distinct m → Distinct (insert k v m)
  unfolding insert
  Distinct-insert k v [] h = (unfold lookup in refl, tt)
  Distinct-insert k v ((j, w) ∷ m) h = elim (Bool-cases (e.eqb j k)) [
    | inl same ↦ rw same h
    | inr other ↦ rw other (
      ground (arith, lookup-insert k j v m, e.eqb_iff k j, e.eqb_iff j k, h.0),
      Distinct-insert k v m h.1,
    )
  ]
