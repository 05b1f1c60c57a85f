-- ===== src/Store/Kept.antt =====
-- What holds of all elements of a slice holds after one is taken out.
use mathlib.Core.Path.{subst}
use elastos_ela_side_chain_t.Base.{
  ℕ, zero, suc, ◌-◌, ◌≡◌, refl, List, [], ◌∷◌, Option, none, some, All, take, length, get_elem?,
  ◌==◌, arith, Option-cases, inl, inr,
}
use elastos_ela_side_chain_t.Store.Removal.{find_index, swap_remove, put_last, set}
use elastos_ela_side_chain_t.Store.Count.{remove_value}

module _ {A : Type 0} (P : A → Type 0) where
  All-set : (l : List A) (i : ℕ) (v : A) → All P l → P v → All P (set l i v)
  All-set [] i v h p = tt
  All-set (x ∷ l) zero v h p = (p, h.1)
  All-set (x ∷ l) (suc i) v h p = (h.0, All-set l i v h.1 p)

  All-take : (n : ℕ) (l : List A) → All P l → All P (take n l)
  All-take zero l h = tt
  All-take (suc n) [] h = tt
  All-take (suc n) (x ∷ l) h = (h.0, All-take n l h.1)

  pub All-get : (l : List A) (i : ℕ) {x : A} → All P l → get_elem? l i ≡ some x → P x
  All-get [] i h e = absurd (ground arith)
  All-get (y ∷ l) zero {x} h e = subst P (same y x e) h.0
    where
      same : (a b : A) → some a ≡ some b → a ≡ b
      same a b e = cc
  All-get (y ∷ l) (suc i) h e = All-get l i h.1 e

  All-put_last :
      (o : Option A) (i : ℕ) (l : List A)
      → get_elem? l (length l - 1) ≡ o
      → All P l
      → All P (put_last o i l)
  unfolding put_last
  All-put_last none i l e h = h
  All-put_last (some x) i l e h = All-take _ _ (All-set l i x h (All-get l (length l - 1) h e))

  pub All-swap_remove : (i : ℕ) (l : List A) → All P l → All P (swap_remove i l)
  unfolding swap_remove
  All-swap_remove i l h = All-put_last _ i l refl h

pub All-remove_value : (P : ℕ → Type 0) (v : ℕ) (l : List ℕ) → All P l → All P (remove_value v l)
unfolding remove_value
All-remove_value P v l h = elim (Option-cases (find_index (λ x. x == v) l)) [
  | inl missing ↦ rw missing h
  | inr (i, found) ↦ rw found (All-swap_remove P i l h)
]
