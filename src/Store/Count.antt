-- ===== src/Store/Count.antt =====
-- Slices of output indices as multisets: how often each index stands in them.
use mathlib.Core.List.{Perm, foldr}
use mathlib.Core.List.Perm
use native.Mathlib.Nat.{ℕ_set}
use elastos_ela_side_chain_t.Base.{
  ℕ, suc, ◌+◌, ◌-◌, ◌≡◌, refl, List, [], ◌∷◌, ◌++◌, Bool, false, if◌then◌else◌, ◌==◌, ==_iff, All,
  arith, Option-cases, inl, inr,
}
use elastos_ela_side_chain_t.Store.Removal.{
  find_index, find_index-some, find_index-none, swap_remove, swap_remove-perm, remove_found,
}

-- How many elements pass a test.
module _ {A : Type 0} where
  unfoldable pub count_if : (A → Bool) → List A → ℕ
  count_if p [] = 0
  count_if p (x ∷ xs) = if p x then suc (count_if p xs) else count_if p xs

  count_if-foldr :
      (p : A → Bool) (l : List A) → count_if p l ≡ foldr (λ x n. if p x then suc n else n) 0 l
  unfolding count_if
  count_if-foldr p [] = refl
  count_if-foldr p (x ∷ xs) = rw (count_if-foldr p xs)

  pub count_if-perm : (p : A → Bool) (l m : List A) → Perm l m → count_if p l ≡ count_if p m
  count_if-perm p l m perm =
      rw (count_if-foldr, count_if-foldr)
        (Perm.foldr-eq ℕ_set (λ x n. if p x then suc n else n) comm perm 0)
    where
      comm :
          (a b : A) (n : ℕ)
          → (if p a then suc (if p b then suc n else n) else (if p b then suc n else n))
            ≡ (if p b then suc (if p a then suc n else n) else (if p a then suc n else n))
      comm a b n = ground arith

  pub count_if-cons :
      (p : A → Bool) (x : A) (l : List A)
      → count_if p (x ∷ l) ≡ (if p x then suc (count_if p l) else count_if p l)
  unfolding count_if
  count_if-cons p x l = refl

  pub count_if-absent : (p : A → Bool) (l : List A) → All (λ x. p x ≡ false) l → count_if p l ≡ 0
  unfolding count_if
  count_if-absent p [] h = refl
  count_if-absent p (x ∷ l) h = ground (arith, count_if-absent p l h.1)

  pub count_if-append :
      (p : A → Bool) (l m : List A) → count_if p (l ++ m) ≡ count_if p l + count_if p m
  unfolding count_if
  count_if-append p [] m = omega arith
  count_if-append p (x ∷ l) m = ground (arith, count_if-append p l m)

-- How often a number occurs.
abbrev pub count : ℕ → List ℕ → ℕ
count j l = count_if (λ x. x == j) l

-- The source's loop: the first element equal to `v`, if there is one, is swapped out.
unfoldable pub remove_value : ℕ → List ℕ → List ℕ
remove_value v l = remove_found (find_index (λ x. x == v) l) l

pub count-remove_value :
    (v j : ℕ) (l : List ℕ) → count j (remove_value v l) ≡ count j l - (if v == j then 1 else 0)
unfolding remove_value
count-remove_value v j l = elim (Option-cases (find_index (λ x. x == v) l)) [
  | inl missing ↦
      rw missing
        (ground (arith, count_if-absent (λ x. x == v) l (find_index-none (λ x. x == v) l missing)))
  | inr (i, found) ↦
      let (x, at, same) = find_index-some (λ x. x == v) l found in
      rw found (
        ground (
          arith,
          ==_iff x v,
          count_if-perm (λ x. x == j) (x ∷ swap_remove i l) l (swap_remove-perm l i at),
          count_if-cons (λ x. x == j) x (swap_remove i l),
        ))
]
