-- ===== src/Store/Removal.antt =====
-- The two ways in which blockchain/chainstore.go takes an element out of a slice.
use mathlib.Core.List.{Perm}
use mathlib.Core.List.Perm
use mathlib.Core.Option
use elastos_ela_side_chain_t.Base.{
  ℕ, zero, suc, ◌-◌, ◌≤◌, ◌≡◌, refl, ap, List, [], ◌∷◌, ◌++◌, Bool, true, false, Option, none, some,
  length, get_elem?, take, drop, take-append, ◌⊎◌, if◌then◌else◌, arith, All, Option-cases,
  Bool-cases, inl, inr,
}

module _ {A : Type 0} where
  -- The index of the first element that passes the test.
  unfoldable pub find_index : (A → Bool) → List A → Option ℕ
  find_index p [] = none
  find_index p (x ∷ xs) =
      let later = find_index p xs in if p x then some 0 else Option.map suc later

  abbrev pub set : List A → ℕ → A → List A
  set [] i v = []
  set (x ∷ xs) zero v = v ∷ xs
  set (x ∷ xs) (suc i) v = x ∷ set xs i v

  unfoldable pub put_last : Option A → ℕ → List A → List A
  put_last none i l = l
  put_last (some x) i l = take (length l - 1) (set l i x)

  -- `l[i] = l[len(l)-1]; l = l[:len(l)-1]`
  unfoldable pub swap_remove : ℕ → List A → List A
  unfolding put_last
  swap_remove i l = put_last (get_elem? l (length l - 1)) i l

  -- `append(l[:i], l[i+1:]...)`
  unfoldable pub remove_at : ℕ → List A → List A
  remove_at i l = take i l ++ drop (suc i) l

  -- Overwriting the element at `i` by `z` exchanges the two.
  set-perm :
      (ys : List A) (i : ℕ) (z : A) {x : A}
      → get_elem? ys i ≡ some x
      → Perm (x ∷ set ys i z) (z ∷ ys)
  set-perm [] i z e = absurd (ground arith)
  set-perm (y ∷ ys) zero z {x} e = rw (same y x e) (Perm.swap z x ys)
    where
      same : (a b : A) → some a ≡ some b → a ≡ b
      same a b e = cc
  set-perm (y ∷ ys) (suc i) z {x} e =
      Perm.trans (Perm.swap y x (set ys i z))
        (Perm.trans (Perm.cons y (set-perm ys i z e)) (Perm.swap z y ys))

  -- A list that is not empty ends in its last element.
  split_last : (x : A) (xs : List A) → (front : List A) × (z : A) × (x ∷ xs ≡ front ++ (z ∷ []))
  split_last x [] = ([], x, refl)
  split_last x (y ∷ ys) = let (front, z, e) = split_last y ys in (x ∷ front, z, ap (◌∷◌ x) e)

  get_elem?-last : (front : List A) (z : A) → get_elem? (front ++ (z ∷ [])) (length front) ≡ some z
  get_elem?-last [] z = refl
  get_elem?-last (x ∷ front) z = get_elem?-last front z

  length-snoc : (front : List A) (z : A) → length (front ++ (z ∷ [])) ≡ suc (length front)
  length-snoc [] z = refl
  length-snoc (x ∷ front) z = ap suc (length-snoc front z)

  take-set-snoc :
      (front : List A) (z : A) (i : ℕ)
      → take (length front) (set (front ++ (z ∷ [])) i z) ≡ set front i z
  take-set-snoc [] z i = refl
  take-set-snoc (x ∷ front) z zero = ap (◌∷◌ z) (take-append front (z ∷ []))
  take-set-snoc (x ∷ front) z (suc i) = ap (◌∷◌ x) (take-set-snoc front z i)

  get_elem?-snoc :
      (front : List A) (z : A) (i : ℕ) {x : A}
      → get_elem? (front ++ (z ∷ [])) i ≡ some x
      → (get_elem? front i ≡ some x) ⊎ ((x ≡ z) × (length front ≤ i))
  get_elem?-snoc [] z zero e = inr (ground arith, omega arith)
  get_elem?-snoc [] z (suc i) e = absurd (ground arith)
  get_elem?-snoc (y ∷ front) z zero e = inl e
  get_elem?-snoc (y ∷ front) z (suc i) e = ground (arith, get_elem?-snoc front z i e)

  set-beyond : (l : List A) (i : ℕ) (z : A) → length l ≤ i → set l i z ≡ l
  set-beyond [] i z h = refl
  set-beyond (x ∷ l) zero z h = absurd (omega arith)
  set-beyond (x ∷ l) (suc i) z h = ap (◌∷◌ x) (set-beyond l i z (omega arith))

  swap_remove-snoc :
      (front : List A) (z : A) (i : ℕ) → swap_remove i (front ++ (z ∷ [])) ≡ set front i z
  unfolding swap_remove
  swap_remove-snoc front z i =
      let drop_last : length (front ++ (z ∷ [])) - 1 ≡ length front =
        omega (arith, length-snoc front z) in
      rw (drop_last, get_elem?-last front z, put_last, drop_last) (take-set-snoc front z i)

  last_to_front : (front : List A) (z : A) → Perm (z ∷ front) (front ++ (z ∷ []))
  last_to_front [] z = Perm.refl (z ∷ [])
  last_to_front (x ∷ front) z =
      Perm.trans (Perm.swap x z front) (Perm.cons x (last_to_front front z))

  -- The swap takes out the element at the index, and keeps all others in some order.
  pub swap_remove-perm :
      (l : List A) (i : ℕ) {x : A} → get_elem? l i ≡ some x → Perm (x ∷ swap_remove i l) l
  swap_remove-perm [] i e = absurd (ground arith)
  swap_remove-perm (y ∷ ys) i {x} e =
      let (front, z, split) = split_last y ys in
      let at : get_elem? (front ++ (z ∷ [])) i ≡ some x = rw split at e in
      rw (split, swap_remove-snoc front z i)
        (elim (get_elem?-snoc front z i at) [
          | inl inside ↦ Perm.trans (set-perm front i z inside) (last_to_front front z)
          | inr (ends, beyond) ↦ rw (ends, set-beyond front i z beyond) (last_to_front front z)
        ])

  -- Closing the gap takes out the element at the index too.
  pub remove_at-perm :
      (l : List A) (i : ℕ) {x : A} → get_elem? l i ≡ some x → Perm (x ∷ remove_at i l) l
  unfolding remove_at
  remove_at-perm [] i e = absurd (ground arith)
  remove_at-perm (y ∷ ys) zero {x} e =
      let same : x ≡ y = ground arith in rw same (Perm.refl (y ∷ ys))
  remove_at-perm (y ∷ ys) (suc i) {x} e =
      Perm.trans (Perm.swap y x (take i ys ++ drop (suc i) ys))
        (Perm.cons y (remove_at-perm ys i e))

  -- The index found is that of an element that passes the test.
  pub find_index-some :
      (p : A → Bool) (l : List A) {i : ℕ}
      → find_index p l ≡ some i
      → (x : A) × (get_elem? l i ≡ some x) × (p x ≡ true)
  unfolding find_index
  find_index-some p [] e = absurd (ground arith)
  find_index-some p (x ∷ xs) {i} e = elim (Bool-cases (p x)) [
    | inl yes_x ↦ (x, ground arith, yes_x)
    | inr no_x ↦ elim (Option-cases (find_index p xs)) [
      | inl none_left ↦ absurd (ground arith)
      | inr (j, found) ↦
          let (y, at, y_ok) = find_index-some p xs found in
          let here : i ≡ suc j = ground arith in (y, rw here at, y_ok)
    ]
  ]

  -- Where no index is found, no element passes the test.
  pub find_index-none :
      (p : A → Bool) (l : List A) → find_index p l ≡ none → All (λ x. p x ≡ false) l
  unfolding find_index
  find_index-none p [] e = tt
  find_index-none p (x ∷ xs) e = ground (arith, find_index-none p xs)

module _ {A : Type 0} where
  abbrev pub remove_found : Option ℕ → List A → List A
  remove_found none l = l
  remove_found (some i) l = swap_remove i l
