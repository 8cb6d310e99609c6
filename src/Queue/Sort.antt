-- ===== src/Queue/Sort.antt =====
-- `list.sort(key=...)`: Python's sort is stable, and so is insertion from the right.
use module_agents_part.Prelude.{
  ℕ, ◌+◌, ◌≤◌, ◌≡◌, refl, suc, Bool, true, false, List, [], ◌∷◌, arith, leb, if◌then◌else◌, All,
  count, bit, length,
}

module _ {A : Type 0} (key : A → ℕ) where
  unfoldable pub insert : A → List A → List A
  insert x [] = x ∷ []
  insert x (y ∷ ys) = if leb (key x) (key y) then x ∷ y ∷ ys else y ∷ insert x ys

  unfoldable pub sort : List A → List A
  unfolding insert
  sort [] = []
  sort (x ∷ xs) = insert x (sort xs)

  -- each key is at most every later one
  abbrev pub IsSorted : List A → Type 0
  IsSorted [] = Unit
  IsSorted (x ∷ xs) = All (λ y. key x ≤ key y) xs × IsSorted xs

  count-insert :
      (p : A → Bool) (x : A) (xs : List A) → count p (insert x xs) ≡ bit (p x) + count p xs
  unfolding insert
  count-insert p x [] = omega arith
  count-insert p x (y ∷ ys) = ground (arith, count-insert p x ys)

  -- A sort loses nothing and makes nothing up.
  pub count-sort : (p : A → Bool) (xs : List A) → count p (sort xs) ≡ count p xs
  unfolding sort
  count-sort p [] = omega arith
  count-sort p (x ∷ xs) = omega (arith, count-insert p x (sort xs), count-sort p xs)

  All-insert : (P : A → Type 0) (x : A) (xs : List A) → P x → All P xs → All P (insert x xs)
  unfolding insert
  All-insert P x [] hx h = (hx, tt)
  All-insert P x (y ∷ ys) hx h = ground (arith, All-insert P x ys hx h.1)

  pub All-sort : (P : A → Type 0) (xs : List A) → All P xs → All P (sort xs)
  unfolding sort
  All-sort P [] h = tt
  All-sort P (x ∷ xs) h = All-insert P x (sort xs) h.0 (All-sort P xs h.1)

  key_le :
      (x y : A) (ys : List A)
      → key x ≤ key y
      → All (λ z. key y ≤ key z) ys
      → All (λ z. key x ≤ key z) ys
  key_le x y [] le h = tt
  key_le x y (z ∷ ys) le h = (omega arith, key_le x y ys le h.1)

  insert-IsSorted : (x : A) (xs : List A) → IsSorted xs → IsSorted (insert x xs)
  unfolding insert
  insert-IsSorted x [] h = (tt, tt)
  insert-IsSorted x (y ∷ ys) h =
      ground (arith, key_le x y ys, insert-IsSorted x ys h.1, All-insert (λ z. key y ≤ key z) x ys)

  pub sort-IsSorted : (xs : List A) → IsSorted (sort xs)
  unfolding sort
  sort-IsSorted [] = tt
  sort-IsSorted (x ∷ xs) = insert-IsSorted x (sort xs) (sort-IsSorted xs)

  length-insert : (x : A) (xs : List A) → length (insert x xs) ≡ suc (length xs)
  unfolding insert
  length-insert x [] = refl
  length-insert x (y ∷ ys) = ground (arith, length-insert x ys)

  pub length-sort : (xs : List A) → length (sort xs) ≡ length xs
  unfolding sort
  length-sort [] = refl
  length-sort (x ∷ xs) = omega (arith, length-insert x (sort xs), length-sort xs)

  All-insert_inv : (P : A → Type 0) (x : A) (xs : List A) → All P (insert x xs) → P x × All P xs
  unfolding insert
  All-insert_inv P x [] h = h
  All-insert_inv P x (y ∷ ys) h = go (leb (key x) (key y)) (All-insert_inv P x ys) h
    where
      go :
          (b : Bool)
          → (All P (insert x ys) → P x × All P ys)
          → All P (if b then x ∷ y ∷ ys else y ∷ insert x ys)
          → P x × All P (y ∷ ys)
      go true ih h = h
      go false ih h = let (hx, hys) = ih h.1 in (hx, (h.0, hys))

  -- What holds of the sorted elements holds of the elements.
  pub All-sort_inv : (P : A → Type 0) (xs : List A) → All P (sort xs) → All P xs
  unfolding sort
  All-sort_inv P [] h = tt
  All-sort_inv P (x ∷ xs) h =
      let (hx, hxs) = All-insert_inv P x (sort xs) h in (hx, All-sort_inv P xs hxs)
