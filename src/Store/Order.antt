-- ===== src/Store/Order.antt =====
-- ORDER BY: rows with equal keys stay in the order of insertion.
use sit.Prelude.{
  ℕ, ◌≤◌, Bool, List, [], ◌∷◌, arith, leb, All, All-map, if◌then◌else◌, Bool-cases, inl, inr,
  leb→le, leb→lt,
}
use mathlib.Core.List.{Perm}
use mathlib.Core.List.Perm

module _ {R : Type 0} (before : R → R → Bool) where
  unfoldable pub insert : R → List R → List R
  insert r [] = r ∷ []
  insert r (x ∷ xs) = if before r x then r ∷ x ∷ xs else x ∷ insert r xs

  unfoldable pub sort : List R → List R
  unfolding insert
  sort [] = []
  sort (x ∷ xs) = insert x (sort xs)

  insert-perm : (r : R) (xs : List R) → Perm (insert r xs) (r ∷ xs)
  unfolding insert
  insert-perm r [] = Perm.refl (r ∷ [])
  insert-perm r (x ∷ xs) = elim (Bool-cases (before r x)) [
    | inl h ↦ rw h (Perm.refl (r ∷ x ∷ xs))
    | inr h ↦ rw h (Perm.trans (Perm.cons x (insert-perm r xs)) (Perm.swap r x xs))
  ]

  -- Sorting neither drops nor repeats a row.
  pub sort-perm : (xs : List R) → Perm (sort xs) xs
  unfolding sort
  sort-perm [] = Perm.refl []
  sort-perm (x ∷ xs) = Perm.trans (insert-perm x (sort xs)) (Perm.cons x (sort-perm xs))

  pub All-sort : (P : R → Type 0) (xs : List R) → All P xs → All P (sort xs)
  unfolding sort
  All-sort P [] h = tt
  All-sort P (x ∷ xs) h = All-insert x (sort xs) h.0 (All-sort P xs h.1)
    where
      All-insert : (r : R) (xs : List R) → P r → All P xs → All P (insert r xs)
      All-insert r [] h k = (h, tt)
      All-insert r (x ∷ xs) h k = elim (Bool-cases (before r x)) [
        | inl e ↦ rw e (h, k)
        | inr e ↦ rw e (k.0, All-insert r xs h k.1)
      ]

-- Sorted by a number, ascending.
abbrev pub IsSorted : {R : Type 0} → (R → ℕ) → List R → Type 0
IsSorted f [] = Unit
IsSorted f (x ∷ xs) = All (λ y. f x ≤ f y) xs × IsSorted f xs

module _ {R : Type 0} (f : R → ℕ) where
  abbrev pub by : R → R → Bool
  by a b = leb (f a) (f b)

  All-insert :
      (n : ℕ) (r : R) (xs : List R)
      → n ≤ f r
      → All (λ y. n ≤ f y) xs
      → All (λ y. n ≤ f y) (insert by r xs)
  unfolding insert
  All-insert n r [] h k = (h, tt)
  All-insert n r (x ∷ xs) h k = elim (Bool-cases (by r x)) [
    | inl e ↦ rw e (h, k)
    | inr e ↦ rw e (k.0, All-insert n r xs h k.1)
  ]

  IsSorted-insert : (r : R) (xs : List R) → IsSorted f xs → IsSorted f (insert by r xs)
  unfolding insert
  IsSorted-insert r [] h = (tt, tt)
  IsSorted-insert r (x ∷ xs) h = elim (Bool-cases (by r x)) [
    | inl e ↦ rw e (
      (
        leb→le (f r) (f x) e,
        All-map (λ y. f x ≤ f y) (λ y. f r ≤ f y) (λ y k. omega (arith, leb→le (f r) (f x) e)) xs
            h.0,
      ),
      h,
    )
    | inr e ↦
        rw e (
          All-insert (f x) r xs (omega (arith, leb→lt (f r) (f x) e)) h.0,
          IsSorted-insert r xs h.1,
        )
  ]

  pub IsSorted-sort : (xs : List R) → IsSorted f (sort by xs)
  unfolding sort
  IsSorted-sort [] = tt
  IsSorted-sort (x ∷ xs) = IsSorted-insert x (sort by xs) (IsSorted-sort xs)
