-- ===== src/Table/Laws.antt =====
-- What a lookup finds after each statement.
use mathlib.Core.Option
use sit.Prelude.{
  Text, ◌==◌, eq_iff, ◌≡◌, Option, none, some, List, [], ◌∷◌, ◌++◌, arith, if◌then◌else◌,
}
use sit.Table.{find, update, delete, upsert}

abbrev pub or_else {ℓ} : {A : Type ℓ} → Option A → Option A → Option A
or_else none o = o
or_else (some a) o = some a

module _ {R : Type 0} (key : R → Text) where
  pub find-key : (k : Text) (t : List R) {r : R} → find key k t ≡ some r → key r ≡ k
  unfolding find
  find-key k [] h = cc
  find-key k (x ∷ t) {r} h = ground (arith, eq_iff (key x) k, find-key k t {r = r})

  pub find-update :
      (k j : Text) (f : R → R) (t : List R)
      → ((r : R) → key (f r) ≡ key r)
      → find key j (update key k f t)
        ≡ (if k == j then Option.map f (find key j t) else find key j t)
  unfolding find update
  find-update k j f [] h = ground arith
  find-update k j f (r ∷ t) h =
      ground (arith, h r, find-update k j f t h, eq_iff (key r) k, eq_iff (key r) j, eq_iff k j)

  pub find-append :
      (j : Text) (t : List R) (r : R)
      → find key j (t ++ r ∷ []) ≡ or_else (find key j t) (if key r == j then some r else none)
  unfolding find
  find-append j [] r = ground arith
  find-append j (x ∷ t) r = ground (arith, find-append j t r)

  pub find-delete :
      (k j : Text) (t : List R)
      → find key j (delete key k t) ≡ (if k == j then none else find key j t)
  unfolding find delete
  find-delete k j [] = ground arith
  find-delete k j (r ∷ t) =
      ground (arith, find-delete k j t, eq_iff (key r) k, eq_iff (key r) j, eq_iff k j)

  pub find-upsert :
      (j : Text) (r : R) (merge : R → R) (t : List R)
      → ((x : R) → key (merge x) ≡ key x)
      → find key j (upsert key r merge t) ≡ (
          if key r == j
          then some (elim (find key j t) [ none ↦ r | some x ↦ merge x ])
          else find key j t)
  unfolding upsert
  find-upsert j r merge t h =
      ground (arith, find-append j t r, find-update (key r) j merge t h, eq_iff (key r) j)
