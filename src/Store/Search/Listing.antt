-- ===== src/Store/Search/Listing.antt =====
-- ListNodes of sqlite.go: which rows it returns, and in which order.
use sit.Prelude.{
  ℕ, ◌≤◌, Text, ◌≡◌, refl, Bool, List, [], ◌∷◌, arith, All, All-map, Bool-cases, inl, inr, leb→le,
  leb→lt, select,
}
use mathlib.Core.List.{Perm}
use sit.Exec.{ok}
use sit.Store.{Db}
use sit.Store.Models.{Node}
use sit.Store.Order.{insert, sort, sort-perm}
use sit.Store.Search.{newest, is_listed, list_nodes}

-- each row was created no earlier than those behind it
abbrev pub IsNewestFirst : List Node → Type 0
IsNewestFirst [] = Unit
IsNewestFirst (x ∷ xs) = All (λ y. y.created_at ≤ x.created_at) xs × IsNewestFirst xs

All-insert :
    (k : ℕ) (r : Node) (xs : List Node)
    → r.created_at ≤ k
    → All (λ y. y.created_at ≤ k) xs
    → All (λ y. y.created_at ≤ k) (insert newest r xs)
unfolding insert
All-insert k r [] h all = (h, tt)
All-insert k r (x ∷ xs) h all = elim (Bool-cases (newest r x)) [
  | inl e ↦ rw e (h, all)
  | inr e ↦ rw e (all.0, All-insert k r xs h all.1)
]

IsNewestFirst-insert :
    (r : Node) (xs : List Node) → IsNewestFirst xs → IsNewestFirst (insert newest r xs)
unfolding insert
IsNewestFirst-insert r [] h = (tt, tt)
IsNewestFirst-insert r (x ∷ xs) h = elim (Bool-cases (newest r x)) [
  | inl e ↦
      let later : x.created_at ≤ r.created_at = leb→le x.created_at r.created_at e in
      rw e ((later, All-map _ _ (λ y k. omega (arith, k, later)) xs h.0), h)
  | inr e ↦ rw e (
    All-insert x.created_at r xs (omega (arith, leb→lt x.created_at r.created_at e)) h.0,
    IsNewestFirst-insert r xs h.1,
  )
]

IsNewestFirst-sort : (xs : List Node) → IsNewestFirst (sort newest xs)
unfolding sort
IsNewestFirst-sort [] = tt
IsNewestFirst-sort (x ∷ xs) = IsNewestFirst-insert x (sort newest xs) (IsNewestFirst-sort xs)

-- A listing succeeds and holds each row that passes the filters as often as the table does, and no
-- other, those created last first; the table stays as it is.
pub list_nodes_lem :
    (like : Text → Text → Bool) (status q : Text) (db : Db)
    → (rows : List Node) × (list_nodes like status q db ≡ (ok rows, db))
      × Perm rows (select (is_listed like status q) db.nodes)
      × IsNewestFirst rows
unfolding list_nodes
list_nodes_lem like status q db = (_, refl, sort-perm newest _, IsNewestFirst-sort _)
