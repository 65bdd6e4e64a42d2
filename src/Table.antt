-- ===== src/Table.antt =====
-- SQL tables with a text as primary key: rows in the order of insertion, and the statements that
-- internal/manager/store/sqlite.go runs on them. The proofs are in the module below.
pub mod Laws
use sit.Prelude.{
  Text, ◌==◌, Bool, true, false, not, Option, none, some, List, [], ◌∷◌, ◌++◌, select,
  if◌then◌else◌,
}

module _ {R : Type 0} (key : R → Text) where
  -- SELECT … WHERE key=?
  unfoldable pub find : Text → List R → Option R
  find k [] = none
  find k (r ∷ t) = if key r == k then some r else find k t

  -- UPDATE … WHERE key=?
  unfoldable pub update : Text → (R → R) → List R → List R
  update k f [] = []
  update k f (r ∷ t) = (if key r == k then f r else r) ∷ update k f t

  -- DELETE … WHERE key=?
  unfoldable pub delete : Text → List R → List R
  delete k [] = []
  delete k (r ∷ t) = let rest = delete k t in if key r == k then rest else r ∷ rest

  -- INSERT … ON CONFLICT(key) DO UPDATE SET …, where `merge` sets the columns
  unfoldable pub upsert : R → (R → R) → List R → List R
  upsert r merge t = elim (find (key r) t) [ none ↦ t ++ r ∷ [] | some _ ↦ update (key r) merge t ]
