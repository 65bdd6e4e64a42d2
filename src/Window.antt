-- ===== src/Window.antt =====
-- The bounded memory of recent ids that dispatcher.go (`seen`, `seenOrder`) and executor.go both
-- keep: a map, and its keys in the order of insertion. The oldest key goes when there are too many.
pub mod Laws
pub mod Memory
use sit.Prelude.{
  ℕ, Text, Bool, Option, List, [], ◌∷◌, ◌++◌, length, ltb, Map, get, put, remove, has,
  if◌then◌else◌,
}

pub record Window (V : Type 0) : Type 0 where
  pub seen : Map V
  pub order : List Text

abbrev pub empty_window : {V : Type 0} → Window V
empty_window = record { seen = []; order = [] }

module _ {V : Type 0} where
  unfoldable pub lookup : Text → Window V → Option V
  lookup id w = get id w.seen

  drop_oldest : List Text → Window V → Window V
  drop_oldest [] w = w
  drop_oldest (old ∷ rest) w = record { seen = remove old w.seen; order = rest }

  unfoldable pub evict : ℕ → Window V → Window V
  unfolding drop_oldest
  evict limit w = if ltb limit (length w.order) then drop_oldest w.order w else w

  -- m[id] = v; order = append(order, id); and the oldest goes
  unfoldable pub push : ℕ → Text → V → Window V → Window V
  unfolding evict
  push limit id v w = evict limit (record { seen = put id v w.seen; order = w.order ++ id ∷ [] })

  -- An id that is there already keeps its value.
  unfoldable pub remember : ℕ → Text → V → Window V → Window V
  remember limit id v w = if has (lookup id w) then w else push limit id v w

  pub remember_all : ℕ → List (Text × V) → Window V → Window V
  remember_all limit [] w = w
  remember_all limit ((id, v) ∷ rs) w = remember_all limit rs (remember limit id v w)
