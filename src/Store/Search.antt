-- ===== src/Store/Search.antt =====
-- ListNodes of sqlite.go.
pub mod Listing
use sit.Prelude.{
  ℕ, Text, text, ◌==◌, Bool, true, false, ◌&&◌, ◌||◌, List, [], ◌∷◌, ◌++◌, leb, select, is_empty,
  if◌then◌else◌,
}
use sit.Exec.{ok, Exec}
use sit.Store.{Db}
use sit.Store.Models.{Node, Status, online, offline}
use sit.Store.Order.{sort}

abbrev pub status_text : Status → Text
status_text online = text "online"
status_text offline = text "offline"

abbrev pub newest : Node → Node → Bool
newest a b = leb b.created_at a.created_at

-- SQLite's `x LIKE pattern` is given as a function of the pattern and x.
module _ (like : Text → Text → Bool) where
  -- the WHERE clause, whose conditions stand only for filters that are not empty
  abbrev pub is_listed : Text → Text → Node → Bool
  is_listed status_filter q n =
      (is_empty status_filter || status_text n.status == status_filter)
      && (is_empty q
          || like (text "%" ++ (q ++ text "%")) n.node_id
          || like (text "%" ++ (q ++ text "%")) n.display_name)

  unfoldable pub list_nodes : Text → Text → Exec Db (List Node)
  list_nodes status_filter q db =
      (ok (sort newest (select (is_listed status_filter q) db.nodes)), db)
