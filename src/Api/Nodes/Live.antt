-- ===== src/Api/Nodes/Live.antt =====
-- The listing of nodes in internal/manager/api/node_handlers.go, down to the table.
use sit.Prelude.{Text, ◌≡◌, refl, Bool, true, false, List, [], ◌∷◌, All, select}
use mathlib.Core.List.{Perm}
use sit.Exec.{ok, ◌>>=◌}
use sit.Protocol.{Json}
use sit.Store.Models.{Node, online}
use sit.Store.Search.{is_listed}
use sit.Store.Search.Listing.{IsNewestFirst, list_nodes_lem}
use sit.Registry.{Registry, is_online}
use sit.Manager.{Manager, query, failing, called}
use sit.Api.{NodeDto, nodes}
use sit.Api.Nodes.{to_dto, to_dtos, handle_list_nodes}

abbrev pub ShowsLive : Registry → NodeDto → Type 0
ShowsLive r d = is_online d.node_id r ≡ true → d.status ≡ online

to_dtos-ShowsLive : (j : Json) (r : Registry) (ns : List Node) → All (ShowsLive r) (to_dtos j r ns)
unfolding to_dtos to_dto
to_dtos-ShowsLive j r [] = tt
to_dtos-ShowsLive j r (n ∷ ns) = ((λ live. rw live refl), to_dtos-ShowsLive j r ns)

-- Where the database answers, GET /nodes replies 200 with each row that passes the filters as often
-- as the table has it, those created last first, every node that has a session shown as online; the
-- database and the registry stay as they are.
pub handle_list_nodes_lem :
    (j : Json) (like : Text → Text → Bool) (status q : Text) (m : Manager)
    → failing m ≡ false
    → (rows : List Node) × ((handle_list_nodes j like status q m).0
        ≡ ok (record { status = 200; body = nodes (to_dtos j m.registry rows) }))
      × Perm rows (select (is_listed like status q) m.db.nodes)
      × IsNewestFirst rows
      × All (ShowsLive m.registry) (to_dtos j m.registry rows)
      × ((handle_list_nodes j like status q m).1.db ≡ m.db)
      × ((handle_list_nodes j like status q m).1.registry ≡ m.registry)
unfolding handle_list_nodes ◌>>=◌ query called
handle_list_nodes_lem j like status q m up =
    let (rows, e, same, sorted) = list_nodes_lem like status q m.db in
    (
      rows,
      rw (up, e) refl,
      same,
      sorted,
      to_dtos-ShowsLive j m.registry rows,
      rw (up, e) refl,
      rw (up, e) refl,
    )
