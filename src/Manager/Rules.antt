-- ===== src/Manager/Rules.antt =====
-- What the primitive actions leave true of each part of the state.
use sit.Prelude.{ℕ, arith}
use sit.Exec.{Exec}
use sit.Exec.Keeps.{Keeps}
use sit.Protocol.{Envelope}
use sit.Store.{Db}
use sit.Registry.{Registry}
use sit.Manager.{Dispatcher, Manager, now_millis, new_id, rand_token, query, send_on, on_registry}

-- A property of one part of the state.
pub record OfDispatcher (Q : Dispatcher → Type 0) (m : Manager) : Type 0 where
  pub holds : Q m.dispatcher

pub record OfRegistry (Q : Registry → Type 0) (m : Manager) : Type 0 where
  pub holds : Q m.registry

pub record OfDb (Q : Db → Type 0) (m : Manager) : Type 0 where
  pub holds : Q m.db

-- Of the dispatcher's fields: none of the primitives writes them.
module _ {Q : Dispatcher → Type 0} where
  pub Dispatcher-now_millis : Keeps (OfDispatcher Q) now_millis
  unfolding now_millis
  Dispatcher-now_millis = record { at = λ m h. record { holds = h.holds } }

  pub Dispatcher-new_id : Keeps (OfDispatcher Q) new_id
  unfolding new_id
  Dispatcher-new_id = record { at = λ m h. record { holds = h.holds } }

  pub Dispatcher-query : {A : Type 0} (op : Exec Db A) → Keeps (OfDispatcher Q) (query op)
  unfolding query
  Dispatcher-query op = record { at = λ m h. record { holds = ground (arith, h.holds) } }

  pub Dispatcher-send_on : (i : ℕ) (e : Envelope) → Keeps (OfDispatcher Q) (send_on i e)
  unfolding send_on
  Dispatcher-send_on i e = record { at = λ m h. record { holds = h.holds } }

  pub Dispatcher-on_registry : (f : Registry → Registry) → Keeps (OfDispatcher Q) (on_registry f)
  unfolding on_registry
  Dispatcher-on_registry f = record { at = λ m h. record { holds = h.holds } }

pub ruleset dispatcher_rules = (
  Dispatcher-now_millis, Dispatcher-new_id, Dispatcher-query, Dispatcher-send_on,
  Dispatcher-on_registry,
)

-- Of the registry and its connections: only Send and the registry's own operations write them.
module _ {Q : Registry → Type 0} where
  pub Registry-now_millis : Keeps (OfRegistry Q) now_millis
  unfolding now_millis
  Registry-now_millis = record { at = λ m h. record { holds = h.holds } }

  pub Registry-new_id : Keeps (OfRegistry Q) new_id
  unfolding new_id
  Registry-new_id = record { at = λ m h. record { holds = h.holds } }

  pub Registry-query : {A : Type 0} (op : Exec Db A) → Keeps (OfRegistry Q) (query op)
  unfolding query
  Registry-query op = record { at = λ m h. record { holds = ground (arith, h.holds) } }

  pub Registry-on_registry :
      (f : Registry → Registry)
      → ((r : Registry) → Q r → Q (f r))
      → Keeps (OfRegistry Q) (on_registry f)
  unfolding on_registry
  Registry-on_registry f k = record { at = λ m h. record { holds = k m.registry h.holds } }

-- Of the database: a query keeps what its statement keeps, also where it fails.
module _ {Q : Db → Type 0} where
  pub Db-now_millis : Keeps (OfDb Q) now_millis
  unfolding now_millis
  Db-now_millis = record { at = λ m h. record { holds = h.holds } }

  pub Db-new_id : Keeps (OfDb Q) new_id
  unfolding new_id
  Db-new_id = record { at = λ m h. record { holds = h.holds } }

  pub Db-rand_token : Keeps (OfDb Q) rand_token
  unfolding rand_token
  Db-rand_token = record { at = λ m h. record { holds = h.holds } }

  pub Db-query : {A : Type 0} (op : Exec Db A) → Keeps Q op → Keeps (OfDb Q) (query op)
  unfolding query
  Db-query op k = record {
    at = λ m h. record { holds = ground (arith, h.holds, k.at m.db h.holds) };
  }

  pub Db-send_on : (i : ℕ) (e : Envelope) → Keeps (OfDb Q) (send_on i e)
  unfolding send_on
  Db-send_on i e = record { at = λ m h. record { holds = h.holds } }

  pub Db-on_registry : (f : Registry → Registry) → Keeps (OfDb Q) (on_registry f)
  unfolding on_registry
  Db-on_registry f = record { at = λ m h. record { holds = h.holds } }

pub ruleset db_rules =
    (Db-now_millis, Db-new_id, Db-rand_token, Db-query, Db-send_on, Db-on_registry)
