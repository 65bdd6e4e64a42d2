-- ===== src/Dispatcher/Queue.antt =====
-- FlushQueue of internal/manager/dispatcher.go and the frames of a connection.
use sit.Prelude.{
  ℕ, Text, eq_iff, ◌≡◌, refl, List, [], ◌∷◌, ◌++◌, arith, if◌then◌else◌, subst, Bool-cases, inl,
  inr, All, select,
}
use mathlib.Core.List.{Perm}
use sit.Exec.{ok, ◌>>=◌}
use sit.Protocol.{Json}
use sit.Store.Models.{Task, expired}
use sit.Store.Order.{sort, by, sort-perm, All-sort, IsSorted, IsSorted-sort}
use sit.Store.Tasks.{update_task_state, queued_tasks, is_queued_for}
use sit.Manager.{Manager, now_millis, query, called}
use sit.Dispatcher.{has_passed, flush_one, flush_all, flush_queue}
use sit.Dispatcher.Frames.{
  accepted_ids, IsOnline, Marshals, Sends, Sends-trans, Sends-IsOnline, quiet-Sends, send-Sends,
  query_registry, query_fails,
}

flush_one-Sends :
    (j : Json) (now i : ℕ) (t : Task) (m : Manager)
    → Marshals j
    → IsOnline t.node_id i m
    → Sends t.node_id i m (if has_passed now t then [] else t.task_id ∷ []) (flush_one j now t m).1
unfolding flush_one ◌>>=◌
flush_one-Sends j now i t m w h = elim (Bool-cases (has_passed now t)) [
  | inl e ↦ rw e (
      quiet-Sends t.node_id i m _ h (query_registry (update_task_state t.task_id expired now) m)
        (query_fails (update_task_state t.task_id expired now) m))
  | inr e ↦ rw e (send-Sends j i t m w h)
]

-- The tasks that are not past their deadline, by id.
abbrev pub unexpired_ids : ℕ → List Task → List Text
unexpired_ids now [] = []
unexpired_ids now (t ∷ ts) =
    (if has_passed now t then [] else t.task_id ∷ []) ++ unexpired_ids now ts

flush_one_ok : (j : Json) (now : ℕ) (t : Task) (m : Manager) → (flush_one j now t m).0 ≡ ok tt
unfolding flush_one ◌>>=◌
flush_one_ok j now t m = ground arith

flush_all-Sends :
    (j : Json) (node_id : Text) (now i : ℕ) (ts : List Task) (m : Manager)
    → Marshals j
    → All (λ t. t.node_id ≡ node_id) ts
    → IsOnline node_id i m
    → Sends node_id i m (unexpired_ids now ts) (flush_all j now ts m).1
unfolding flush_all ◌>>=◌
flush_all-Sends j node_id now i [] m w a h = quiet-Sends node_id i m m h refl refl
flush_all-Sends j node_id now i (t ∷ ts) m w a h =
    let m' = (flush_one j now t m).1 in
    let first =
      subst (λ n. IsOnline n i m → Sends n i m (if has_passed now t then [] else t.task_id ∷ []) m')
        (a.0) (flush_one-Sends j now i t m w) h in
    rw (flush_one_ok j now t m)
      (Sends-trans first (flush_all-Sends j node_id now i ts m' w a.1 (Sends-IsOnline first)))

All-queued :
    (node_id : Text) (ts : List Task)
    → All (λ t. t.node_id ≡ node_id) (select (is_queued_for node_id) ts)
unfolding select
All-queued node_id [] = tt
All-queued node_id (t ∷ ts) = elim (Bool-cases (is_queued_for node_id t)) [
  | inl e ↦ rw e (ground (arith, e, eq_iff t.node_id node_id), All-queued node_id ts)
  | inr e ↦ rw e (All-queued node_id ts)
]

-- When the queue of a node with a session on an open connection is flushed, no call fails and
-- every instruction can be marshalled, the connection is sent exactly the tasks that are queued
-- for the node and not past their deadline at that time, each once, oldest first, behind what it
-- has accepted before.
pub flush_queue_sends :
    (j : Json) (node_id : Text) (i : ℕ) (m : Manager)
    → Marshals j
    → IsOnline node_id i m
    → (ts : List Task) × Perm ts (select (is_queued_for node_id) m.db.tasks)
      × IsSorted (λ t. t.created_at) ts
      × (accepted_ids i (flush_queue j node_id m).1
          ≡ accepted_ids i m ++ unexpired_ids (m.world.clock m.world.readings) ts)
unfolding flush_queue ◌>>=◌ query called queued_tasks now_millis
flush_queue_sends j node_id i m w h =
    let queue = select (is_queued_for node_id) m.db.tasks in
    let ts = sort (by (λ t. t.created_at)) queue in
    let m' = (now_millis (called m)).1 in
    let flushed =
      flush_all-Sends j node_id (m.world.clock m.world.readings) i ts m' w
        (All-sort (by (λ t. t.created_at)) (λ t. t.node_id ≡ node_id) queue
          (All-queued node_id m.db.tasks))
        (record { conn = h.conn; is_open = h.is_open; works = h.works }) in
    (
      ts,
      sort-perm (by (λ t. t.created_at)) queue,
      IsSorted-sort (λ t. t.created_at) queue,
      rw (h.works m.world.calls) (flushed.sent_ids),
    )
