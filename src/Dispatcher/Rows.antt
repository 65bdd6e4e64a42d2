-- ===== src/Dispatcher/Rows.antt =====
-- The actions of internal/manager/dispatcher.go and the rows of nodes.
use sit.Prelude.{
  ℕ, Text, ◌==◌, ◌≡◌, refl, false, Option, none, some, List, [], ◌∷◌, Option-cases, inl, inr, ◌∙◌,
  get,
}
use sit.Exec.{Result, ok, err}
use sit.Exec.Keeps.{Keeps, Keeps-modify, Keeps-bind, keeps_rules}
use sit.Protocol.{Instruction, Notification, Json, Bytes}
use sit.Table.{find}
use sit.Table.Laws.{find-update, find-upsert}
use sit.Store
use sit.Store.{Db, node_key, task_key}
use sit.Store.Models.{Node, Status, Task, TaskState, Activity, ActivityType, ActivityDetail}
use sit.Store.Tasks.{get_task, queued_tasks, update_task_state, complete_task, append_activity}
use sit.Manager.{Manager}
use sit.Manager.Rules.{OfDb, db_rules}
use sit.Dispatcher.{
  log_activity, instruction_envelope, drawn, send_frame, mark_sent, send, flush_one, flush_all,
  flush_queue, announce, give, store_result, handle_result, notify_waiter, mark_seen,
}

-- The row of a node is what it was.
abbrev pub HasNode : Text → Option Node → Db → Type 0
HasNode other row db = find node_key other db.nodes ≡ row

module _ (other : Text) (row : Option Node) where
  abbrev pub Same : Db → Type 0
  Same = HasNode other row

  pub get_node-Same : (id : Text) → Keeps Same (Store.get_node id)
  unfolding Store.get_node
  get_node-Same id = record { at = λ s h. h }

  pub upsert-Same : (n : Node) → (n.node_id == other) ≡ false → Keeps Same (Store.upsert_node n)
  unfolding Store.upsert_node
  upsert-Same n d = record {
    at = λ s h. find-upsert node_key other n (Store.refresh n) s.nodes (λ r. refl) ∙ rw d h;
  }

  pub status-Same :
      (id : Text) (st : Status) (at : ℕ)
      → (id == other) ≡ false
      → Keeps Same (Store.set_node_status id st at)
  unfolding Store.set_node_status
  status-Same id st at d = record {
    at = λ s h. elim (Option-cases (find node_key id s.nodes)) [
      | inl n ↦ rw n h
      | inr (x, n) ↦ rw n (
          find-update node_key id other (λ (n : Node). record n { status = st; last_seen = at })
            s.nodes (λ r. refl)
          ∙ rw d h)
    ];
  }

  append-Same : (a : Activity) → Keeps Same (append_activity a)
  unfolding append_activity
  append-Same a = record { at = λ s h. h }

  queued-Same : (id : Text) → Keeps Same (queued_tasks id)
  unfolding queued_tasks
  queued-Same id = record { at = λ s h. h }

  get_task-Same : (id : Text) → Keeps Same (get_task id)
  unfolding get_task
  get_task-Same id = record { at = λ s h. h }

  update_task-Same : (id : Text) (st : TaskState) (at : ℕ) → Keeps Same (update_task_state id st at)
  unfolding update_task_state
  update_task-Same id st at = record {
    at = λ s h. elim (Option-cases (find task_key id s.tasks)) [
      | inl n ↦ rw n h
      | inr (x, n) ↦ rw n h
    ];
  }

  complete-Same : (t : Task) → Keeps Same (complete_task t)
  unfolding complete_task
  complete-Same t = record {
    at = λ s h. elim (Option-cases (find task_key t.task_id s.tasks)) [
      | inl n ↦ rw n h
      | inr (x, n) ↦ rw n h
    ];
  }

  given-Same :
      (id : Text) (ch : Option ℕ) (t : Task) (m : Manager)
      → OfDb Same m
      → OfDb Same (give id ch t m)
  unfolding give
  given-Same id none t m h = h
  given-Same id (some ch) t m h = record { holds = h.holds }

  notify-Same : (id : Text) (t : Task) → Keeps (OfDb Same) (notify_waiter id t)
  unfolding notify_waiter
  notify-Same id t =
      Keeps-modify (λ m. give id (get id m.dispatcher.waiters) t m)
        (λ m h. given-Same id (get id m.dispatcher.waiters) t m h)

  mark_seen-Same : (id : Text) → Keeps (OfDb Same) (mark_seen id)
  unfolding mark_seen
  mark_seen-Same id = Keeps-modify _ (λ m h. record { holds = h.holds })

  ruleset statement_rules = (
    get_node-Same, upsert-Same, status-Same, append-Same, queued-Same, get_task-Same,
    update_task-Same, complete-Same, notify-Same, mark_seen-Same,
  )

  pub log-Same :
      (id : Text) (typ : ActivityType) (d : ActivityDetail)
      → Keeps (OfDb Same) (log_activity id typ d)
  unfolding log_activity
  log-Same id typ d = search (keeps_rules, db_rules, statement_rules)

  drawn-Same : (j : Json) (p : Instruction) (raw : Option Bytes) → Keeps (OfDb Same) (drawn j p raw)
  unfolding drawn
  drawn-Same j p none = search keeps_rules
  drawn-Same j p (some raw) = search (keeps_rules, db_rules)

  envelope-Same : (j : Json) (p : Instruction) → Keeps (OfDb Same) (instruction_envelope j p)
  unfolding instruction_envelope
  envelope-Same j p = drawn-Same j p (j.instruction_bytes p)

  send_frame-Same : (j : Json) (t : Task) → Keeps (OfDb Same) (send_frame j t)
  unfolding send_frame
  send_frame-Same j t = search (keeps_rules, db_rules, envelope-Same)

  send-Same : (j : Json) (t : Task) → Keeps (OfDb Same) (send j t)
  unfolding send mark_sent
  send-Same j t = search (keeps_rules, db_rules, send_frame-Same, statement_rules)

  flush_one-Same : (j : Json) (now : ℕ) (t : Task) → Keeps (OfDb Same) (flush_one j now t)
  unfolding flush_one
  flush_one-Same j now t = search (keeps_rules, db_rules, send-Same, statement_rules)

  flush_all-Same : (j : Json) (now : ℕ) (ts : List Task) → Keeps (OfDb Same) (flush_all j now ts)
  unfolding flush_all
  flush_all-Same j now [] = search keeps_rules
  flush_all-Same j now (t ∷ ts) =
      Keeps-bind (flush_one j now t) (λ _. flush_all j now ts) (flush_one-Same j now t)
        (λ _. flush_all-Same j now ts)

  pub flush_queue-Same : (j : Json) (id : Text) → Keeps (OfDb Same) (flush_queue j id)
  unfolding flush_queue
  flush_queue-Same j id = search (keeps_rules, db_rules, flush_all-Same, statement_rules)

  announce-Same : (id : Text) (r : Result Task) → Keeps (OfDb Same) (announce id r)
  unfolding announce
  announce-Same id (err e) = search keeps_rules
  announce-Same id (ok t) = search (keeps_rules, log-Same, notify-Same)

  store_result-Same : (n : Notification) → Keeps (OfDb Same) (store_result n)
  unfolding store_result
  store_result-Same n = search (keeps_rules, db_rules, announce-Same, statement_rules) depth 9

  pub handle_result-Same : (n : Notification) → Keeps (OfDb Same) (handle_result n)
  unfolding handle_result
  handle_result-Same n = search (keeps_rules, db_rules, store_result-Same, statement_rules) depth 9
