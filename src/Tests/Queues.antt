-- ===== src/Tests/Queues.antt =====
-- The dispatcher and the reports: internal/manager/dispatcher.go and reports.go.
use sit.Prelude.{
  ℕ, Text, text, ◌==◌, ◌≡◌, refl, ◌⊎◌, true, false, ◌+◌, none, some, List, [], ◌∷◌, ◌++◌, get,
  if◌then◌else◌, select,
}
use sit.Prelude.Int.{pos}
use sit.Exec.{Error, ok, err, io}
use sit.Protocol.{Notification, NotificationKind, blank}
use sit.Table.{find}
use sit.Store.{node_key, task_key}
use sit.Store.Models.{Task}
use sit.Store.Order.{IsSorted}
use sit.Store.Tasks.{is_queued_for}
use mathlib.Core.List.{Perm}
use sit.Window.{lookup}
use sit.Registry.{conn_of}
use sit.Dispatcher.{dedup_window, create_task, flush_queue, handle_result, seen_recently}
use sit.Dispatcher.Results.{handle_result_once}
use sit.Dispatcher.Completion.{done_row, handle_result_completes}
use sit.Dispatcher.Creation.{Answers, create_task_stored}
use sit.Dispatcher.Frames.{accepted_ids}
use sit.Dispatcher.Queue.{unexpired_ids, flush_queue_sends}
use sit.Reports.{handle, handle_register}
use sit.Reports.Isolation.{handle_isolates}
use sit.Reports.Registration.{reported_row, handle_register_keeps}
use sit.Dispatcher.Races.{mark_sent_after_result}
use sit.Store.Models.{sent}
use sit.Store.Tasks.{stamped, update_task_state, complete_task, get_task, append_activity}
use sit.Table.{update}
use sit.Manager.{now_millis, query}
use sit.Dispatcher.{mark_sent, store_result, mark_seen, log_activity, notify_waiter}
use sit.Exec.{◌>>=◌}
use sit.Tests.Fixtures.{json, manager, task_row, node_row, empty-IsWindow}

abbrev result_a : Notification
result_a = record (blank NotificationKind.result) {
  ref_id = text "a";
  exit_code = pos 1;
  stdout = text "no";
}

conn-n1 : conn_of (text "n1") manager.registry ≡ some 7
unfolding conn_of get ◌==◌
conn-n1 = refl

flush_queue_sends_example :
    (ts : List Task) × Perm ts (select (is_queued_for (text "n1")) manager.db.tasks)
    × IsSorted (λ t. t.created_at) ts
    × (accepted_ids 7 (flush_queue json (text "n1") manager).1
        ≡ accepted_ids 7 manager ++ unexpired_ids 1_000 ts)
flush_queue_sends_example =
    flush_queue_sends json (text "n1") 7 manager (λ p. (123 ∷ 125 ∷ [], refl))
      (record { conn = conn-n1; is_open = refl; works = λ k. refl })

unseen : (id : Text) → seen_recently id manager ≡ false
unfolding seen_recently lookup get
unseen id = refl

row-a : find task_key (text "a") manager.db.tasks ≡ some (task_row (text "a") 10 0)
unfolding find ◌==◌
row-a = refl

handle_result_completes_example :
    ((handle_result result_a manager).0 ≡ ok tt)
    × ((k : Text)
        → find task_key k (handle_result result_a manager).1.db.tasks ≡ (
            if text "a" == k
            then some (done_row result_a manager (task_row (text "a") 10 0))
            else find task_key k manager.db.tasks))
    × ((ch : ℕ)
        → get (text "a") manager.dispatcher.waiters ≡ some ch
        → (handle_result result_a manager).1.dispatcher.channels ch
          ≡ some (done_row result_a manager (task_row (text "a") 10 0)))
    × (get (text "a") (handle_result result_a manager).1.dispatcher.waiters ≡ none)
handle_result_completes_example =
    handle_result_completes result_a manager (task_row (text "a") 10 0) (λ i. refl) refl
      (unseen (text "a")) row-a

handle_result_once_example :
    handle_result (record result_a { exit_code = pos 0 }) (handle_result result_a manager).1
    ≡ (ok tt, (handle_result result_a manager).1)
handle_result_once_example =
    handle_result_once result_a (record result_a { exit_code = pos 0 }) manager
      (empty-IsWindow dedup_window) refl

create_task_stored_example :
    Answers (create_task json (task_row (text "new") 0 0) manager)
    ⊎ ((e : Error) × ((create_task json (task_row (text "new") 0 0) manager).0 ≡ err e)
        × ((create_task json (task_row (text "new") 0 0) manager).1.db ≡ manager.db)
        × ((create_task json (task_row (text "new") 0 0) manager).1.registry ≡ manager.registry))
create_task_stored_example = create_task_stored json (task_row (text "new") 0 0) manager

n1-not-n2 : (text "n1" == text "n2") ≡ false
unfolding ◌==◌
n1-not-n2 = refl

-- n1 registers under the name of n2
abbrev registration : Notification
registration = record (blank NotificationKind.register) { node_id = text "n2"; os = text "linux" }

handle_isolates_example :
    find node_key (text "n2") (handle json (text "n1") registration manager).1.db.nodes
    ≡ find node_key (text "n2") manager.db.nodes
handle_isolates_example =
    handle_isolates json (text "n1") (text "n2") registration manager n1-not-n2

row-n1 : find node_key (text "n1") manager.db.nodes ≡ some (node_row (text "n1"))
unfolding find ◌==◌
row-n1 = refl

handle_register_keeps_example :
    ((manager.world.fails (manager.world.calls + 1) ≡ true)
      × ((handle_register json (text "n1") registration 50 manager).0 ≡ err io)
      × (find node_key
            (text "n1")
            (handle_register json (text "n1") registration 50 manager).1.db.nodes
          ≡ some (node_row (text "n1"))))
    ⊎ ((manager.world.fails (manager.world.calls + 1) ≡ false)
        × (find node_key
              (text "n1")
              (handle_register json (text "n1") registration 50 manager).1.db.nodes
            ≡ some (reported_row json registration 50 (node_row (text "n1")))))
handle_register_keeps_example =
    handle_register_keeps json (text "n1") registration 50 (node_row (text "n1")) manager row-n1

marks : (mark_sent (task_row (text "a") 10 0) (handle_result result_a manager).1).0 ≡ ok tt
unfolding mark_sent handle_result store_result mark_seen seen_recently lookup get log_activity
    notify_waiter now_millis query update_task_state complete_task get_task append_activity find
    update ◌==◌ ◌>>=◌
marks = refl

mark_sent_after_result_example :
    (at : ℕ) × (find task_key
        (text "a")
        (mark_sent (task_row (text "a") 10 0) (handle_result result_a manager).1).1.db.tasks
      ≡ some (stamped sent at (done_row result_a manager (task_row (text "a") 10 0))))
mark_sent_after_result_example =
    mark_sent_after_result result_a (task_row (text "a") 10 0) (task_row (text "a") 10 0) manager
      (λ i. refl) refl (unseen (text "a")) row-a refl marks
