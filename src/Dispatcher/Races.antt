-- ===== src/Dispatcher/Races.antt =====
-- CreateTask on one goroutine against HandleResult on another: a result may come in between the
-- Send of a frame and the statement that marks its task as sent.
use sit.Prelude.{ℕ, eq_refl, ◌≡◌, refl, false, List, some, ◌∙◌, is_empty}
use sit.Exec.{Error, Result, ok, err}
use sit.Protocol.{Notification}
use sit.Table.{find}
use sit.Table.Laws.{find-update}
use sit.Store.{task_key}
use sit.Store.Models.{Task, sent}
use sit.Store.Tasks.{stamped}
use sit.Manager.{Manager}
use sit.Dispatcher.{mark_sent, handle_result, seen_recently}
use sit.Dispatcher.Completion.{DbWorks, done_row, handle_result_completes}
use sit.Dispatcher.Delivery.{SentOr, mark_sent_tasks}

not_ok : (e : Error) (r : Result (Unit {0})) → r ≡ err e → r ≡ ok tt → ⊥
not_ok e r p q = cc

marked_row :
    (t row : Task) (before after : List Task) (r : Result (Unit {0}))
    → find task_key t.task_id before ≡ some row
    → SentOr t before r after
    → r ≡ ok tt
    → (at : ℕ) × (find task_key t.task_id after ≡ some (stamped sent at row))
marked_row t row before after (ok u) f (at, e) h = (
  at,
  rw e (
      find-update task_key t.task_id t.task_id (stamped sent at) before (λ r. refl)
      ∙ rw (f, eq_refl t.task_id) refl),
)
marked_row t row before after (err e) f s h = absurd (not_ok e (err e) refl h)

-- If a new result for a task is handled after the task's frame was sent and before the task is
-- marked as sent, with the database working in both, the mark puts the finished task back into the
-- state sent, with the rest of the result in place.
pub mark_sent_after_result :
    (n : Notification) (t row : Task) (m : Manager)
    → DbWorks m
    → is_empty t.task_id ≡ false
    → seen_recently t.task_id m ≡ false
    → find task_key t.task_id m.db.tasks ≡ some row
    → n.ref_id ≡ t.task_id
    → (mark_sent t (handle_result n m).1).0 ≡ ok tt
    → (at : ℕ) × (find task_key t.task_id (mark_sent t (handle_result n m).1).1.db.tasks
        ≡ some (stamped sent at (done_row n m row)))
mark_sent_after_result n t row m w e s f same h =
    let done = handle_result_completes n m row w (rw same e) (rw same s) (rw same f) in
    marked_row t (done_row n m row) (handle_result n m).1.db.tasks _
      (mark_sent t (handle_result n m).1).0 (done.1 t.task_id ∙ rw (same, eq_refl t.task_id) refl)
      (mark_sent_tasks t (handle_result n m).1) h
