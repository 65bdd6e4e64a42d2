-- ===== src/Dispatcher/Delivery.antt =====
-- The send method of internal/manager/dispatcher.go and the tasks table.
use sit.Prelude.{
  ℕ, Text, ◌≡◌, refl, Option, none, some, List, subst, Bool-cases, Option-cases, inl, inr,
}
use sit.Exec.{Result, ok, err, Exec, resume, ◌>>=◌}
use sit.Exec.Keeps.{Keeps, keeps_rules}
use sit.Protocol.{Instruction, Json, Bytes}
use sit.Table.{find, update}
use sit.Store.{Db, task_key}
use sit.Store.Models.{Task, sent, Activity, ActivityType, ActivityDetail}
use sit.Store.Tasks.{stamped, update_task_state, append_activity}
use sit.Manager.{Manager, now_millis, query}
use sit.Manager.Rules.{OfDb, db_rules}
use sit.Dispatcher.{log_activity, instruction_envelope, drawn, send_frame, mark_sent, send}

abbrev pub HasTasks : List Task → Db → Type 0
HasTasks ts db = db.tasks ≡ ts

module _ (ts : List Task) where
  drawn-HasTasks :
      (j : Json) (p : Instruction) (raw : Option Bytes) → Keeps (OfDb (HasTasks ts)) (drawn j p raw)
  unfolding drawn
  drawn-HasTasks j p none = search keeps_rules
  drawn-HasTasks j p (some raw) = search (keeps_rules, db_rules)

  envelope-HasTasks :
      (j : Json) (p : Instruction) → Keeps (OfDb (HasTasks ts)) (instruction_envelope j p)
  unfolding instruction_envelope
  envelope-HasTasks j p = drawn-HasTasks j p (j.instruction_bytes p)

  send_frame-HasTasks : (j : Json) (t : Task) → Keeps (OfDb (HasTasks ts)) (send_frame j t)
  unfolding send_frame
  send_frame-HasTasks j t = search (keeps_rules, db_rules, envelope-HasTasks)

  append-HasTasks : (a : Activity) → Keeps (HasTasks ts) (append_activity a)
  unfolding append_activity
  append-HasTasks a = record { at = λ s h. h }

  pub log_activity-HasTasks :
      (node_id : Text) (typ : ActivityType) (detail : ActivityDetail)
      → Keeps (OfDb (HasTasks ts)) (log_activity node_id typ detail)
  unfolding log_activity
  log_activity-HasTasks node_id typ detail = search (keeps_rules, db_rules, append-HasTasks)

-- What a call of `send` has done to the tasks, by its result.
abbrev pub SentOr : Task → List Task → Result (Unit {0}) → List Task → Type 0
SentOr t before (ok _) after =
    (at : ℕ) × (after ≡ update task_key t.task_id (stamped sent at) before)
SentOr t before (err e) after = after ≡ before

pub mark_sent_tasks :
    (t : Task) (m : Manager) → SentOr t m.db.tasks (mark_sent t m).0 (mark_sent t m).1.db.tasks
unfolding mark_sent now_millis query update_task_state ◌>>=◌
mark_sent_tasks t m = elim (Bool-cases (m.world.fails m.world.calls)) [
  | inl e ↦ rw e refl
  | inr e ↦ elim (Option-cases (find task_key t.task_id m.db.tasks)) [
    | inl n ↦ rw (e, n) refl
    | inr (x, n) ↦ rw (e, n) (m.world.clock m.world.readings, refl)
  ]
]

bind_SentOr :
    (t : Task) (m : Manager) (f : Exec Manager (Unit {0}))
    → (f m).1.db.tasks ≡ m.db.tasks
    → SentOr t m.db.tasks ((f >>= λ _. mark_sent t) m).0 ((f >>= λ _. mark_sent t) m).1.db.tasks
unfolding ◌>>=◌
bind_SentOr t m f h = resume_SentOr (f m).0 (f m).1 h
  where
    resume_SentOr :
        (r : Result (Unit {0})) (m' : Manager)
        → m'.db.tasks ≡ m.db.tasks
        → SentOr t m.db.tasks
            (resume r (λ _. mark_sent t) m').0
            (resume r (λ _. mark_sent t) m').1.db.tasks
    resume_SentOr (ok u) m' h =
        subst (λ ts. SentOr t ts (mark_sent t m').0 (mark_sent t m').1.db.tasks) h
          (mark_sent_tasks t m')
    resume_SentOr (err e) m' h = h

-- Sending sets the row to `sent` exactly when it reports no error, and otherwise leaves the tasks.
pub send_tasks :
    (j : Json) (t : Task) (m : Manager) → SentOr t m.db.tasks (send j t m).0 (send j t m).1.db.tasks
unfolding send
send_tasks j t m =
    bind_SentOr t m (send_frame j t)
      ((send_frame-HasTasks m.db.tasks j t).at m (record { holds = refl })).holds
