-- ===== src/Api/Tasks/Created.antt =====
-- handleCreateTask of internal/manager/api and the tasks table.
use sit.Prelude.{
  ℕ, Text, text, ◌≡◌, refl, ◌⊎◌, inl, inr, Option, none, some, List, arith, Bool-cases, ◌∙◌, subst,
}
use sit.Exec.{Error, Result, ok, err, ◌>>=◌}
use sit.Protocol.{Json}
use sit.Store
use sit.Store.Models.{Task}
use sit.Manager.{Manager, now_millis, new_id, query}
use sit.Dispatcher.{create_task}
use sit.Dispatcher.Creation.{Answers, IsStored, create_task_stored}
use sit.Api.{failure, accepted, Reply, unless_missing}
use sit.Api.Tasks.{
  TaskRequest, is_complete, new_task, created_or, submit, checked, handle_create_task,
}

-- The reply is an acceptance and names a task that is stored in the state it says, or it is an
-- error and no task has been stored.
pub data Outcome (before : Manager) : Result Reply × Manager → Type 0 where
  stored :
      {m : Manager} (t : Task)
      → IsStored t m.db.tasks
      → Outcome before (ok (record { status = 202; body = accepted t.task_id t.state }), m)
  refused :
      {m : Manager} (status : ℕ) (code : Text)
      → m.db ≡ before.db
      → m.registry ≡ before.registry
      → Outcome before (ok (record { status = status; body = failure code }), m)

-- What CreateTask has done, against the state before the request
abbrev Tried : Manager → Result Task × Manager → Type 0
Tried before p =
    Answers p
    ⊎ ((e : Error) × (p.0 ≡ err e) × (p.1.db ≡ before.db) × (p.1.registry ≡ before.registry))

same_task : (t t' : Task) (ts : List Task) → ok t ≡ ok t' → IsStored t' ts → IsStored t ts
same_task t t' ts h s = subst (λ x. IsStored x ts) (back h) s
  where
    back : ok t ≡ ok t' → t' ≡ t
    back h = cc

created-Outcome :
    (before : Manager) (p : Result Task × Manager)
    → Tried before p
    → Outcome before (created_or p.0 p.1)
created-Outcome before (ok t, m) (inl (t', same, s)) = stored t (same_task t t' m.db.tasks same s)
created-Outcome before (err e, m) (inl (t', same, s)) = absurd (cc_ok same)
  where
    cc_ok : err e ≡ ok t' → ⊥
    cc_ok h = cc
created-Outcome before (ok t, m) (inr (e, same, d, r)) = absurd (cc_ok same)
  where
    cc_ok : ok t ≡ err e → ⊥
    cc_ok h = cc
created-Outcome before (err e, m) (inr (e', same, d, r)) = refused 500 (text "internal") d r

submit-Outcome :
    (j : Json) (node_id : Text) (req : TaskRequest) (before m : Manager)
    → m.db ≡ before.db
    → m.registry ≡ before.registry
    → Outcome before (submit j node_id req m)
unfolding submit now_millis new_id ◌>>=◌
submit-Outcome j node_id req before m d r =
    let m' = (new_id (now_millis m).1).1 in
    let t = new_task node_id req (m.world.id m.world.ids) (m.world.clock m.world.readings) in
    created-Outcome before (create_task j t m') (elim (create_task_stored j t m') [
      | inl a ↦ inl a
      | inr (e, same, d', r') ↦ inr (e, same, d' ∙ d, r' ∙ r)
    ])

lookup_same :
    (id : Text) (m : Manager)
    → ((query (Store.get_node id) m).1.db ≡ m.db)
      × ((query (Store.get_node id) m).1.registry ≡ m.registry)
unfolding query Store.get_node
lookup_same id m = (ground arith, ground arith)

known-Outcome :
    (j : Json) (node_id : Text) (req : TaskRequest) (before : Manager)
    → {A : Type 0} (known : Result A) (m : Manager) → m.db ≡ before.db
    → m.registry ≡ before.registry
    → Outcome before (unless_missing known (submit j node_id req) m)
known-Outcome j node_id req before (err Error.not_found) m d r = refused 404 (text "not_found") d r
known-Outcome j node_id req before (ok n) m d r = submit-Outcome j node_id req before m d r
known-Outcome j node_id req before (err Error.constraint) m d r =
    submit-Outcome j node_id req before m d r
known-Outcome j node_id req before (err Error.io) m d r = submit-Outcome j node_id req before m d r
known-Outcome j node_id req before (err Error.conn_closed) m d r =
    submit-Outcome j node_id req before m d r
known-Outcome j node_id req before (err Error.bad_credentials) m d r =
    submit-Outcome j node_id req before m d r
known-Outcome j node_id req before (err Error.token_invalid) m d r =
    submit-Outcome j node_id req before m d r
known-Outcome j node_id req before (err Error.revoked) m d r =
    submit-Outcome j node_id req before m d r
known-Outcome j node_id req before (err Error.malformed_token) m d r =
    submit-Outcome j node_id req before m d r
known-Outcome j node_id req before (err Error.cancelled) m d r =
    submit-Outcome j node_id req before m d r
known-Outcome j node_id req before (err Error.timed_out) m d r =
    submit-Outcome j node_id req before m d r
known-Outcome j node_id req before (err Error.unsupported) m d r =
    submit-Outcome j node_id req before m d r
known-Outcome j node_id req before (err Error.not_root) m d r =
    submit-Outcome j node_id req before m d r
known-Outcome j node_id req before (err Error.is_required) m d r =
    submit-Outcome j node_id req before m d r
known-Outcome j node_id req before (err Error.refusing) m d r =
    submit-Outcome j node_id req before m d r
known-Outcome j node_id req before (err Error.no_free_id) m d r =
    submit-Outcome j node_id req before m d r
known-Outcome j node_id req before (err Error.usage) m d r =
    submit-Outcome j node_id req before m d r

-- A request for a task is answered with 202 and a task that is in the database, in the state that
-- the reply says, or it is answered with an error, and then the database and every connection are
-- as they were.
pub handle_create_task_outcome :
    (j : Json) (node_id : Text) (req : Option TaskRequest) (m : Manager)
    → Outcome m (handle_create_task j node_id req m)
unfolding handle_create_task checked ◌>>=◌
handle_create_task_outcome j node_id none m = refused 400 (text "bad_request") refl refl
handle_create_task_outcome j node_id (some req) m = elim (Bool-cases (is_complete req.kind req)) [
  | inl e ↦ rw e (
      known-Outcome j node_id req m (query (Store.get_node node_id) m).0
        (query (Store.get_node node_id) m).1 (lookup_same node_id m).0 (lookup_same node_id m).1)
  | inr e ↦ rw e (refused 400 (text "bad_request") refl refl)
]
