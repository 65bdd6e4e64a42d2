-- ===== src/Node/Executor/Limits.antt =====
-- Execute of internal/node/executor.go: what its results look like.
use sit.Prelude.{
  ℕ, ◌≤◌, Text, ◌≡◌, refl, inl, inr, some, arith, length, length-take_le, ltb, get, Option-cases,
  Bool-cases, ltb→le,
}
use sit.Protocol.{
  Bytes, Instruction, InstructionKind, shell, predefined, Notification, NotificationKind,
}
use sit.Window.{Window, lookup}
use sit.Window.Laws.{IsWindow, found_in_remember}
use sit.Node.Executor.Once.{execute_fresh, execute_prior}
use sit.Node.Executor.{
  dedup_window, Host, Executor, ShellRun, HandlerRun, max_output_bytes, truncate, shell_result,
  handler_result, timeout_of, run_kind, run_shell, run_predefined, is_late, run_new, execute,
}

length-truncate : (b : Bytes) → length (truncate b).0 ≤ max_output_bytes
unfolding truncate
length-truncate b = elim (Bool-cases (ltb max_output_bytes (length b))) [
  | inl e ↦ rw e (length-take_le max_output_bytes b)
  | inr e ↦ rw e (ltb→le max_output_bytes (length b) e)
]

-- What every result of a run satisfies: it answers its instruction, within the output limits.
pub record IsAnswer (id : Text) (res : Notification) : Type 0 where
  pub kind : res.kind ≡ NotificationKind.result
  pub ref_id : res.ref_id ≡ id
  pub stdout : length res.stdout ≤ 65_536

shell_result-IsAnswer : (id : Text) (r : ShellRun) → IsAnswer id (shell_result id r)
unfolding shell_result
shell_result-IsAnswer id r = record {
  kind = refl;
  ref_id = refl;
  stdout = length-truncate r.stdout;
}

handler_result-IsAnswer : (id : Text) (r : HandlerRun) → IsAnswer id (handler_result id r)
unfolding handler_result
handler_result-IsAnswer id r = elim (Option-cases r.error) [
  | inl e ↦ rw e (record { kind = refl; ref_id = refl; stdout = length-truncate r.out })
  | inr (x, e) ↦ rw e (record { kind = refl; ref_id = refl; stdout = length-truncate r.out })
]

module _ (h : Host) where
  run_kind-IsAnswer :
      (k : InstructionKind) (id : Text) (i : Instruction) (e : Executor)
      → IsAnswer id (run_kind h k id i e).0
  unfolding run_shell run_predefined
  run_kind-IsAnswer shell id i e =
      shell_result-IsAnswer id (h.run_command i.command (timeout_of i.timeout_sec))
  run_kind-IsAnswer predefined id i e = elim (Option-cases (get i.name h.handlers)) [
    | inl f ↦ rw f (record { kind = refl; ref_id = refl; stdout = omega arith })
    | inr (fn, f) ↦ rw f (handler_result-IsAnswer id (fn i.args (timeout_of i.timeout_sec)))
  ]
  run_kind-IsAnswer (InstructionKind.other k) id i e = record {
    kind = refl;
    ref_id = refl;
    stdout = omega arith;
  }

  run_new-IsAnswer :
      (now : ℕ) (id : Text) (i : Instruction) (e : Executor) → IsAnswer id (run_new h now id i e).0
  unfolding run_new
  run_new-IsAnswer now id i e = elim (Bool-cases (is_late now i)) [
    | inl l ↦ rw l (record { kind = refl; ref_id = refl; stdout = omega arith })
    | inr l ↦ rw l (run_kind-IsAnswer i.kind id i e)
  ]

-- Every result that the executor remembers answers the instruction of its id.
abbrev pub AllAnswer : Window Notification → Type 0
AllAnswer w = (id : Text) (v : Notification) → lookup id w ≡ some v → IsAnswer id v

some-eq : {v u : Notification} → some v ≡ some u → v ≡ u
some-eq h = cc

module _ (h : Host) where
  -- With a well-formed window that holds such results only, whatever instruction arrives, known or
  -- new, late or in time, of whatever kind, the executor answers it with a result that names it
  -- and whose stdout is within the limit; and it keeps doing so.
  pub execute_answers :
      (now : ℕ) (id : Text) (i : Instruction) (e : Executor)
      → IsWindow dedup_window e.window
      → AllAnswer e.window
      → IsAnswer id (execute h now id i e).0 × AllAnswer (execute h now id i e).1.window
  execute_answers now id i e w a = elim (Option-cases (lookup id e.window)) [
    | inl f ↦
        rw ((execute_fresh h now id i e f).0, (execute_fresh h now id i e f).1)
          (
            run_new-IsAnswer h now id i e,
            λ j v g.
                elim (found_in_remember dedup_window id (run_new h now id i e).0 e.window j v g) [
                  | inl (same, res) ↦ rw (← same, ← res) (run_new-IsAnswer h now id i e)
                  | inr old ↦ a j v old
                ],
          )
    | inr (prior, f) ↦ rw (execute_prior h now id i e prior f) (a id prior f, a)
  ]
