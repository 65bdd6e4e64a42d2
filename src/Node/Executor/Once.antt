-- ===== src/Node/Executor/Once.antt =====
-- Execute of internal/node/executor.go and its window of recent results.
use sit.Prelude.{
  ℕ, suc, ◌+◌, ◌<◌, Text, ◌≡◌, refl, inl, inr, none, some, List, [], ◌∷◌, arith, has, length,
  Bool-cases, Option-cases, ap,
}
use sit.Protocol.{Instruction, Notification}
use sit.Window.{Window, lookup, push, remember}
use sit.Window.Laws.{IsWindow, push-IsWindow}
use sit.Window.Memory.{Holds, Holds-later, remember-Holds, first_Holds}
use sit.Node.Executor.{Host, Executor, dedup_window, run_shell, run_predefined, run_new, execute}

remember-eq-push :
    (id : Text) (v : Notification) (w : Window Notification)
    → lookup id w ≡ none
    → remember dedup_window id v w ≡ push dedup_window id v w
unfolding remember
remember-eq-push id v w n = rw n refl

remember-IsWindow :
    (id : Text) (v : Notification) (w : Window Notification)
    → IsWindow dedup_window w
    → IsWindow dedup_window (remember dedup_window id v w)
unfolding remember
remember-IsWindow id v w h = elim (Bool-cases (has (lookup id w))) [
  | inl e ↦ rw e h
  | inr e ↦ rw e (push-IsWindow dedup_window id v w h e)
]

module _ (h : Host) where
  -- Running an instruction does not touch the window.
  window-run_new :
      (now : ℕ) (id : Text) (i : Instruction) (e : Executor)
      → (run_new h now id i e).1.window ≡ e.window
  unfolding run_new run_shell run_predefined
  window-run_new now id i e = ground arith

  pub execute_prior :
      (now : ℕ) (id : Text) (i : Instruction) (e : Executor) (prior : Notification)
      → lookup id e.window ≡ some prior
      → execute h now id i e ≡ (prior, e)
  unfolding execute
  execute_prior now id i e prior f = rw f refl

  pub execute_fresh :
      (now : ℕ) (id : Text) (i : Instruction) (e : Executor)
      → lookup id e.window ≡ none
      → ((execute h now id i e).0 ≡ (run_new h now id i e).0)
        × ((execute h now id i e).1.window
            ≡ remember dedup_window id (run_new h now id i e).0 e.window)
        × ((execute h now id i e).1.started ≡ (run_new h now id i e).1.started)
  unfolding execute
  execute_fresh now id i e f = rw f (
    refl,
    ap (remember dedup_window id (run_new h now id i e).0) (window-run_new now id i e),
    refl,
  )

  -- The executor's window of recent results, once well formed, stays so, whatever arrives.
  pub execute-IsWindow :
      (now : ℕ) (id : Text) (i : Instruction) (e : Executor)
      → IsWindow dedup_window e.window
      → IsWindow dedup_window (execute h now id i e).1.window
  execute-IsWindow now id i e w = elim (Option-cases (lookup id e.window)) [
    | inl f ↦
        rw ((execute_fresh now id i e f).1)
          (remember-IsWindow id (run_new h now id i e).0 e.window w)
    | inr (prior, f) ↦ rw (execute_prior now id i e prior f) w
  ]

  -- The instructions that arrive, each with the time at which it does.
  pub execute_all : List (ℕ × Text × Instruction) → Executor → Executor
  execute_all [] e = e
  execute_all ((now, id, i) ∷ more) e = execute_all more (execute h now id i e).1

  execute-Holds :
      (k : ℕ) (id : Text) (v : Notification) (now : ℕ) (x : Text) (i : Instruction) (e : Executor)
      → Holds dedup_window id v k e.window
      → suc k < dedup_window
      → Holds dedup_window id v (suc k) (execute h now x i e).1.window
  execute-Holds k id v now x i e w l = elim (Option-cases (lookup x e.window)) [
    | inl f ↦
        rw ((execute_fresh now x i e f).1)
          (remember-Holds dedup_window id v k x (run_new h now x i e).0 e.window w l)
    | inr (prior, f) ↦
        rw (execute_prior now x i e prior f) (Holds-later dedup_window id v k e.window w)
  ]

  held_all :
      (k : ℕ) (id : Text) (v : Notification) (e : Executor)
      (between : List (ℕ × Text × Instruction))
      → Holds dedup_window id v k e.window
      → k + length between < dedup_window
      → lookup id (execute_all between e).window ≡ some v
  unfolding execute_all lookup
  held_all k id v e [] w l = w.young.held
  held_all k id v e ((now, x, i) ∷ more) w l =
      held_all (suc k) id v (execute h now x i e).1 more
        (execute-Holds k id v now x i e w (omega arith)) (omega arith)

  -- While fewer than 1024 instructions have arrived since it first did, an instruction that
  -- arrives again, with whatever content and at whatever time, gets the first result and starts
  -- nothing, provided that the window was well formed and did not hold its id at the start.
  pub execute_once :
      (now now' : ℕ) (id : Text) (i i' : Instruction) (e : Executor)
      (between : List (ℕ × Text × Instruction))
      → IsWindow dedup_window e.window
      → lookup id e.window ≡ none
      → length between < 1024
      → let (res, e') = execute h now id i e in
        execute h now' id i' (execute_all between e') ≡ (res, execute_all between e')
  execute_once now now' id i i' e between w f l = rw ((execute_fresh now id i e f).0) (
      execute_prior now' id i' (execute_all between (execute h now id i e).1)
        (run_new h now id i e).0
        (held_all 0 id (run_new h now id i e).0 (execute h now id i e).1 between
          (rw
            (
              (execute_fresh now id i e f).1,
              remember-eq-push id (run_new h now id i e).0 e.window f,
            )
            (first_Holds dedup_window id (run_new h now id i e).0 e.window w (omega arith) f))
          (omega arith)))
