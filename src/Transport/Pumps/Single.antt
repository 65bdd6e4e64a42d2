-- ===== src/Transport/Pumps/Single.antt =====
-- A call of Send as one step, in Transport, against its steps in pump.go.
use sit.Prelude.{
  ℕ, ◌<◌, ◌≡◌, ◌↔◌, ◌⊎◌, refl, sym, ap, ◌++◌, ◌∷◌, [], inl, inr, ◌∙◌, Bool, true, false, length,
  nat_eq, Bool-cases, arith,
}
use sit.Exec.{Result, ok, err, conn_closed, cancelled}
use sit.Protocol.{Envelope}
use sit.Transport.{Conn, SessionInfo, send}
use sit.Transport.Pumps.{
  Pumps, Sender, offering, returned, SendStep, begin_send, enqueue, set_sender, send_buffer,
}

-- what Transport keeps of a connection
abbrev pub conn_of : SessionInfo → Pumps → Conn
conn_of info p = record {
  info = info;
  is_open = p.is_open;
  accepted = p.accepted;
  reason = p.reason;
}

-- The call of Send by i on e returns `result` in the state q, with at most one step of a sender after
-- its first select.
abbrev pub Returns : ℕ → Envelope → Pumps → Result (Unit {0}) → Pumps → Type 0
Returns i e p result q =
    (q.senders i ≡ returned result)
    × (((p.is_open ≡ false) × (q ≡ begin_send i e p))
        ⊎ ((p.is_open ≡ true) × SendStep (begin_send i e p) q))

nat_eq_sym : (i k : ℕ) → nat_eq k i ≡ true → nat_eq i k ≡ true
nat_eq_sym i k h = ground arith

same_index : (i : ℕ) → nat_eq i i ≡ true
same_index i = ground arith

module _ (i : ℕ) (e : Envelope) (p : Pumps) (up : p.is_open ≡ true) where
  -- this call is past its first select
  offers : (k : ℕ) → nat_eq k i ≡ true → (begin_send i e p).senders k ≡ offering e
  unfolding begin_send set_sender
  offers k h = rw (nat_eq_sym i k h, up) refl

  -- and stays there where another sender moves
  others :
      (k : ℕ) (s : Sender)
      → nat_eq k i ≡ false
      → (set_sender k s (begin_send i e p)).senders i ≡ offering e
  unfolding begin_send set_sender
  others k s h = rw (h, same_index i, up) refl

  mine :
      (k : ℕ) (s : Sender) → nat_eq k i ≡ true → (set_sender k s (begin_send i e p)).senders i ≡ s
  unfolding set_sender
  mine k s h = rw h refl

  module _ (info : SessionInfo) (result : Result (Unit {0})) where
    -- a step after which this call has returned is this call's own
    step_sends :
        {q : Pumps}
        → SendStep (begin_send i e p) q
        → q.senders i ≡ returned result
        → (b : Bool) × (send b e (conn_of info p) ≡ (result, conn_of info q))
    unfolding begin_send set_sender enqueue send
    step_sends (SendStep.begin k x idle) done = elim (Bool-cases (nat_eq k i)) [
      | inl h ↦ let bad : offering e ≡ Sender.idle = sym (offers k h) ∙ idle in cc
      | inr h ↦ let bad : offering e ≡ returned result = sym (others k _ h) ∙ done in cc
    ]
    step_sends (SendStep.accept k x offered room) done = elim (Bool-cases (nat_eq k i)) [
      | inl h ↦
          let sent : offering e ≡ offering x = sym (offers k h) ∙ offered in
          let got : returned (ok tt) ≡ returned result = sym (mine k _ h) ∙ done in
          let same : x ≡ e = cc in
          let outcome : result ≡ ok tt = cc in (false, rw (up, same, outcome) refl)
      | inr h ↦ let bad : offering e ≡ returned result = sym (others k _ h) ∙ done in cc
    ]
    step_sends (SendStep.refuse k x offered closed) done = cc
    step_sends (SendStep.give_up k x offered) done = elim (Bool-cases (nat_eq k i)) [
      | inl h ↦
          let got : returned (err cancelled) ≡ returned result = sym (mine k _ h) ∙ done in
          let outcome : result ≡ err cancelled = cc in (true, rw (up, outcome) refl)
      | inr h ↦ let bad : offering e ≡ returned result = sym (others k _ h) ∙ done in cc
    ]

module _ (info : SessionInfo) (i : ℕ) (e : Envelope) (p : Pumps) (result : Result (Unit {0}))
    (c : Conn) where
  abbrev pub ByPumps : Type 0
  ByPumps = (q : Pumps) × Returns i e p result q × (conn_of info q ≡ c)

  abbrev pub AsOneStep : Type 0
  AsOneStep = (b : Bool) × (send b e (conn_of info p) ≡ (result, c))

  closed_lem : p.is_open ≡ false → (begin_send i e p).senders i ≡ returned (err conn_closed)
  unfolding begin_send set_sender
  closed_lem down = rw (same_index i, down) refl

  as_one_step : ByPumps → AsOneStep
  unfolding send begin_send set_sender
  as_one_step (q, (done, inl (down, same)), conn) =
      let early : returned (err conn_closed) ≡ returned result =
        sym (closed_lem down) ∙ ap (λ (s : Pumps). s.senders i) (sym same) ∙ done in
      let outcome : result ≡ err conn_closed = cc in
      (false, rw (down, outcome, ← conn, same) (rw down refl))
  as_one_step (q, (done, inr (up, step)), conn) =
      let (b, h) = step_sends i e p up info result step done in (b, rw (← conn) h)

  by_pumps_open :
      (b : Bool)
      → length p.queue < send_buffer
      → p.is_open ≡ true
      → send b e (conn_of info p) ≡ (result, c)
      → ByPumps
  unfolding send begin_send set_sender enqueue
  by_pumps_open false room up h =
      let sent : send false e (conn_of info p)
          ≡ (ok tt, record (conn_of info p) { accepted = p.accepted ++ e ∷ [] }) =
        rw up refl in
      let both = sym sent ∙ h in
      (
        enqueue i e (begin_send i e p),
        (
          mine i e p up i _ (same_index i) ∙ ap (λ x. returned x.0) both,
          inr (up, SendStep.accept i e (offers i e p up i (same_index i)) room),
        ),
        ap (λ x. x.1) both,
      )
  by_pumps_open true room up h =
      let gave_up : send true e (conn_of info p) ≡ (err cancelled, conn_of info p) = rw up refl in
      let both = sym gave_up ∙ h in
      (
        set_sender i (returned (err cancelled)) (begin_send i e p),
        (
          mine i e p up i _ (same_index i) ∙ ap (λ x. returned x.0) both,
          inr (up, SendStep.give_up i e (offers i e p up i (same_index i))),
        ),
        ap (λ x. x.1) both,
      )

  by_pumps : length p.queue < send_buffer → AsOneStep → ByPumps
  unfolding send begin_send set_sender
  by_pumps room (b, h) = elim (Bool-cases p.is_open) [
    | inl up ↦ by_pumps_open b room up h
    | inr down ↦
        let refused : send b e (conn_of info p) ≡ (err conn_closed, conn_of info p) =
          rw down refl in
        let both = sym refused ∙ h in
        (
          begin_send i e p,
          (closed_lem down ∙ ap (λ x. returned x.0) both, inl (down, refl)),
          ap (λ x. x.1) both,
        )
  ]

  -- While the queue has room, a call of Send with no step of the other goroutines or callers in
  -- between can end with a result and a connection exactly where Send as the one step that the models
  -- of the Manager and the node take can, for one of the two ways in which the context may decide.
  pub send_iff : length p.queue < send_buffer → ByPumps ↔ AsOneStep
  send_iff room = (as_one_step, by_pumps room)
