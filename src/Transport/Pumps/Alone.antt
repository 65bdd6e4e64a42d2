-- ===== src/Transport/Pumps/Alone.antt =====
-- The writer of internal/transport/pump.go running alone: it comes to rest, with the queue written.
use sit.Prelude.{
  ℕ, suc, ◌+◌, ◌*◌, ◌≤◌, ◌<◌, ◌≡◌, ◌⊎◌, inl, inr, refl, List, [], ◌∷◌, ◌++◌, length, arith, sym,
  ◌∙◌,
}
use mathlib.Core.List.{append-nil}
use sit.Protocol.{Envelope, Json, Bytes}
use sit.Protocol.Codec.{encode}
use sit.Transport.Pumps.{
  Pumps, Writer, waiting, writing, WriteStep, Step, Reach, later, begin_write, close,
}
use sit.Transport.Pumps.Link.{frames}
use sit.Transport.Pumps.Order.{Outbound, Reach-InOrder}

-- n steps of the writer
pub data Alone (j : Json) (p : Pumps) : ℕ → Pumps → Type 0 where
  rests : Alone j p 0 p
  goes_on : {n : ℕ} {q r : Pumps} → Alone j p n q → WriteStep j q r → Alone j p (suc n) r

-- no step is open to the writer
abbrev pub AtRest : Json → Pumps → Type 0
AtRest j p = (q : Pumps) → ¬ WriteStep j p q

abbrev weight : Writer → ℕ
weight Writer.ended = 0
weight waiting = 1
weight (writing b) = 2

-- the steps that are left at most
abbrev work : Pumps → ℕ
work p = 2 * length p.queue + weight p.writer

weight-le : (w : Writer) → weight w ≤ 2
weight-le Writer.ended = omega arith
weight-le waiting = omega arith
weight-le (writing b) = omega arith

module _ (j : Json) where
  WriteStep-work : {p q : Pumps} → WriteStep j p q → work q < work p
  unfolding close
  WriteStep-work (WriteStep.write_stops waits closed) = rw waits (omega arith)
  WriteStep-work (WriteStep.takes e rest waits queued) =
      rw (waits, queued) (omega (arith, weight-le (begin_write (encode j e))))
  WriteStep-work (WriteStep.writes b busy) = rw busy (omega arith)
  WriteStep-work (WriteStep.write_fails b why busy) = rw busy (omega arith)

  Alone-work : {p q : Pumps} {n : ℕ} → Alone j p n q → n + work q ≤ work p
  Alone-work rests = omega arith
  Alone-work (goes_on a s) = omega (arith, Alone-work a, WriteStep-work s)

  WriteStep-accepted : {p q : Pumps} → WriteStep j p q → q.accepted ≡ p.accepted
  unfolding close
  WriteStep-accepted (WriteStep.write_stops waits closed) = refl
  WriteStep-accepted (WriteStep.takes e rest waits queued) = refl
  WriteStep-accepted (WriteStep.writes b busy) = refl
  WriteStep-accepted (WriteStep.write_fails b why busy) = refl

  Alone-accepted : {p q : Pumps} {n : ℕ} → Alone j p n q → q.accepted ≡ p.accepted
  Alone-accepted rests = refl
  Alone-accepted (goes_on a s) = WriteStep-accepted s ∙ Alone-accepted a

  Alone-Reach : {p q : Pumps} {n : ℕ} → Reach j p → Alone j p n q → Reach j q
  Alone-Reach r rests = r
  Alone-Reach r (goes_on a s) = later (Alone-Reach r a) (Step.by_writer s)

  -- How a run ends, for the envelopes that Send has accepted: the writer has returned and may have lost the last frames, or it waits for an
  -- empty queue, with all frames written.
  abbrev pub IsOver : List Envelope → Pumps → Type 0
  IsOver accepted q =
      ((q.writer ≡ Writer.ended) × ((lost : List Bytes) × (frames j accepted ≡ q.written ++ lost)))
      ⊎ ((q.writer ≡ waiting) × (q.queue ≡ []) × (q.written ≡ frames j accepted))

  rest-IsOver :
      (w : Writer) (queue : List Envelope) (q : Pumps)
      → q.writer ≡ w
      → q.queue ≡ queue
      → AtRest j q
      → Outbound j w q.accepted queue q.written
      → IsOver q.accepted q
  rest-IsOver Writer.ended queue q hw hq still o = inl (hw, o)
  rest-IsOver (writing b) queue q hw hq still o = absurd (still _ (WriteStep.writes b hw))
  rest-IsOver waiting (e ∷ rest) q hw hq still o = absurd (still _ (WriteStep.takes e rest hw hq))
  rest-IsOver waiting [] q hw hq still o = inr (hw, hq, sym (o ∙ append-nil q.written))

  -- From every state that a connection reaches, a run of the writer alone that has come to rest took
  -- at most 130 steps. It ends with the writer waiting for an empty queue and the frames of all the
  -- envelopes that Send has accepted written, in order and once each; or with the writer returned,
  -- and then those written are a first part of these.
  pub Alone-IsOver :
      {p q : Pumps} {n : ℕ}
      → Reach j p
      → Alone j p n q
      → AtRest j q
      → (n ≤ 130) × IsOver p.accepted q
  Alone-IsOver {p} {q} r a still =
      let steps = Alone-work a in
      let room = (Reach-InOrder j r).bounded in
      (
        omega (arith, weight-le p.writer),
        rw (← Alone-accepted a) (
            rest-IsOver q.writer q.queue q refl refl still
              (Reach-InOrder j (Alone-Reach r a)).outbound),
      )
