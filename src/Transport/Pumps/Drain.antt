-- ===== src/Transport/Pumps/Drain.antt =====
-- The writer of internal/transport/pump.go empties its queue.
use sit.Prelude.{◌≡◌, refl, true, List, [], ◌∷◌, ◌++◌, sym, ◌∙◌}
use mathlib.Core.List.{append_assoc, append-nil}
use sit.Protocol.{Bytes, Envelope, Json}
use sit.Protocol.Codec
use sit.Protocol.Codec.{Coded, encode}
use sit.Transport.Pumps.{Pumps, Writer, waiting, writing, WriteStep, Reach, begin_write}
use sit.Transport.Pumps.Link.{frames, one, is_alive}
use sit.Transport.Pumps.Order.{Outbound, Reach-InOrder}

-- The writer alone runs, and no write fails.
pub data Writes (j : Json) (p : Pumps) : Pumps → Type 0 where
  done : Writes j p p
  more : {q r : Pumps} → Writes j p q → WriteStep j q r → Writes j p r

pub Writes-trans : {j : Json} {p q r : Pumps} → Writes j p q → Writes j q r → Writes j p r
Writes-trans w done = w
Writes-trans w (more v s) = more (Writes-trans w v) s

-- A run of the writer to an empty queue, by which `sent` has been written and nothing accepted.
record Emptied (j : Json) (p : Pumps) (sent : List Bytes) : Type 0 where
  pub end : Pumps
  pub run : Writes j p end
  pub empty : end.queue ≡ []
  pub idle : end.writer ≡ waiting
  pub accepted : end.accepted ≡ p.accepted
  pub written : end.written ≡ p.written ++ sent

module _ (j : Json) where
  after_step :
      {p q : Pumps} (first : List Bytes) {rest : List Bytes}
      → WriteStep j p q
      → q.accepted ≡ p.accepted
      → q.written ≡ p.written ++ first
      → Emptied j q rest
      → Emptied j p (first ++ rest)
  after_step {p} first s a w e = record {
    end = e.end;
    run = Writes-trans (more done s) e.run;
    empty = e.empty;
    idle = e.idle;
    accepted = e.accepted ∙ a;
    written = e.written ∙ rw (w, append_assoc) refl;
  }

  -- after the frame at the head has been taken
  drain_taken :
      (c : Coded Bytes) (p : Pumps) (rest : List Bytes)
      → p.writer ≡ begin_write c
      → ((q : Pumps) → q.writer ≡ waiting → q.queue ≡ p.queue → Emptied j q rest)
      → Emptied j p (one c ++ rest)
  drain_taken (Codec.Coded.err e) p rest h next = next p h refl
  drain_taken (Codec.Coded.ok b) p rest h next =
      after_step (b ∷ []) (WriteStep.writes b h) refl refl (next _ refl refl)

  drain :
      (es : List Envelope) (p : Pumps)
      → p.writer ≡ waiting
      → p.queue ≡ es
      → Emptied j p (frames j es)
  drain [] p h q = record {
    end = p;
    run = done;
    empty = q;
    idle = h;
    accepted = refl;
    written = sym (append-nil p.written);
  }
  drain (e ∷ es) p h q =
      after_step [] (WriteStep.takes e es h q) refl (sym (append-nil p.written))
        (drain_taken (encode j e) _ (frames j es) refl (λ r w k. drain es r w k))

  abbrev pub Delivered : Pumps → Pumps → Type 0
  Delivered p end =
      Writes j p end
      × (end.accepted ≡ p.accepted)
      × (end.queue ≡ [])
      × (end.written ≡ frames j p.accepted)

  drain_any :
      (w : Writer) (p : Pumps)
      → p.writer ≡ w
      → is_alive w ≡ true
      → Outbound j w p.accepted p.queue p.written
      → (end : Pumps) × Delivered p end
  drain_any Writer.ended p h alive o = cc
  drain_any waiting p h alive o =
      let e = drain p.queue p h refl in (e.end, (e.run, e.accepted, e.empty, e.written ∙ sym o))
  drain_any (writing b) p h alive o =
      let e = after_step (b ∷ []) (WriteStep.writes b h) refl refl (drain p.queue _ refl refl) in
      (e.end, (e.run, e.accepted, e.empty, e.written ∙ sym o))

  -- From every state that a connection reaches in which the writer has not returned, the writer alone
  -- can empty the queue by writes that succeed, and then the frames of all the envelopes that Send
  -- has accepted are written, in order and once each.
  pub Reach-Delivered :
      {p : Pumps} → Reach j p → is_alive p.writer ≡ true → (end : Pumps) × Delivered p end
  Reach-Delivered {p} r alive = drain_any p.writer p refl alive (Reach-InOrder j r).outbound
