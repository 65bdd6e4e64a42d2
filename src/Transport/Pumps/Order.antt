-- ===== src/Transport/Pumps/Order.antt =====
-- What internal/transport/pump.go keeps in order: the frames written against the envelopes that Send
-- accepted, and the envelopes received against the frames read.
use sit.Prelude.{
  ◌≡◌, ◌≤◌, refl, Bool, true, false, List, [], ◌∷◌, ◌++◌, arith, length, length-append, sym, ◌∙◌,
}
use mathlib.Core.List.{append_assoc, append-nil}
use sit.Protocol.{Bytes, Envelope, Json}
use sit.Protocol.Codec
use sit.Protocol.Codec.{Coded, encode, decode}
use sit.Transport.Pumps.{
  Pumps, Writer, waiting, writing, Reader, reading, delivering, SendStep, WriteStep, ReadStep, Step,
  Reach, start, later, begin_write, begin_delivery, enqueue, set_sender, close, end_reader,
  begin_send, send_buffer,
}
use sit.Transport.Pumps.Link.{frames, frames-append, one}

-- All frames accepted are written or on the way; a writer that has returned may have lost the last.
abbrev pub Outbound : Json → Writer → List Envelope → List Envelope → List Bytes → Type 0
Outbound j Writer.ended accepted queue written =
    (lost : List Bytes) × (frames j accepted ≡ written ++ lost)
Outbound j waiting accepted queue written = frames j accepted ≡ written ++ frames j queue
Outbound j (writing b) accepted queue written = frames j accepted ≡ written ++ b ∷ frames j queue

abbrev pub decoded_one : Coded Envelope → List Envelope
decoded_one (Codec.Coded.ok e) = e ∷ []
decoded_one (Codec.Coded.err e) = []

-- the envelopes of the frames that can be decoded
abbrev pub decoded : Json → List Bytes → List Envelope
decoded j [] = []
decoded j (b ∷ bs) = decoded_one (decode j b) ++ decoded j bs

abbrev pub Inbound : Json → Reader → List Bytes → List Envelope → Bool → Type 0
Inbound j Reader.ended inbound received recv_closed =
    ((lost : List Envelope) × (decoded j inbound ≡ received ++ lost)) × (recv_closed ≡ true)
Inbound j reading inbound received recv_closed =
    (decoded j inbound ≡ received) × (recv_closed ≡ false)
Inbound j (delivering e) inbound received recv_closed =
    (decoded j inbound ≡ received ++ e ∷ []) × (recv_closed ≡ false)

pub record InOrder (j : Json) (p : Pumps) : Type 0 where
  pub outbound : Outbound j p.writer p.accepted p.queue p.written
  pub inbound : Inbound j p.reader p.inbound p.received p.recv_closed
  pub bounded : length p.queue ≤ send_buffer

module _ (j : Json) where
  Outbound-accept :
      (w : Writer) (accepted queue : List Envelope) (written : List Bytes) (e : Envelope)
      → Outbound j w accepted queue written
      → Outbound j w (accepted ++ e ∷ []) (queue ++ e ∷ []) written
  Outbound-accept Writer.ended accepted queue written e (lost, h) =
      (lost ++ frames j (e ∷ []), rw (frames-append j accepted (e ∷ []), h, append_assoc) refl)
  Outbound-accept waiting accepted queue written e h =
      rw (frames-append j accepted (e ∷ []), frames-append j queue (e ∷ []), h, append_assoc) refl
  Outbound-accept (writing b) accepted queue written e h =
      rw (frames-append j accepted (e ∷ []), frames-append j queue (e ∷ []), h, append_assoc) refl

  Outbound-take :
      (c : Coded Bytes) (accepted rest : List Envelope) (written : List Bytes)
      → frames j accepted ≡ written ++ (one c ++ frames j rest)
      → Outbound j (begin_write c) accepted rest written
  Outbound-take (Codec.Coded.ok b) accepted rest written h = h
  Outbound-take (Codec.Coded.err e) accepted rest written h = h

  SendStep-InOrder : {p q : Pumps} → SendStep p q → InOrder j p → InOrder j q
  unfolding begin_send set_sender enqueue
  SendStep-InOrder (SendStep.begin i e idle) o = record {
    outbound = o.outbound;
    inbound = o.inbound;
    bounded = o.bounded;
  }
  SendStep-InOrder {p} (SendStep.accept i e offered room) o = record {
    outbound = Outbound-accept p.writer p.accepted p.queue p.written e o.outbound;
    inbound = o.inbound;
    bounded = omega (arith, length-append p.queue (e ∷ []));
  }
  SendStep-InOrder (SendStep.refuse i e offered closed) o = record {
    outbound = o.outbound;
    inbound = o.inbound;
    bounded = o.bounded;
  }
  SendStep-InOrder (SendStep.give_up i e offered) o = record {
    outbound = o.outbound;
    inbound = o.inbound;
    bounded = o.bounded;
  }

  WriteStep-Outbound :
      {p q : Pumps}
      → WriteStep j p q
      → Outbound j p.writer p.accepted p.queue p.written
      → Outbound j q.writer q.accepted q.queue q.written
  unfolding close
  WriteStep-Outbound {p} (WriteStep.write_stops waits closed) o = (frames j p.queue, rw waits at o)
  WriteStep-Outbound {p} (WriteStep.takes e rest waits queued) o =
      Outbound-take (encode j e) p.accepted rest p.written (rw (waits, queued) at o)
  WriteStep-Outbound {p} (WriteStep.writes b busy) o =
      let h : frames j p.accepted ≡ p.written ++ b ∷ frames j p.queue = rw busy at o in
      rw (h, append_assoc) refl
  WriteStep-Outbound {p} (WriteStep.write_fails b why busy) o = (b ∷ frames j p.queue, rw busy at o)

  WriteStep-InOrder : {p q : Pumps} → WriteStep j p q → InOrder j p → InOrder j q
  unfolding close
  WriteStep-InOrder {p} (WriteStep.write_stops waits closed) o = record {
    outbound = WriteStep-Outbound {p = p} (WriteStep.write_stops waits closed) o.outbound;
    inbound = o.inbound;
    bounded = o.bounded;
  }
  WriteStep-InOrder {p} (WriteStep.takes e rest waits queued) o =
      let room : length (e ∷ rest) ≤ send_buffer = rw queued at o.bounded in
      record {
        outbound = WriteStep-Outbound {p = p} (WriteStep.takes e rest waits queued) o.outbound;
        inbound = o.inbound;
        bounded = omega arith;
      }
  WriteStep-InOrder {p} (WriteStep.writes b busy) o = record {
    outbound = WriteStep-Outbound {p = p} (WriteStep.writes b busy) o.outbound;
    inbound = o.inbound;
    bounded = o.bounded;
  }
  WriteStep-InOrder {p} (WriteStep.write_fails b why busy) o = record {
    outbound = WriteStep-Outbound {p = p} (WriteStep.write_fails b why busy) o.outbound;
    inbound = o.inbound;
    bounded = o.bounded;
  }

  pub decoded-append : (xs ys : List Bytes) → decoded j (xs ++ ys) ≡ decoded j xs ++ decoded j ys
  decoded-append [] ys = refl
  decoded-append (x ∷ xs) ys = rw (decoded-append xs ys, append_assoc) refl

  Inbound-frame :
      (c : Coded Envelope) (inbound : List Bytes) (received : List Envelope)
      → decoded j inbound ≡ received ++ decoded_one c
      → Inbound j (begin_delivery c) inbound received false
  Inbound-frame (Codec.Coded.ok e) inbound received h = (h, refl)
  Inbound-frame (Codec.Coded.err e) inbound received h = (h ∙ append-nil received, refl)

  ReadStep-Inbound :
      {p q : Pumps}
      → ReadStep j p q
      → Inbound j p.reader p.inbound p.received p.recv_closed
      → Inbound j q.reader q.inbound q.received q.recv_closed
  unfolding close end_reader
  ReadStep-Inbound {p} (ReadStep.read_fails why h) o =
      let now : (decoded j p.inbound ≡ p.received) × (p.recv_closed ≡ false) = rw h at o in
      (([], now.0 ∙ sym (append-nil p.received)), refl)
  ReadStep-Inbound (ReadStep.reads_binary h) o = o
  ReadStep-Inbound {p} (ReadStep.reads_frame b h) o =
      let now : (decoded j p.inbound ≡ p.received) × (p.recv_closed ≡ false) = rw h at o in
      rw now.1 (
        Inbound-frame (decode j b) (p.inbound ++ b ∷ []) p.received
          (decoded-append p.inbound (b ∷ []) ∙ rw (now.0, append-nil) refl))
  ReadStep-Inbound {p} (ReadStep.delivers e h) o =
      let now : (decoded j p.inbound ≡ p.received ++ e ∷ []) × (p.recv_closed ≡ false) =
        rw h at o in
      now
  ReadStep-Inbound {p} (ReadStep.read_stops e h closed) o =
      let now : (decoded j p.inbound ≡ p.received ++ e ∷ []) × (p.recv_closed ≡ false) =
        rw h at o in
      ((e ∷ [], now.0), refl)

  ReadStep-InOrder : {p q : Pumps} → ReadStep j p q → InOrder j p → InOrder j q
  unfolding close end_reader
  ReadStep-InOrder {p} (ReadStep.read_fails why h) o = record {
    outbound = o.outbound;
    inbound = ReadStep-Inbound {p = p} (ReadStep.read_fails why h) o.inbound;
    bounded = o.bounded;
  }
  ReadStep-InOrder (ReadStep.reads_binary h) o = o
  ReadStep-InOrder {p} (ReadStep.reads_frame b h) o = record {
    outbound = o.outbound;
    inbound = ReadStep-Inbound {p = p} (ReadStep.reads_frame b h) o.inbound;
    bounded = o.bounded;
  }
  ReadStep-InOrder {p} (ReadStep.delivers e h) o = record {
    outbound = o.outbound;
    inbound = ReadStep-Inbound {p = p} (ReadStep.delivers e h) o.inbound;
    bounded = o.bounded;
  }
  ReadStep-InOrder {p} (ReadStep.read_stops e h closed) o = record {
    outbound = o.outbound;
    inbound = ReadStep-Inbound {p = p} (ReadStep.read_stops e h closed) o.inbound;
    bounded = o.bounded;
  }

  Step-InOrder : {p q : Pumps} → Step j p q → InOrder j p → InOrder j q
  unfolding close
  Step-InOrder (Step.by_sender s) o = SendStep-InOrder s o
  Step-InOrder (Step.by_writer s) o = WriteStep-InOrder s o
  Step-InOrder (Step.by_reader s) o = ReadStep-InOrder s o
  Step-InOrder (Step.by_close why) o = record {
    outbound = o.outbound;
    inbound = o.inbound;
    bounded = o.bounded;
  }

  -- In every state that a connection reaches, whatever its callers, its two goroutines and Close do
  -- in whatever order: while the writer runs, the frames of the accepted envelopes are exactly those
  -- written, then the one being written, then those of the queue, in the order of acceptance, and
  -- those written are a first part of them after it has returned; while the reader runs, the
  -- envelopes received are all those of the frames read but the one being delivered, in order, and
  -- recvCh is closed exactly when it has returned; and the queue holds 64 envelopes at most.
  pub Reach-InOrder : {p : Pumps} → Reach j p → InOrder j p
  Reach-InOrder start = record { outbound = refl; inbound = (refl, refl); bounded = omega arith }
  Reach-InOrder (later r s) = Step-InOrder s (Reach-InOrder r)
