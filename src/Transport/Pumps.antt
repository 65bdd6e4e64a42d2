-- ===== src/Transport/Pumps.antt =====
-- internal/transport/pump.go: the goroutines of a connection. Any number of callers are in Send, one
-- goroutine writes to the websocket and one reads from it; each constructor of a step relation is
-- what one of them does between two points where another may run.
pub mod Link
pub mod Order
pub mod Drain
pub mod EndToEnd
pub mod Single
pub mod Alone
use sit.Prelude.{
  ℕ, ◌<◌, ◌≡◌, Text, text, Bool, true, false, List, [], ◌∷◌, ◌++◌, length, take, ltb, nat_eq,
  if◌then◌else◌,
}
use sit.Exec.{Result, ok, err, conn_closed, cancelled}
use sit.Protocol.{Bytes, Envelope, Json}
use sit.Protocol.Codec
use sit.Protocol.Codec.{Coded, encode, decode}

abbrev pub send_buffer : ℕ
send_buffer = 64

-- One call of Send: not begun, past its first select, or returned.
pub data Sender : Type 0 where
  idle : Sender
  offering : Envelope → Sender
  returned : Result (Unit {0}) → Sender

-- in its select, in ws.Write, or returned
pub data Writer : Type 0 where
  waiting : Writer
  writing : Bytes → Writer
  ended : Writer

-- in ws.Read, in its select, or returned
pub data Reader : Type 0 where
  reading : Reader
  delivering : Envelope → Reader
  ended : Reader

-- `accepted`, `written`, `inbound` and `received` are histories: what went into sendCh, what ws.Write
-- has sent, the text frames that ws.Read has given, and what came out of recvCh.
pub record Pumps : Type 0 where
  pub is_open : Bool  -- `done` is not closed
  pub reason : Text
  pub queue : List Envelope  -- sendCh
  pub recv_closed : Bool
  pub senders : ℕ → Sender
  pub writer : Writer
  pub reader : Reader
  pub accepted : List Envelope
  pub written : List Bytes
  pub inbound : List Bytes
  pub received : List Envelope

abbrev pub new_pumps : Pumps
new_pumps = record {
  is_open = true;
  reason = [];
  queue = [];
  recv_closed = false;
  senders = λ _. Sender.idle;
  writer = waiting;
  reader = reading;
  accepted = [];
  written = [];
  inbound = [];
  received = [];
}

-- `s[:120]` on the bytes of the reason
unfoldable pub truncate_reason : Text → Text
truncate_reason s = if ltb 120 (length s) then take 120 s else s

-- Close: the first call closes `done`, and the websocket with its reason; later calls do nothing.
unfoldable pub close : Text → Pumps → Pumps
close reason p = record p {
  is_open = false;
  reason = if p.is_open then truncate_reason reason else p.reason;
}

unfoldable pub set_sender : ℕ → Sender → Pumps → Pumps
set_sender i s p = record p { senders = λ j. if nat_eq i j then s else p.senders j }

-- the first select of Send
unfoldable pub begin_send : ℕ → Envelope → Pumps → Pumps
begin_send i e p = set_sender i (if p.is_open then offering e else returned (err conn_closed)) p

-- `c.sendCh <- e`
unfoldable pub enqueue : ℕ → Envelope → Pumps → Pumps
enqueue i e p = record (set_sender i (returned (ok tt)) p) {
  queue = p.queue ++ e ∷ [];
  accepted = p.accepted ++ e ∷ [];
}

-- A frame that cannot be encoded is skipped.
abbrev pub begin_write : Coded Bytes → Writer
begin_write (Codec.Coded.ok b) = writing b
begin_write (Codec.Coded.err e) = waiting

-- A frame that cannot be decoded is dropped.
abbrev pub begin_delivery : Coded Envelope → Reader
begin_delivery (Codec.Coded.ok e) = delivering e
begin_delivery (Codec.Coded.err e) = reading

-- `return` of the reader, which closes recvCh
unfoldable pub end_reader : Pumps → Pumps
end_reader p = record p { reader = Reader.ended; recv_closed = true }

-- What a caller of Send does. The second select takes any of its ready cases.
pub data SendStep (p : Pumps) : Pumps → Type 0 where
  begin : (i : ℕ) (e : Envelope) → p.senders i ≡ Sender.idle → SendStep p (begin_send i e p)
  accept :
      (i : ℕ) (e : Envelope)
      → p.senders i ≡ offering e
      → length p.queue < send_buffer
      → SendStep p (enqueue i e p)
  refuse :
      (i : ℕ) (e : Envelope)
      → p.senders i ≡ offering e
      → p.is_open ≡ false
      → SendStep p (set_sender i (returned (err conn_closed)) p)
  give_up :
      (i : ℕ) (e : Envelope)
      → p.senders i ≡ offering e
      → SendStep p (set_sender i (returned (err cancelled)) p)

module _ (j : Json) where
  -- writePump
  pub data WriteStep (p : Pumps) : Pumps → Type 0 where
    write_stops :
        p.writer ≡ waiting → p.is_open ≡ false → WriteStep p (record p { writer = Writer.ended })
    takes :
        (e : Envelope) (rest : List Envelope)
        → p.writer ≡ waiting
        → p.queue ≡ e ∷ rest
        → WriteStep p (record p { queue = rest; writer = begin_write (encode j e) })
    writes :
        (b : Bytes)
        → p.writer ≡ writing b
        → WriteStep p (record p { writer = waiting; written = p.written ++ b ∷ [] })
    write_fails :
        (b : Bytes) (why : Text)
        → p.writer ≡ writing b
        → WriteStep p (record (close (text "write error: " ++ why) p) { writer = Writer.ended })

  -- readPump
  pub data ReadStep (p : Pumps) : Pumps → Type 0 where
    read_fails :
        (why : Text)
        → p.reader ≡ reading
        → ReadStep p (end_reader (close (text "read error: " ++ why) p))
    reads_binary : p.reader ≡ reading → ReadStep p p
    reads_frame :
        (b : Bytes)
        → p.reader ≡ reading
        → ReadStep p
            (record p { reader = begin_delivery (decode j b); inbound = p.inbound ++ b ∷ [] })
    delivers :
        (e : Envelope)
        → p.reader ≡ delivering e
        → ReadStep p (record p { reader = reading; received = p.received ++ e ∷ [] })
    read_stops :
        (e : Envelope) → p.reader ≡ delivering e → p.is_open ≡ false → ReadStep p (end_reader p)

  pub data Step (p : Pumps) : Pumps → Type 0 where
    by_sender : {q : Pumps} → SendStep p q → Step p q
    by_writer : {q : Pumps} → WriteStep p q → Step p q
    by_reader : {q : Pumps} → ReadStep p q → Step p q
    by_close : (why : Text) → Step p (close why p)

  pub data Reach : Pumps → Type 0 where
    start : Reach new_pumps
    later : {p q : Pumps} → Reach p → Step p q → Reach q
