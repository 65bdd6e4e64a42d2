-- ===== src/Node/Client/Answers.antt =====
-- handleFrame of internal/node/client.go and the frames that it sends.
use sit.Prelude.{ℕ, ◌+◌, Text, ◌≡◌, refl, true, false, Option, some, [], ◌∷◌, ◌++◌, ◌∙◌, ap}
use mathlib.Core.List.{append_assoc}
use sit.Exec.{ok}
use sit.Protocol.{Notification, Instruction, MessageType, Envelope, Json, Bytes, protocol_version}
use sit.Protocol.Codec.{Coded, new_ack, new_notification, as_instruction, as_ack, as_notification}
use sit.Transport
use sit.Transport.{Conn}
use sit.Window.Laws.{IsWindow}
use sit.Node.Executor.{Host, execute, dedup_window}
use sit.Node.Executor.Once.{execute-IsWindow}
use sit.Node.Executor.Limits.{IsAnswer, AllAnswer, execute_answers}
use sit.Node.Client.{
  Outside, Client, transmit, acknowledge, report, run, handle_instruction, after_ack, handle_frame,
}

-- The ack of this id and this notification can be marshalled, and are read back as they were.
pub record Marshals (j : Json) (id : Text) (n : Notification) : Type 0 where
  pub ack_raw : Bytes
  pub ack_bytes : j.ack_bytes (record { ref_id = id }) ≡ some ack_raw
  pub ack_of : j.ack_of ack_raw ≡ some (record { ref_id = id })
  pub result_raw : Bytes
  pub result_bytes : j.notification_bytes n ≡ some result_raw
  pub result_of : j.notification_of result_raw ≡ some n

-- The session can send: its connection is open and the context lives.
pub record CanSend (o : Outside) (c : Client) : Type 0 where
  pub is_open : c.conn.is_open ≡ true
  pub lives : (k : ℕ) → o.ends k ≡ false

abbrev sent : Envelope → Client → Client
sent env c = record c {
  conn = record c.conn { accepted = c.conn.accepted ++ env ∷ [] };
  sends = c.sends + 1;
}

transmit_open :
    (o : Outside) (env : Envelope) (c : Client)
    → CanSend o c
    → transmit o env c ≡ (ok tt, sent env c)
unfolding transmit Transport.send
transmit_open o env c h = rw (h.is_open, h.lives c.sends) refl

abbrev envelope : MessageType → Outside → Client → Bytes → Envelope
envelope typ o c raw = record {
  v = protocol_version;
  type = typ;
  id = o.id c.ids;
  ts = o.clock c.readings;
  payload = raw;
}

abbrev drew : Client → Client
drew c = record c { ids = c.ids + 1; readings = c.readings + 1 }

acknowledge_open :
    (o : Outside) (j : Json) (id : Text) (c : Client) (raw : Bytes)
    → CanSend o c
    → j.ack_bytes (record { ref_id = id }) ≡ some raw
    → acknowledge o j id c ≡ some (ok tt, sent (envelope MessageType.ack o c raw) (drew c))
unfolding acknowledge new_ack
acknowledge_open o j id c raw h e = rw e (
    ap some (
      transmit_open o (envelope MessageType.ack o c raw) (drew c)
        (record { is_open = h.is_open; lives = h.lives })))

report_open :
    (o : Outside) (j : Json) (n : Notification) (c : Client) (raw : Bytes)
    → CanSend o c
    → j.notification_bytes n ≡ some raw
    → report o j n c ≡ sent (envelope MessageType.notification o c raw) (drew c)
unfolding report new_notification
report_open o j n c raw h e = rw e (
    ap (λ p. p.1)
      (transmit_open o (envelope MessageType.notification o c raw) (drew c)
        (record { is_open = h.is_open; lives = h.lives })))

-- What one instruction frame has led to.
pub record Answered (j : Json) (id : Text) (c : Client) (after : Option Client) : Type 0 where
  pub client : Client
  pub returns : after ≡ some client
  pub ack : Envelope
  pub reply : Envelope
  pub result : Notification
  pub frames : client.conn.accepted ≡ c.conn.accepted ++ ack ∷ reply ∷ []
  pub acks : as_ack j ack ≡ Coded.ok (record { ref_id = id })
  pub replies : as_notification j reply ≡ Coded.ok result
  pub answers : IsAnswer id result
  pub keeps : AllAnswer client.executor.window
  pub keeps_window : IsWindow dedup_window client.executor.window

instruction_frame :
    (o : Outside) (j : Json) (h : Host) (env : Envelope) (i : Instruction) (c : Client)
    → env.type ≡ MessageType.instruction
    → j.instruction_of env.payload ≡ some i
    → handle_frame o j h env c ≡ after_ack o j h env.id i (acknowledge o j env.id c)
unfolding handle_frame handle_instruction as_instruction
instruction_frame o j h env i c t d = rw (t, d) refl

-- An instruction frame that can be decoded is answered with two frames in this order: an ack of its
-- id, and a notification with a result for its id, whatever the instruction is. This holds where the
-- connection is open, the context alive, the two frames can be marshalled and read back, and the
-- executor's memory is in order: a window of at most 1024 ids, in the order of their arrival, that
-- holds results for them. It is in order again afterwards.
pub handle_frame_answers :
    (o : Outside) (j : Json) (h : Host) (env : Envelope) (i : Instruction) (c : Client)
    → Marshals j env.id (execute h (o.clock (c.readings + 1)) env.id i c.executor).0
    → CanSend o c
    → IsWindow dedup_window c.executor.window
    → AllAnswer c.executor.window
    → env.type ≡ MessageType.instruction
    → j.instruction_of env.payload ≡ some i
    → Answered j env.id c (handle_frame o j h env c)
unfolding after_ack run as_ack as_notification
handle_frame_answers o j h env i c ms s w a t d =
    let ack_env = envelope MessageType.ack o c ms.ack_raw in
    let c1 = sent ack_env (drew c) in
    let done = execute h (o.clock c1.readings) env.id i c1.executor in
    let c2 = record c1 { executor = done.1; readings = c1.readings + 1 } in
    let reply_env = envelope MessageType.notification o c2 ms.result_raw in
    let answer = execute_answers h (o.clock c1.readings) env.id i c1.executor w a in
    record {
      client = sent reply_env (drew c2);
      returns =
          instruction_frame o j h env i c t d
          ∙ ap (after_ack o j h env.id i) (acknowledge_open o j env.id c ms.ack_raw s ms.ack_bytes)
          ∙ ap some (
              report_open o j done.0 c2 ms.result_raw
                (record { is_open = s.is_open; lives = s.lives }) ms.result_bytes);
      ack = ack_env;
      reply = reply_env;
      result = done.0;
      frames = append_assoc c.conn.accepted (ack_env ∷ []) (reply_env ∷ []);
      acks = rw (ms.ack_of) refl;
      replies = rw (ms.result_of) refl;
      answers = answer.0;
      keeps = answer.1;
      keeps_window = execute-IsWindow h (o.clock c1.readings) env.id i c1.executor w;
    }
