-- ===== src/Node/Client.antt =====
-- internal/node/client.go: one connected session of a node. A panic of mustEnvelope is `none`.
pub mod Answers
use sit.Prelude.{
  ℕ, ◌+◌, ◌*◌, nat_eq, if◌then◌else◌, Text, text, Bool, Option, none, some, List, [], ◌∷◌,
}
use sit.Exec.{Result, ok, err, cancelled}
use sit.Protocol
use sit.Protocol.{Instruction, Notification, MessageType, Envelope, Json}
use sit.Protocol.Codec
use sit.Protocol.Codec.{Coded, new_ack, new_notification, as_instruction}
use sit.Transport.{Conn, close, send}
use sit.Transport.Backoff.{second}
use sit.Node.Config.{default_heartbeat_sec}
use sit.Node.Executor.{Host, Executor, execute}

-- What comes from outside: the ids drawn, the readings of the clock, and which sends the context
-- ends.
pub record Outside : Type 0 where
  pub id : ℕ → Text
  pub clock : ℕ → ℕ
  pub ends : ℕ → Bool

-- The places reached in the streams stand beside the fields of the Client.
pub record Client : Type 0 where
  pub conn : Conn
  pub executor : Executor
  pub ids : ℕ
  pub readings : ℕ
  pub sends : ℕ

-- NewClient: a period that is not positive becomes 30 seconds, in nanoseconds.
unfoldable pub session_period : ℕ → ℕ
session_period heartbeat = if nat_eq heartbeat 0 then default_heartbeat_sec * second else heartbeat

-- What the select of Serve takes: the reporter's heartbeat on a tick, a frame, or an end.
pub data Event : Type 0 where
  tick : Notification → Event
  frame : Envelope → Event
  conn_done context_done : Event

module _ (o : Outside) where
  unfoldable pub transmit : Envelope → Client → Result (Unit {0}) × Client
  transmit env c =
      let (r, conn) = send (o.ends c.sends) env c.conn in
      (r, record c { conn = conn; sends = c.sends + 1 })

  -- An envelope takes an id and a reading of the clock.
  abbrev drawn : Client → Client
  drawn c = record c { ids = c.ids + 1; readings = c.readings + 1 }

  -- send(mustEnvelope(...))
  abbrev must_send : Coded Envelope → Client → Option (Result (Unit {0}) × Client)
  must_send (Coded.ok env) c = some (transmit env (drawn c))
  must_send (Coded.err e) c = none

  module _ (j : Json) where
    unfoldable pub notify : Notification → Client → Option (Result (Unit {0}) × Client)
    notify n c = must_send (new_notification j (o.id c.ids) (o.clock c.readings) n) c

    unfoldable pub acknowledge : Text → Client → Option (Result (Unit {0}) × Client)
    acknowledge ref_id c = must_send (new_ack j (o.id c.ids) (o.clock c.readings) ref_id) c

    -- The result is sent if it can be marshalled.
    abbrev sent_result : Coded Envelope → Client → Client
    sent_result (Coded.ok env) c = (transmit env (drawn c)).1
    sent_result (Coded.err e) c = c

    unfoldable pub report : Notification → Client → Client
    report n c = sent_result (new_notification j (o.id c.ids) (o.clock c.readings) n) c

    module _ (h : Host) where
      -- A reading of the clock is taken for the deadline, also where there is none.
      unfoldable pub run : Text → Instruction → Client → Client
      run id i c =
          let (res, e) = execute h (o.clock c.readings) id i c.executor in
          report res (record c { executor = e; readings = c.readings + 1 })

      after_ack : Text → Instruction → Option (Result (Unit {0}) × Client) → Option Client
      after_ack id i none = none
      after_ack id i (some (r, c)) = some (run id i c)

      handle_instruction : Text → Coded Instruction → Client → Option Client
      unfolding after_ack
      handle_instruction id (Coded.ok i) c = after_ack id i (acknowledge id c)
      handle_instruction id (Coded.err e) c = some c

      handle_typed : MessageType → Envelope → Client → Option Client
      unfolding handle_instruction
      handle_typed MessageType.instruction env c =
          handle_instruction env.id (as_instruction j env) c
      handle_typed _ env c = some c

      unfoldable pub handle_frame : Envelope → Client → Option Client
      unfolding handle_typed
      handle_frame env c = handle_typed env.type env c

      abbrev after_tick : Option (Result (Unit {0}) × Client) → Option Client
      after_tick none = none
      after_tick (some (r, c)) = some c

      -- The loop of Serve, on the events in the order in which it takes them, the receive channel
      -- being closed after the last.
      unfoldable pub serve_loop : List Event → Client → Option (Result (Unit {0}) × Client)
      serve_loop [] c = some (ok tt, c)
      serve_loop (tick n ∷ events) c = elim (after_tick (notify n c)) [
        | none ↦ none
        | some c' ↦ serve_loop events c'
      ]
      serve_loop (frame env ∷ events) c = elim (handle_frame env c) [
        | none ↦ none
        | some c' ↦ serve_loop events c'
      ]
      serve_loop (conn_done ∷ events) c = some (ok tt, c)
      serve_loop (context_done ∷ events) c =
          some (err cancelled, record c { conn = close (text "context cancelled") c.conn })

      announced :
          Notification
          → List Event
          → Option (Result (Unit {0}) × Client)
          → Option (Result (Unit {0}) × Client)
      announced online events none = none
      announced online events (some (err e, c)) = some (err e, c)
      announced online events (some (ok u, c)) = elim (after_tick (notify online c)) [
        | none ↦ none
        | some c' ↦ serve_loop events c'
      ]

      -- Serve: the registration, whose error ends the session, the event "online", and the loop.
      unfoldable pub serve :
          Notification → Notification → List Event → Client → Option (Result (Unit {0}) × Client)
      unfolding announced
      serve register online events c = announced online events (notify register c)
