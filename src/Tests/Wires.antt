-- ===== src/Tests/Wires.antt =====
-- A connection with one call of Send: pump.go.
use sit.Prelude.{◌≤◌, ◌≡◌, List, ◌∷◌, ◌++◌, [], ◌↔◌, text, refl, some, arith}
use sit.Protocol.{Json, Envelope, MessageType}
use sit.Transport.Pumps.{
  Pumps, new_pumps, begin_send, enqueue, set_sender, SendStep, Step, Reach, start, later,
}
use sit.Transport.Pumps.Link.{view, Moves, Step-Moves}
use sit.Transport.Pumps.Order.{InOrder, Reach-InOrder}
use sit.Exec.{ok}
use sit.Protocol.Codec.{Coded, encode, decode}
use sit.Transport.{Conn, SessionInfo}
use sit.Transport.Pumps.{WriteStep, ReadStep, writing, waiting, reading, delivering}
use sit.Transport.Pumps.Single.{conn_of, ByPumps, AsOneStep, send_iff}
use sit.Transport.Pumps.EndToEnd.{IsFaithful, sendable, received_in_order}
use sit.Transport.Pumps.Alone.{Alone, rests, goes_on, AtRest, IsOver, Alone-IsOver}
use sit.Tests.Fixtures.{json}

abbrev wire : Json
wire = record json { envelope_bytes = λ e. some (e.payload) }

abbrev hello : Envelope
hello = record { v = 1; type = MessageType.ack; id = text "e1"; ts = 5; payload = text "hi" }

abbrev begun : Pumps
begun = begin_send 0 hello new_pumps

abbrev queued : Pumps
queued = enqueue 0 hello begun

queued-Step : Step wire begun queued
unfolding begin_send set_sender
queued-Step = Step.by_sender (SendStep.accept 0 hello refl (omega arith))

queued-Reach : Reach wire queued
queued-Reach = later (later start (Step.by_sender (SendStep.begin 0 hello refl))) queued-Step

Step-Moves_example : Moves (view wire begun) (view wire queued)
Step-Moves_example = Step-Moves wire queued-Step

Reach-InOrder_example : InOrder wire queued
Reach-InOrder_example = Reach-InOrder wire queued-Reach

abbrev info : SessionInfo
info = record { node_id = text "n1"; remote_addr = text "10.0.0.2"; connected_at = 5 }

abbrev open_conn : Conn
open_conn = record (conn_of info new_pumps) { accepted = hello ∷ [] }

send_iff_example :
    ByPumps info 0 hello new_pumps (ok tt) open_conn
    ↔ AsOneStep info 0 hello new_pumps (ok tt) open_conn
send_iff_example = send_iff info 0 hello new_pumps (ok tt) open_conn (omega arith)

-- the peer has read the frame of the one envelope
abbrev link : Json
link = record wire { envelope_of = λ b. some hello }

abbrev sent : Pumps
sent = enqueue 0 hello begun

abbrev taken : Pumps
taken = record sent { queue = []; writer = writing hello.payload }

abbrev written : Pumps
written = record taken { writer = waiting; written = hello.payload ∷ [] }

encoded : encode link hello ≡ Coded.ok hello.payload
unfolding encode
encoded = refl

sent-Reach : Reach link sent
unfolding begin_send set_sender
sent-Reach =
    later (later start (Step.by_sender (SendStep.begin 0 hello refl)))
      (Step.by_sender (SendStep.accept 0 hello refl (omega arith)))

written-Reach : Reach link written
unfolding encode enqueue begin_send set_sender
written-Reach =
    later (later sent-Reach (Step.by_writer (WriteStep.takes hello [] refl refl)))
      (Step.by_writer (WriteStep.writes hello.payload refl))

abbrev peer : Pumps
peer = record new_pumps { reader = delivering hello; inbound = hello.payload ∷ [] }

abbrev received : Pumps
received = record peer { reader = reading; received = hello ∷ [] }

received-Reach : Reach link received
unfolding decode
received-Reach =
    later (later start (Step.by_reader (ReadStep.reads_frame hello.payload refl)))
      (Step.by_reader (ReadStep.delivers hello refl))

hello-IsFaithful : IsFaithful link hello
hello-IsFaithful = (refl, λ b h. refl)

received_in_order_example :
    (missing : List Envelope) × (sendable link (hello ∷ []) ≡ (hello ∷ []) ++ missing)
unfolding enqueue begin_send set_sender
received_in_order_example =
    received_in_order link written-Reach received-Reach [] refl (hello-IsFaithful, tt)

written-Alone : Alone link sent 2 written
unfolding encode enqueue begin_send set_sender
written-Alone =
    goes_on (goes_on rests (WriteStep.takes hello [] refl refl))
      (WriteStep.writes hello.payload refl)

written-AtRest : AtRest link written
unfolding enqueue begin_send set_sender
written-AtRest p (WriteStep.write_stops waits closed) = cc
written-AtRest p (WriteStep.takes e rest waits queued) = cc
written-AtRest p (WriteStep.writes b busy) = cc
written-AtRest p (WriteStep.write_fails b why busy) = cc

Alone-IsOver_example : (2 ≤ 130) × IsOver link sent.accepted written
Alone-IsOver_example = Alone-IsOver link sent-Reach written-Alone written-AtRest
