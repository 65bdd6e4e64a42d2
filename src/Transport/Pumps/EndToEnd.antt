-- ===== src/Transport/Pumps/EndToEnd.antt =====
-- Two connections of internal/transport/pump.go, joined by a network that delivers what is written in
-- order.
use sit.Prelude.{◌≡◌, refl, Bool, List, [], ◌∷◌, ◌++◌, All, ap, sym, ◌∙◌}
use mathlib.Core.List.{append_assoc, append-nil}
use sit.Protocol.{Bytes, Envelope, Json}
use sit.Protocol.Codec
use sit.Protocol.Codec.{Coded, encode, decode}
use sit.Protocol.Codec.RoundTrip.{ReadsBack, decode-encode}
use sit.Transport.Pumps.{Pumps, Writer, waiting, writing, Reader, reading, delivering, Reach}
use sit.Transport.Pumps.Link.{frames, one}
use sit.Transport.Pumps.Order.{Outbound, Inbound, decoded, decoded-append, Reach-InOrder}

abbrev if_coded : Coded Bytes → Envelope → List Envelope
if_coded (Codec.Coded.ok b) e = e ∷ []
if_coded (Codec.Coded.err x) e = []

-- the envelopes that can be encoded
abbrev pub sendable : Json → List Envelope → List Envelope
sendable j [] = []
sendable j (e ∷ es) = if_coded (encode j e) e ++ sendable j es

-- of this version, and read back from what encoding/json writes of it
abbrev pub IsFaithful : Json → Envelope → Type 0
IsFaithful j e = (e.v ≡ 1) × ReadsBack j e

module _ (j : Json) where
  decoded-one :
      (e : Envelope) (c : Coded Bytes)
      → IsFaithful j e
      → encode j e ≡ c
      → decoded j (one c) ≡ if_coded c e
  decoded-one e (Codec.Coded.ok b) v h = rw (decode-encode j e b v.1 v.0 h) refl
  decoded-one e (Codec.Coded.err x) v h = refl

  decoded-frames :
      (es : List Envelope) → All (IsFaithful j) es → decoded j (frames j es) ≡ sendable j es
  decoded-frames [] h = refl
  decoded-frames (e ∷ es) h =
      decoded-append j (one (encode j e)) (frames j es)
      ∙ rw (decoded-one e (encode j e) h.0 refl, decoded-frames es h.1) refl

  written_first :
      (w : Writer) (accepted queue : List Envelope) (written : List Bytes)
      → Outbound j w accepted queue written
      → (rest : List Bytes) × (frames j accepted ≡ written ++ rest)
  written_first Writer.ended accepted queue written o = o
  written_first waiting accepted queue written o = (frames j queue, o)
  written_first (writing b) accepted queue written o = (b ∷ frames j queue, o)

  received_first :
      (r : Reader) (inbound : List Bytes) (received : List Envelope) (closed : Bool)
      → Inbound j r inbound received closed
      → (rest : List Envelope) × (decoded j inbound ≡ received ++ rest)
  received_first Reader.ended inbound received closed i = i.0
  received_first reading inbound received closed i = ([], i.0 ∙ sym (append-nil received))
  received_first (delivering e) inbound received closed i = (e ∷ [], i.0)

  -- In all states that two ends reach, where what one end has written arrives at the other in order,
  -- as far as it has arrived, and every envelope that Send accepted is of this protocol's version and
  -- is read back by encoding/json from what it writes: the envelopes that have come out of the other
  -- end's Recv are a first part of those accepted ones that can be encoded, in their order and once
  -- each.
  pub received_in_order :
      {a b : Pumps}
      → Reach j a
      → Reach j b
      → (unread : List Bytes) → a.written ≡ b.inbound ++ unread
      → All (IsFaithful j) a.accepted
      → (missing : List Envelope) × (sendable j a.accepted ≡ b.received ++ missing)
  received_in_order {a} {b} ra rb unread network v =
      let (rest, sent) =
        written_first a.writer a.accepted a.queue a.written (Reach-InOrder j ra).outbound in
      let (kept, got) =
        received_first b.reader b.inbound b.received b.recv_closed (Reach-InOrder j rb).inbound in
      let later : List Envelope = kept ++ decoded j (unread ++ rest) in
      (
        later,
        sym (decoded-frames a.accepted v)
            ∙ ap (decoded j) (sent ∙ rw (network, append_assoc) refl)
            ∙ decoded-append j b.inbound (unread ++ rest)
            ∙ rw (got, append_assoc) refl,
      )
