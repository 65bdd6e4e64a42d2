-- ===== src/Transport/Pumps/Link.antt =====
-- What internal/transport/pump.go promises of its outbound side: a link that delivers in order and
-- loses nothing, until it is cut once.
use sit.Prelude.{◌≡◌, refl, ◌⊎◌, inl, inr, Bool, true, false, List, [], ◌∷◌, ◌++◌, sym}
use mathlib.Core.List.{append_assoc, append-nil}
use sit.Protocol.{Bytes, Envelope, Json}
use sit.Protocol.Codec
use sit.Protocol.Codec.{Coded, encode, decode}
use sit.Transport.Pumps.{
  Pumps, Writer, waiting, writing, SendStep, WriteStep, ReadStep, Step, begin_write, enqueue,
  set_sender, close, end_reader, begin_send,
}

pub record Link : Type 0 where
  pub alive : Bool
  pub on_the_way : List Bytes
  pub arrived : List Bytes

pub data LinkStep (l : Link) : Link → Type 0 where
  put : (b : Bytes) → l.alive ≡ true → LinkStep l (record l { on_the_way = l.on_the_way ++ b ∷ [] })
  arrive :
      (b : Bytes) (rest : List Bytes)
      → l.on_the_way ≡ b ∷ rest
      → LinkStep l (record l { on_the_way = rest; arrived = l.arrived ++ b ∷ [] })
  cut : LinkStep l (record l { alive = false; on_the_way = [] })

abbrev pub one : Coded Bytes → List Bytes
one (Codec.Coded.ok b) = b ∷ []
one (Codec.Coded.err e) = []

-- the frames of the envelopes that can be encoded
abbrev pub frames : Json → List Envelope → List Bytes
frames j [] = []
frames j (e ∷ es) = one (encode j e) ++ frames j es

-- what the writer holds
abbrev pub held : Writer → List Bytes
held (writing b) = b ∷ []
held _ = []

abbrev pub is_alive : Writer → Bool
is_alive Writer.ended = false
is_alive _ = true

abbrev transit : Json → Writer → List Envelope → List Bytes
transit j Writer.ended es = []
transit j waiting es = frames j es
transit j (writing b) es = b ∷ frames j es

abbrev view_of : Json → Writer → List Envelope → List Bytes → Link
view_of j w queue written = record {
  alive = is_alive w;
  on_the_way = transit j w queue;
  arrived = written;
}

-- The link that the state of a connection stands for.
abbrev pub view : Json → Pumps → Link
view j p = view_of j p.writer p.queue p.written

pub frames-append :
    (j : Json) (xs ys : List Envelope) → frames j (xs ++ ys) ≡ frames j xs ++ frames j ys
frames-append j [] ys = refl
frames-append j (x ∷ xs) ys = rw (frames-append j xs ys, append_assoc) refl

abbrev pub Moves : Link → Link → Type 0
Moves l l' = (l ≡ l') ⊎ LinkStep l l'

module _ (j : Json) where
  transit-put :
      (w : Writer) (es : List Envelope) (e : Envelope)
      → is_alive w ≡ true
      → transit j w (es ++ e ∷ []) ≡ transit j w es ++ one (encode j e)
  transit-put Writer.ended es e h = cc
  transit-put waiting es e h = rw (frames-append j es (e ∷ []), append-nil) refl
  transit-put (writing b) es e h = rw (frames-append j es (e ∷ []), append-nil) refl

  Moves-put_one :
      (w : Writer) (es : List Envelope) (written : List Bytes) (c : Coded Bytes)
      → is_alive w ≡ true
      → Moves
          (view_of j w es written)
          (record (view_of j w es written) { on_the_way = transit j w es ++ one c })
  Moves-put_one w es written (Codec.Coded.ok b) h = inr (put b h)
  Moves-put_one w es written (Codec.Coded.err e) h = inl (rw append-nil refl)

  Moves-put :
      (w : Writer) (es : List Envelope) (written : List Bytes) (e : Envelope)
      → Moves (view_of j w es written) (view_of j w (es ++ e ∷ []) written)
  Moves-put Writer.ended es written e = inl refl
  Moves-put waiting es written e =
      rw (transit-put waiting es e refl) (Moves-put_one waiting es written (encode j e) refl)
  Moves-put (writing b) es written e =
      rw (transit-put (writing b) es e refl)
        (Moves-put_one (writing b) es written (encode j e) refl)

  SendStep-Moves : {p q : Pumps} → SendStep p q → Moves (view j p) (view j q)
  unfolding begin_send enqueue set_sender
  SendStep-Moves (SendStep.begin i e idle) = inl refl
  SendStep-Moves {p} (SendStep.accept i e offered room) = Moves-put p.writer p.queue p.written e
  SendStep-Moves (SendStep.refuse i e offered closed) = inl refl
  SendStep-Moves (SendStep.give_up i e offered) = inl refl

  Moves-take :
      (c : Coded Bytes) (rest : List Envelope) (written : List Bytes)
      → view_of j (begin_write c) rest written
        ≡ record { alive = true; on_the_way = one c ++ frames j rest; arrived = written }
  Moves-take (Codec.Coded.ok b) rest written = refl
  Moves-take (Codec.Coded.err e) rest written = refl

  WriteStep-Moves : {p q : Pumps} → WriteStep j p q → Moves (view j p) (view j q)
  unfolding close
  WriteStep-Moves (WriteStep.write_stops waits closed) = inr cut
  WriteStep-Moves {p} (WriteStep.takes e rest waits queued) =
      inl (rw (waits, queued, Moves-take (encode j e) rest p.written) refl)
  WriteStep-Moves {p} (WriteStep.writes b busy) = inr (rw busy (arrive b (frames j p.queue) refl))
  WriteStep-Moves {p} (WriteStep.write_fails b why busy) = inr cut

  ReadStep-view : {p q : Pumps} → ReadStep j p q → view j q ≡ view j p
  unfolding close end_reader
  ReadStep-view (ReadStep.read_fails why h) = refl
  ReadStep-view (ReadStep.reads_binary h) = refl
  ReadStep-view (ReadStep.reads_frame b h) = refl
  ReadStep-view (ReadStep.delivers e h) = refl
  ReadStep-view (ReadStep.read_stops e h closed) = refl

  -- Every step of a connection either leaves its outbound link as it is or is one step of the link:
  -- a frame is put behind those on the way, the first of these arrives, or the link is cut.
  pub Step-Moves : {p q : Pumps} → Step j p q → Moves (view j p) (view j q)
  unfolding close
  Step-Moves (Step.by_sender s) = SendStep-Moves s
  Step-Moves (Step.by_writer s) = WriteStep-Moves s
  Step-Moves (Step.by_reader s) = inl (sym (ReadStep-view s))
  Step-Moves (Step.by_close why) = inl refl
