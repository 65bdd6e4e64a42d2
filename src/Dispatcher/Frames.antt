-- ===== src/Dispatcher/Frames.antt =====
-- The send method of internal/manager/dispatcher.go and the frames of a connection.
use sit.Prelude.{
  ℕ, Text, ◌≡◌, refl, true, false, some, List, [], ◌∷◌, ◌++◌, arith, nat_eq, ap, ◌∙◌, sym,
}
use mathlib.Core.List.{append_assoc, append-nil, map, map-append}
use sit.Exec.{ok, Exec, ◌>>=◌}
use sit.Protocol.{protocol_version, MessageType, Instruction, Envelope, Json, Bytes}
use sit.Protocol.Codec.{new_instruction}
use sit.Store.{Db}
use sit.Store.Models.{Task, sent}
use sit.Store.Tasks.{update_task_state}
use sit.Registry.{conn_of}
use sit.Transport
use sit.Transport.{Conn, Conns, set_conn}
use sit.Manager.{Manager, now_millis, new_id, query, send_on}
use sit.Dispatcher.{
  instruction_of_task, instruction_envelope, drawn, coded, send_frame, mark_sent, send,
}

-- The ids of the frames that a connection has accepted, in order.
abbrev pub accepted_ids : ℕ → Manager → List Text
accepted_ids i m = map (λ (e : Envelope). e.id) (m.registry.conns i).accepted

-- The node's session is on an open connection, and neither the database nor the network fails.
pub record IsOnline (node_id : Text) (i : ℕ) (m : Manager) : Type 0 where
  pub conn : conn_of node_id m.registry ≡ some i
  pub is_open : (m.registry.conns i).is_open ≡ true
  pub works : (k : ℕ) → m.world.fails k ≡ false

-- Every instruction can be marshalled.
abbrev pub Marshals : Json → Type 0
Marshals j = (p : Instruction) → (raw : Bytes) × (j.instruction_bytes p ≡ some raw)

-- An action that has sent frames with these ids, and leaves the node online.
pub record Sends (node_id : Text) (i : ℕ) (m : Manager) (ids : List Text) (m' : Manager)
    : Type 0 where
  pub same_conn : conn_of node_id m'.registry ≡ some i
  pub still_open : (m'.registry.conns i).is_open ≡ true
  pub works : (k : ℕ) → m'.world.fails k ≡ false
  pub sent_ids : accepted_ids i m' ≡ accepted_ids i m ++ ids

pub query_registry :
    {A : Type 0} (op : Exec Db A) (m : Manager) → (query op m).1.registry ≡ m.registry
unfolding query
query_registry op m = ground arith

pub query_fails :
    {A : Type 0} (op : Exec Db A) (m : Manager) → (query op m).1.world.fails ≡ m.world.fails
unfolding query
query_fails op m = ground arith

-- A step that leaves the registry and the outside world alone.
pub quiet-Sends :
    (node_id : Text) (i : ℕ) (m m' : Manager)
    → IsOnline node_id i m
    → m'.registry ≡ m.registry
    → m'.world.fails ≡ m.world.fails
    → Sends node_id i m [] m'
quiet-Sends node_id i m m' h r f = record {
  same_conn = rw r (h.conn);
  still_open = rw r (h.is_open);
  works = λ k. rw f (h.works k);
  sent_ids = rw r (sym (append-nil (map (λ (e : Envelope). e.id) (m.registry.conns i).accepted)));
}

pub Sends-trans :
    {node_id : Text} {i : ℕ} {m m' m'' : Manager} {xs ys : List Text}
    → Sends node_id i m xs m'
    → Sends node_id i m' ys m''
    → Sends node_id i m (xs ++ ys) m''
Sends-trans {m = m} {m' = m'} {xs = xs} {ys = ys} a b = record {
  same_conn = b.same_conn;
  still_open = b.still_open;
  works = b.works;
  sent_ids = b.sent_ids ∙ rw (a.sent_ids) (append_assoc (map (λ (e : Envelope). e.id) _) xs ys);
}

pub Sends-IsOnline :
    {node_id : Text} {i : ℕ} {m m' : Manager} {ids : List Text}
    → Sends node_id i m ids m'
    → IsOnline node_id i m'
Sends-IsOnline s = record { conn = s.same_conn; is_open = s.still_open; works = s.works }

nat_eq_self : (n : ℕ) → nat_eq n n ≡ true
nat_eq_self n = ground arith

send_on-Sends :
    (node_id : Text) (i : ℕ) (env : Envelope) (m : Manager)
    → IsOnline node_id i m
    → ((send_on i env m).0 ≡ ok tt) × Sends node_id i m (env.id ∷ []) (send_on i env m).1
unfolding send_on set_conn Transport.send conn_of
send_on-Sends node_id i env m h =
    rw (h.works m.world.calls, h.is_open)
      (
        refl,
        record {
          same_conn = h.conn;
          still_open = rw (nat_eq_self i) refl;
          works = h.works;
          sent_ids =
              rw (nat_eq_self i)
                (map-append (λ (e : Envelope). e.id) (m.registry.conns i).accepted (env ∷ []));
        },
      )

abbrev made_envelope : Bytes → Manager → Envelope
made_envelope raw m = record {
  v = protocol_version;
  type = MessageType.instruction;
  id = m.world.id m.world.ids;
  ts = m.world.clock m.world.readings;
  payload = raw;
}

-- The envelope is built, which takes an id and a clock reading.
drawn_ok :
    (j : Json) (p : Instruction) (raw : Bytes) (m : Manager)
    → j.instruction_bytes p ≡ some raw
    → drawn j p (some raw) m ≡ (ok (made_envelope raw m), (now_millis (new_id m).1).1)
unfolding drawn coded new_instruction ◌>>=◌ now_millis new_id
drawn_ok j p raw m h = rw h refl

envelope_made :
    (j : Json) (p : Instruction) (m : Manager)
    → Marshals j
    → (env : Envelope) × (instruction_envelope j p m ≡ (ok env, (now_millis (new_id m).1).1))
unfolding instruction_envelope
envelope_made j p m w =
    let (raw, e) = w p in (made_envelope raw m, ap (λ b. drawn j p b m) e ∙ drawn_ok j p raw m e)

bind_ok {ℓ} :
    {S A B : Type ℓ} (f : Exec S A) (g : A → Exec S B) (s s' : S) (a : A)
    → f s ≡ (ok a, s')
    → (f >>= g) s ≡ g a s'
unfolding ◌>>=◌
bind_ok f g s s' a h = rw h refl

abbrev send_envelope : Task → ℕ → Envelope → Exec Manager (Unit {0})
send_envelope t i env = send_on i (record env { id = t.task_id })

-- Where the node is online, the frame is one Send.
send_frame_step :
    (j : Json) (i : ℕ) (t : Task) (m m' : Manager) (env : Envelope)
    → conn_of t.node_id m.registry ≡ some i
    → instruction_envelope j (instruction_of_task j t) m ≡ (ok env, m')
    → send_frame j t m ≡ send_envelope t i env m'
unfolding send_frame ◌>>=◌
send_frame_step j i t m m' env c e =
    rw c (bind_ok (instruction_envelope j (instruction_of_task j t)) (send_envelope t i) m m' env e)

send_frame-Sends :
    (j : Json) (i : ℕ) (t : Task) (m : Manager)
    → Marshals j
    → IsOnline t.node_id i m
    → ((send_frame j t m).0 ≡ ok tt) × Sends t.node_id i m (t.task_id ∷ []) (send_frame j t m).1
unfolding now_millis new_id
send_frame-Sends j i t m w h =
    let (env, made) = envelope_made j (instruction_of_task j t) m w in
    let m' = (now_millis (new_id m).1).1 in
    let quiet = quiet-Sends t.node_id i m m' h refl refl in
    let sent =
      send_on-Sends t.node_id i (record env { id = t.task_id }) m' (Sends-IsOnline quiet) in
    rw (send_frame_step j i t m m' env h.conn made) (sent.0, Sends-trans quiet (sent.1))

marked-Sends :
    (t : Task) (i : ℕ) (m : Manager)
    → IsOnline t.node_id i m
    → Sends t.node_id i m [] (mark_sent t m).1
unfolding mark_sent now_millis ◌>>=◌
marked-Sends t i m h =
    let m' = (now_millis m).1 in
    let mark = update_task_state t.task_id sent (m.world.clock m.world.readings) in
    quiet-Sends t.node_id i m (query mark m').1 h (query_registry mark m') (query_fails mark m')

-- Sending, with the mark on the row.
pub send-Sends :
    (j : Json) (i : ℕ) (t : Task) (m : Manager)
    → Marshals j
    → IsOnline t.node_id i m
    → Sends t.node_id i m (t.task_id ∷ []) (send j t m).1
unfolding send mark_sent now_millis ◌>>=◌
send-Sends j i t m w h =
    let (answer, gone) = send_frame-Sends j i t m w h in
    let m' = (send_frame j t m).1 in
    rw answer (Sends-trans gone (marked-Sends t i m' (Sends-IsOnline gone)))
