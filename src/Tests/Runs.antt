-- ===== src/Tests/Runs.antt =====
-- The node: internal/node/executor.go, client.go and identity.go.
use sit.Prelude.{◌+◌, Text, text, ◌≡◌, refl, false, Option, none, some, [], ◌∷◌, arith, get}
use sit.Protocol.{Json, Notification, MessageType, Envelope}
use sit.Window.{lookup, empty_window}
use sit.Node.Executor.{new_executor, dedup_window, execute}
use sit.Node.Executor.Once.{execute_once, execute_all}
use sit.Node.Executor.Limits.{IsAnswer, AllAnswer, execute_answers}
use sit.Node.Client.{Outside, Client, handle_frame}
use sit.Node.Client.Answers.{Answered, handle_frame_answers}
use sit.Tests.Fixtures.{json, host, list_files, empty-IsWindow, open_conn}

nothing_seen_of : {V : Type 0} (id : Text) → lookup id (empty_window {V = V}) ≡ none
unfolding lookup get
nothing_seen_of id = refl

nothing_seen : (id : Text) → lookup id (empty_window {V = Notification}) ≡ none
nothing_seen id = nothing_seen_of id

AllAnswer-new : AllAnswer new_executor.window
AllAnswer-new id v h = absurd (none_some (nothing_seen id) h)
  where
    none_some : {o : Option Notification} → o ≡ none → o ≡ some v → ⊥
    none_some p q = cc

-- the task "a" comes in twice, with another in between
execute_once_example :
    let (res, e') = execute host 5 (text "a") list_files new_executor in
    execute host 9
      (text "a")
      (record list_files { command = text "rm" })
      (execute_all host ((7, text "b", list_files) ∷ []) e')
    ≡ (res, execute_all host ((7, text "b", list_files) ∷ []) e')
execute_once_example =
    execute_once host 5 9 (text "a") list_files (record list_files { command = text "rm" })
      new_executor ((7, text "b", list_files) ∷ []) (empty-IsWindow dedup_window)
      (nothing_seen (text "a")) (omega arith)

execute_answers_example :
    IsAnswer (text "a") (execute host 5 (text "a") list_files new_executor).0
    × AllAnswer (execute host 5 (text "a") list_files new_executor).1.window
execute_answers_example =
    execute_answers host 5 (text "a") list_files new_executor (empty-IsWindow dedup_window)
      AllAnswer-new

abbrev frame : Envelope
frame = record { v = 1; type = MessageType.instruction; id = text "a"; ts = 4; payload = 1 ∷ [] }

abbrev result_a : Notification
result_a = (execute host 8 (text "a") list_files new_executor).0

-- encoding/json on the messages of one task
abbrev task_json : Json
task_json = record json {
  instruction_of = λ b. some list_files;
  ack_bytes = λ a. some (2 ∷ []);
  ack_of = λ b. some (record { ref_id = text "a" });
  notification_bytes = λ n. some (3 ∷ []);
  notification_of = λ b. some result_a;
}

abbrev outside : Outside
outside = record { id = λ n. text "id"; clock = λ n. n + 7; ends = λ n. false }

abbrev client : Client
client = record { conn = open_conn; executor = new_executor; ids = 0; readings = 0; sends = 0 }

handle_frame_answers_example :
    Answered task_json (text "a") client (handle_frame outside task_json host frame client)
handle_frame_answers_example =
    handle_frame_answers outside task_json host frame list_files client
      (record {
        ack_raw = 2 ∷ [];
        ack_bytes = refl;
        ack_of = refl;
        result_raw = 3 ∷ [];
        result_bytes = refl;
        result_of = refl;
      })
      (record { is_open = refl; lives = λ k. refl }) (empty-IsWindow dedup_window) AllAnswer-new
      refl refl
