-- ===== src/Setup/Host.antt =====
-- The host that cmd/sit/node_setup.go runs on: what it asks of the operating system, and the
-- terminal. The outcome of each call of the system is drawn from a stream given from outside; a call
-- that fails has changed no file.
use sit.Prelude.{
  ℕ, ◌+◌, Text, text, ◌==◌, Bool, true, false, Option, none, some, List, [], ◌∷◌, ◌++◌, has,
  if◌then◌else◌,
}
use sit.Exec.{Result, ok, err, Exec, io, pure, gets, attempt, ◌>>=◌, ◌>>◌}

-- The lines to come, and what stands behind the last of them at the end of the file; `none` where
-- the reader fails there.
pub record Input : Type 0 where
  pub lines : List Text
  pub ending : Option Text

abbrev pub Files : Type 0
Files = Text → Option Text

-- What has been done to the system, a mode as a number.
pub data Event : Type 0 where
  made_dirs changed_mode wrote : Text → ℕ → Event
  copied renamed : Text → Text → Event
  looked_at : Text → Event
  ran : List Text → Event

pub record Host : Type 0 where
  pub input : Input
  pub shown : List Text
  pub files : Files
  pub log : List Event
  pub outcomes : ℕ → Option Text  -- of a call of the system: its output, or that it failed
  pub calls : ℕ

-- What does not change during a run, and what a command does to the files.
pub record System : Type 0 where
  pub goos : Text
  pub euid : ℕ
  pub has_tool : Text → Bool  -- exec.LookPath
  pub executable : Option Text
  pub eval_symlinks : Text → Text  -- the empty text where it fails
  pub absolute : Text → Text
  pub effect : List Text → Files → Files

abbrev pub is_darwin : System → Bool
is_darwin sys = sys.goos == text "darwin"

-- 0600, 0700, 0750, 0755 and 0644
abbrev pub owner_writes : ℕ
owner_writes = 0x180

abbrev pub owner_only : ℕ
owner_only = 0x1c0

abbrev pub group_reads : ℕ
group_reads = 0x1e8

abbrev pub all_enter : ℕ
all_enter = 0x1ed

abbrev pub all_read : ℕ
all_read = 0x1a4

unfoldable pub say : Text → Exec Host (Unit {0})
say s h = (ok tt, record h { shown = h.shown ++ s ∷ [] })

abbrev with_outcome : Event → (Files → Files) → Host → Option Text → Result Text × Host
with_outcome e f h none = (err io, record h { calls = h.calls + 1 })
with_outcome e f h (some out) =
    (ok out, record h { calls = h.calls + 1; files = f h.files; log = h.log ++ e ∷ [] })

-- one call of the system
unfoldable pub call : Event → (Files → Files) → Exec Host Text
call e f h = with_outcome e f h (h.outcomes h.calls)

abbrev pub unchanged : Files → Files
unchanged files = files

abbrev pub set_file : Text → Option Text → Files → Files
set_file path body files p = if path == p then body else files p

module _ {ℓ} {A : Type ℓ} where
  abbrev pub succeeded : Result A → Bool
  succeeded (ok a) = true
  succeeded (err e) = false

  abbrev pub output_of : Result A → Option A
  output_of (ok a) = some a
  output_of (err e) = none

unfoldable pub make_dirs : Text → ℕ → Exec Host (Unit {0})
make_dirs path mode = do call (made_dirs path mode) unchanged; pure tt

unfoldable pub change_mode : Text → ℕ → Exec Host (Unit {0})
change_mode path mode = do call (changed_mode path mode) unchanged; pure tt

unfoldable pub write_file : Text → Text → ℕ → Exec Host (Unit {0})
write_file path body mode = do call (wrote path mode) (set_file path (some body)); pure tt

-- os.Stat, as whether the path is there
unfoldable pub exists : Text → Exec Host Bool
exists path = do call (looked_at path) unchanged; gets (λ h. has (h.files path))

-- os.ReadFile, with its error as `none`
unfoldable pub read_file : Text → Exec Host (Option Text)
read_file path = do
  r ← attempt (call (looked_at path) unchanged)
  if succeeded r then gets (λ h. h.files path) else pure none

abbrev copy_file : Text → Text → Files → Files
copy_file from to files = set_file to (files from) files

abbrev move_file : Text → Text → Files → Files
move_file from to files = set_file from none (set_file to (files from) files)

-- Open, OpenFile, Copy and Close
unfoldable pub copy : Text → Text → Exec Host (Unit {0})
copy from to = do call (copied from to) (copy_file from to); pure tt

unfoldable pub rename : Text → Text → Exec Host (Unit {0})
rename from to = do call (renamed from to) (move_file from to); pure tt

abbrev spaced : List Text → Text
spaced [] = []
spaced (w ∷ []) = w
spaced (w ∷ v ∷ ws) = w ++ 32 ∷ spaced (v ∷ ws)

module _ (sys : System) where
  -- run
  unfoldable pub run : List Text → Exec Host (Unit {0})
  run words = do
    say (text "sit setup: running " ++ spaced words ++ text "\n")
    call (ran words) (sys.effect words)
    pure tt

  -- commandOutput
  unfoldable pub command_output : List Text → Exec Host Text
  command_output words = call (ran words) (sys.effect words)

  -- commandOK
  unfoldable pub command_ok : List Text → Exec Host Bool
  command_ok words = do r ← attempt (command_output words); pure (succeeded r)
