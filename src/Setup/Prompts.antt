-- ===== src/Setup/Prompts.antt =====
-- setupPrompter of cmd/sit/node_setup.go. ReadString gives a line, or what is left of the input
-- together with the end of the file.
pub mod Answers
use sit.Prelude.{
  ℕ, zero, suc, ◌+◌, Text, text, ◌==◌, Bool, true, false, ◌||◌, Option, none, some, List, [], ◌∷◌,
  ◌++◌, leb, ◌&&◌, is_empty, length, if◌then◌else◌, map,
}
use sit.Exec.{
  Result, ok, err, Exec, io, is_required, refusing, cancelled, pure, fail, lift, gets, attempt,
  modify, ignore, ◌>>=◌, ◌>>◌,
}
use sit.Strings.{trim_space}
use sit.Setup.Host.{Host, Input, say, exists}

-- a line read, and whether the file ended in it
abbrev pub next_line : List Text → Option Text → Result (Text × Bool)
next_line (l ∷ ls) ending = ok (l, false)
next_line [] (some partial) = ok (partial, true)
next_line [] none = err io

abbrev after_line : List Text → Option Text → Input
after_line (l ∷ ls) ending = record { lines = ls; ending = ending }
after_line [] (some partial) = record { lines = []; ending = some [] }
after_line [] none = record { lines = []; ending = none }

unfoldable pub read_string : Exec Host (Text × Bool)
read_string h = (
  next_line h.input.lines h.input.ending,
  record h { input = after_line h.input.lines h.input.ending },
)

abbrev or_default : Text → Text → Text
or_default def s = if is_empty s then def else s

unfoldable pub prompt_default : Bool → Text → Text → Exec Host Text
prompt_default assume_yes label def = if assume_yes then pure def else do
  say (label ++ text " [" ++ def ++ text "]: ")
  r ← read_string
  pure (or_default def (trim_space r.0))

-- The loop of promptRequired, on the number of lines that it may read.
unfoldable pub ask : Text → ℕ → Exec Host Text
ask label zero = fail cancelled
ask label (suc n) =
    let rest = ask label n in
    do
      say (label ++ text ": ")
      r ← read_string
      if is_empty (trim_space r.0)
          then (if r.1 then fail is_required else rest)
          else pure (trim_space r.0)

-- At most one round for each line that is left and one for the end of the file.
unfoldable pub prompt_required : Text → Text → Exec Host Text
prompt_required label def h =
    if is_empty def then ask label (suc (length h.input.lines)) h else (ok (trim_space def), h)

-- a letter of ASCII made small
abbrev small : ℕ → ℕ
small c = if leb 65 c && leb c 90 then c + 32 else c

abbrev pub is_yes : Text → Bool
is_yes s = map small (trim_space s) == text "y" || map small (trim_space s) == text "yes"

may_overwrite : Text → Exec Host (Unit {0})
may_overwrite path = do
  say (path ++ text " already exists. Overwrite? [y/N]: ")
  r ← read_string
  if is_yes r.0 then pure tt else fail refusing

unfoldable pub confirm_overwrite : Bool → Text → Exec Host (Unit {0})
unfolding may_overwrite
confirm_overwrite assume_yes path =
    if assume_yes
    then pure tt
    else do known ← exists path; if known then may_overwrite path else pure tt
