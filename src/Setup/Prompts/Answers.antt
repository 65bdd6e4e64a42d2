-- ===== src/Setup/Prompts/Answers.antt =====
-- promptRequired of cmd/sit/node_setup.go: which line it takes, and when it ends.
use sit.Prelude.{
  ℕ, zero, suc, ◌<◌, Text, text, ◌≡◌, ◌++◌, ◌∙◌, refl, Option, none, some, List, [], ◌∷◌, arith,
  is_empty, length, if◌then◌else◌, Bool-cases, inl, inr,
}
use mathlib.Core.List.{append_assoc}
use sit.Exec.{Result, ok, err, io, is_required, ◌>>=◌}
use sit.Strings.{trim_space}
use sit.Setup.Host.{Host, Input, say}
use sit.Setup.Prompts.{read_string, ask, prompt_required}

-- The first line that is not blank, without the spaces at its ends.
abbrev pub first_answer : List Text → Option Text → Result Text
first_answer [] none = err io
first_answer [] (some partial) =
    if is_empty (trim_space partial) then err is_required else ok (trim_space partial)
first_answer (l ∷ ls) ending =
    let rest = first_answer ls ending in if is_empty (trim_space l) then rest else ok (trim_space l)

-- What is left of the input: what stands behind the first line that is not blank, and nothing where
-- the input ends before.
abbrev pub left_after : List Text → Option Text → Input
left_after [] none = record { lines = []; ending = none }
left_after [] (some partial) = record { lines = []; ending = some [] }
left_after (l ∷ ls) ending =
    let rest = left_after ls ending in
    if is_empty (trim_space l) then rest else record { lines = ls; ending = ending }

-- How often the question is asked: once, and once more for each blank line before the answer.
abbrev pub questions : List Text → ℕ
questions [] = 1
questions (l ∷ ls) = let more = questions ls in if is_empty (trim_space l) then suc more else 1

abbrev pub copies : ℕ → Text → List Text
copies zero s = []
copies (suc n) s = s ∷ copies n s

-- The host after a question, which leaves all but the input and the terminal.
abbrev pub after_questions : Text → List Text → Option Text → Host → Host
after_questions label ls ending h = record h {
  input = left_after ls ending;
  shown = h.shown ++ copies (questions ls) (label ++ text ": ");
}

ask_lem :
    (label : Text) (n : ℕ) (ls : List Text) (ending : Option Text) (h : Host)
    → h.input ≡ record { lines = ls; ending = ending }
    → length ls < n
    → ask label n h ≡ (first_answer ls ending, after_questions label ls ending h)
unfolding ask ◌>>=◌ read_string say
ask_lem label zero ls ending h e l = absurd (omega arith)
ask_lem label (suc n) [] none h e l = rw e refl
ask_lem label (suc n) [] (some partial) h e l = elim (Bool-cases (is_empty (trim_space partial))) [
  | inl b ↦ rw (e, b) refl
  | inr b ↦ rw (e, b) refl
]
ask_lem label (suc n) (x ∷ ls) ending h e l = elim (Bool-cases (is_empty (trim_space x))) [
  | inl b ↦
      let next : Host = record h {
        input = record { lines = ls; ending = ending };
        shown = h.shown ++ (label ++ text ": ") ∷ [];
      } in
      rw (e, b)
        (ask_lem label n ls ending next refl (omega arith)
          ∙ rw (append_assoc h.shown ((label ++ text ": ") ∷ [])) refl)
  | inr b ↦ rw (e, b) refl
]

-- A required question without a preset value ends on every input and takes the first line that is
-- not blank, without the spaces at its ends; at the end of the file it takes what stands there or
-- says that an answer is required, and it fails where the reader does. It shows its label once, and
-- once more for each blank line before, takes no more than these lines from the input, and changes
-- nothing else. A preset value is taken without the spaces at its ends, and nothing is shown, read
-- or changed.
pub prompt_required_lem :
    (label def : Text) (h : Host)
    → prompt_required label def h ≡ (
        if is_empty def
        then (
          first_answer h.input.lines h.input.ending,
          after_questions label h.input.lines h.input.ending h,
        )
        else (ok (trim_space def), h))
unfolding prompt_required
prompt_required_lem label [] h =
    ask_lem label (suc (length h.input.lines)) h.input.lines h.input.ending h refl (omega arith)
prompt_required_lem label (c ∷ s) h = refl
