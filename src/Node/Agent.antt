-- ===== src/Node/Agent.antt =====
-- internal/node/bootstrap.go, with the order of Dial in internal/transport/dial.go: which endpoint a
-- node connects to, what it shows there, and how long it waits between its attempts.
pub mod Reconnect
pub mod Connect
use sit.Prelude.{
  ℕ, suc, ◌+◌, Text, text, Option, none, some, List, [], ◌∷◌, ◌++◌, is_empty, if◌then◌else◌, Bool,
}
use sit.Node.Identity.{Identity}
use sit.Transport.Backoff.{Backoff, next, reset}

-- AuthToken
abbrev pub auth_token : Identity → Text
auth_token i = i.node_id ++ 58 ∷ i.secret

-- The header that Dial sets, if there is a token.
abbrev pub auth_header : Text → Option Text
auth_header token = if is_empty token then none else some (text "Bearer " ++ token)

-- The first endpoint that answers; which ones do comes from outside.
unfoldable pub dial : (Text → Bool) → List Text → Option Text
dial answers [] = none
dial answers (endpoint ∷ more) =
    let rest = dial answers more in if answers endpoint then some endpoint else rest

-- A round of the loop of Run: the dial failed, or a session was served to its end, and then the
-- wait ran to its end; or the context was cancelled.
pub data Round : Type 0 where
  dial_failed served context_done : Round

-- The waits of Run, each with its own random number.
unfoldable pub waits : (ℕ → ℕ) → ℕ → List Round → Backoff → List ℕ
waits random k [] b = []
waits random k (dial_failed ∷ more) b =
    let (d, b') = next (random k) b in d ∷ waits random (suc k) more b'
waits random k (served ∷ more) b =
    let (d, b') = next (random k) (reset b) in d ∷ waits random (suc k) more b'
waits random k (context_done ∷ more) b = []
