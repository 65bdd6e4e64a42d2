-- ===== src/Cli.antt =====
-- cmd/sit/node.go: the commands `sit node` and `sit node enroll`.
pub mod Enrolled
use sit.Prelude.{
  ℕ, Text, text, ◌==◌, Bool, true, false, ◌||◌, Option, none, some, List, [], ◌∷◌, ◌++◌, nat_eq,
  is_empty, if◌then◌else◌,
}
use sit.Strings.{trim_right_slash}
use sit.Exec.{
  Result, ok, err, Exec, io, usage, pure, fail, lift, gets, attempt, modify, ignore, ◌>>=◌, ◌>>◌,
}
use sit.Setup.Host.{Host, say}
use sit.Node.Config.{Config}
use sit.Node.Identity.{Identity}
use sit.Node.Identity.Stored.{load_or_create_identity, save_identity}

-- An HTTP answer; the body as its decoder reads it, the node id and the secret.
pub record Answer : Type 0 where
  pub status : ℕ
  pub decoded : Option (Text × Text)

-- The answer to a POST of a token and a node id to an address; `none` where none arrives.
abbrev pub Post : Type 0
Post = Text → Text → Text → Option Answer

abbrev credential_of : Option (Text × Text) → Result (Text × Text)
credential_of none = err io
credential_of (some pair) = ok pair

abbrev issued : Option Answer → Result (Text × Text)
issued none = err io
issued (some a) = if nat_eq a.status 200 then credential_of a.decoded else err io

unfoldable pub exchange_enroll_token : Post → Text → Text → Text → Result (Text × Text)
exchange_enroll_token post api_base token node_id =
    issued (post (trim_right_slash api_base ++ text "/api/v1/enroll/exchange") token node_id)

-- DefaultStateDir
unfoldable pub default_state_dir : Text → Text
default_state_dir goos =
    if goos == text "darwin" then text "/usr/local/var/lib/sit" else text "/var/lib/sit"

abbrev pub dir_or_default : Text → Text → Text
dir_or_default goos state_dir = if is_empty state_dir then default_state_dir goos else state_dir

abbrev pub enrolled_text : Text → Text → Text
enrolled_text node_id state_dir =
    text "enrolled: node_id="
    ++ node_id
    ++ text " (credential stored at "
    ++ state_dir
    ++ text ")\n"

-- what remains once the flags are there
unfoldable pub enroll_in : Post → Text → Text → Text → Text → Exec Host (Unit {0})
enroll_in post token endpoint state_dir fresh = do
  id ← load_or_create_identity state_dir fresh
  r ← lift (exchange_enroll_token post endpoint token id.node_id)
  save_identity state_dir (record { node_id = r.0; secret = r.1 })
  say (enrolled_text r.0 state_dir)

-- `sit node enroll`
unfoldable pub node_enroll : Post → Text → Text → Text → Text → Text → Exec Host (Unit {0})
node_enroll post goos token endpoint state_dir fresh =
    if is_empty token || is_empty endpoint
    then fail usage
    else enroll_in post token endpoint (dir_or_default goos state_dir) fresh

abbrev no_endpoints : List Text → Bool
no_endpoints [] = true
no_endpoints (e ∷ es) = false

identified : Text → Text → Config → Exec Host (Config × Identity)
identified goos fresh cfg = do
  id ← load_or_create_identity (dir_or_default goos cfg.state_dir) fresh
  if is_empty id.secret then fail usage else pure (cfg, id)

-- `sit node`, up to the agent that it starts: the configuration as loaded, and the identity.
unfoldable pub node_start : Text → Text → Result Config → Exec Host (Config × Identity)
unfolding identified
node_start goos fresh loaded = do
  cfg ← lift loaded
  if no_endpoints cfg.endpoints then fail usage else identified goos fresh cfg
