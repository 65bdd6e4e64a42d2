-- ===== src/Setup.antt =====
-- cmd/sit/node_setup.go: the texts that `sit node setup` computes and writes, and its questions.
pub mod ConfigFile
pub mod Endpoints
pub mod Secret
pub mod Paths
pub mod Host
pub mod Prompts
pub mod Accounts
pub mod Files
pub mod Services
pub mod Flow
use sit.Prelude.{
  ℕ, Text, text, ◌==◌, Bool, true, false, ◌&&◌, ◌||◌, Option, none, some, List, [], ◌∷◌, ◌++◌,
  is_empty, if◌then◌else◌,
}
use sit.Strings.{
  trim_space, trim_right_slash, has_prefix, trim_prefix, has_suffix, split_lines, after_prefix,
}
use sit.Decimal.{show}

pub record Options : Type 0 where
  pub endpoint : Text
  pub wss_endpoint : Text
  pub token : Text
  pub config_path : Text
  pub state_dir : Text
  pub log_dir : Text
  pub user : Text
  pub group : Text
  pub bin_path : Text
  pub service_path : Text
  pub heartbeat_sec : ℕ
  pub assume_yes : Bool

unfoldable pub default_options : Text → Options
default_options goos =
    if goos == text "darwin"
    then record {
      endpoint = [];
      wss_endpoint = [];
      token = [];
      config_path = text "/usr/local/etc/sit/node.yaml";
      state_dir = text "/usr/local/var/lib/sit";
      log_dir = text "/usr/local/var/log/sit";
      user = text "_sit";
      group = text "_sit";
      bin_path = text "/usr/local/bin/sit";
      service_path = text "/Library/LaunchDaemons/com.meating.sit.plist";
      heartbeat_sec = 30;
      assume_yes = false;
    }
    else record {
      endpoint = [];
      wss_endpoint = [];
      token = [];
      config_path = text "/etc/sit/node.yaml";
      state_dir = text "/var/lib/sit";
      log_dir = [];
      user = text "sit";
      group = text "sit";
      bin_path = text "/usr/local/bin/sit";
      service_path = text "/etc/systemd/system/sit-node.service";
      heartbeat_sec = 30;
      assume_yes = false;
    }

-- https becomes wss, http becomes ws
wss_scheme : Text → Text
wss_scheme endpoint =
    if has_prefix (text "https://") endpoint
    then text "wss://" ++ trim_prefix (text "https://") endpoint
    else if has_prefix (text "http://") endpoint
    then text "ws://" ++ trim_prefix (text "http://") endpoint
    else endpoint

connect_path : Text → Text
connect_path wss =
    if has_suffix (text "/sit") wss then wss ++ text "/connect" else wss ++ text "/sit/connect"

unfoldable pub manager_api_to_wss : Text → Text
unfolding wss_scheme connect_path
manager_api_to_wss endpoint = connect_path (trim_right_slash (wss_scheme endpoint))

-- the body that writeNodeConfig writes
unfoldable pub node_config_body : Text → Text → ℕ → Text
node_config_body endpoint state_dir heartbeat =
    text "endpoints:\n  - "
    ++ (endpoint
        ++ (text "\nstate_dir: "
            ++ (state_dir
                ++ (text "\nheartbeat_sec: "
                    ++ (show heartbeat ++ text "\ninsecure_skip_verify: false\n")))))

-- identityHasSecret, on the file's text
line_has_secret : Text → Bool
line_has_secret line =
    if has_prefix (text "secret=") (trim_space line)
    then (if is_empty (trim_space (trim_prefix (text "secret=") line)) then false else true)
    else false

some_line : List Text → Bool
unfolding line_has_secret
some_line [] = false
some_line (l ∷ ls) = line_has_secret l || some_line ls

unfoldable pub identity_has_secret : Option Text → Bool
unfolding some_line
identity_has_secret none = false
identity_has_secret (some b) = some_line (split_lines b)
