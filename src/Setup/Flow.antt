-- ===== src/Setup/Flow.antt =====
-- runNodeSetup of cmd/sit/node_setup.go: its guards, its questions, and what it does to the host.
pub mod Writes
use sit.Prelude.{
  ℕ, zero, suc, ◌+◌, Text, text, ◌==◌, Bool, true, false, ◌||◌, not, List, [], ◌∷◌, ◌++◌, nat_eq,
  is_empty, if◌then◌else◌,
}
use sit.Strings.{trim_right_slash}
use sit.Exec.{
  Error, Result, ok, err, Exec, unsupported, not_root, pure, fail, lift, gets, attempt, modify,
  ignore, ◌>>=◌, ◌>>◌,
}
use sit.Setup.{Options, manager_api_to_wss}
use sit.Setup.Paths.{base}
use sit.Setup.Host.{
  Host, System, is_darwin, say, run, change_mode, all_enter, owner_only, group_reads,
}
use sit.Setup.Prompts.{prompt_default, prompt_required}
use sit.Setup.Accounts.{ensure_system_user, ensure_darwin_system_user}
use sit.Setup.Files.{
  install_self, ensure_owned_dir, ensure_owned_dir_for_group, write_node_config, is_enrolled,
  enroll_as_user,
}
use sit.Setup.Services.{write_node_service, install_launch_daemon, launchd_label}

module _ (sys : System) where
  -- What the platform must have
  unfoldable pub check_host : Result (Unit {0})
  check_host =
      if not (sys.goos == text "linux" || is_darwin sys)
      then err unsupported
      else if not (nat_eq sys.euid 0)
      then err not_root
      else if is_darwin sys
      then (if not (sys.has_tool (text "launchctl"))
          then err unsupported
          else if not (sys.has_tool (text "dscl"))
          then err unsupported
          else ok tt)
      else if not (sys.has_tool (text "systemctl"))
      then err unsupported
      else ok tt

  service_path_label : Text
  service_path_label =
      if is_darwin sys then text "launchd plist path" else text "systemd service path"

  abbrev default_group : Options → Options
  default_group o = if is_empty o.group then record o { group = o.user } else o

  -- The questions on paths and accounts, in order.
  ask_paths : Options → Exec Host Options
  unfolding service_path_label
  ask_paths o = do
    endpoint ← prompt_required (text "Manager API address") o.endpoint
    config ← prompt_default o.assume_yes (text "Node config path") o.config_path
    state ← prompt_default o.assume_yes (text "Node state directory") o.state_dir
    logs ←
        if is_darwin sys
        then prompt_default o.assume_yes (text "Node log directory") o.log_dir
        else pure o.log_dir
    user ← prompt_default o.assume_yes (text "System user") o.user
    group ←
        if is_darwin sys
        then prompt_default o.assume_yes (text "System group") o.group
        else pure user
    bin ← prompt_default o.assume_yes (text "Install sit binary to") o.bin_path
    service ← prompt_default o.assume_yes service_path_label o.service_path
    pure (record o {
      endpoint = endpoint;
      config_path = config;
      state_dir = state;
      log_dir = logs;
      user = user;
      group = group;
      bin_path = bin;
      service_path = service;
      heartbeat_sec = if nat_eq o.heartbeat_sec 0 then 30 else o.heartbeat_sec;
    })

  -- A token is needed only where no secret is stored.
  ask_token : Options → Exec Host Text
  ask_token o = do
    enrolled ← is_enrolled sys o.state_dir
    if enrolled then pure o.token else prompt_required (text "Enrollment token") o.token

  abbrev wss_default : Options → Text
  wss_default o =
      if is_empty o.wss_endpoint
      then manager_api_to_wss (trim_right_slash o.endpoint)
      else o.wss_endpoint

  -- The answers, with the endpoints as they are used: without slashes at the end.
  unfoldable pub ask_options : Options → Exec Host Options
  unfolding ask_paths ask_token
  ask_options o = do
    p ← ask_paths (default_group o)
    token ← ask_token p
    wss ← prompt_default o.assume_yes (text "Node WSS endpoint") (wss_default p)
    say (text "sit setup: WSS endpoint will be " ++ trim_right_slash wss ++ text "\n")
    pure (record p {
      token = token;
      endpoint = trim_right_slash p.endpoint;
      wss_endpoint = trim_right_slash wss;
    })

  prepare_darwin : Options → Exec Host (Unit {0})
  prepare_darwin o = do
    ensure_darwin_system_user sys o.user o.group
    install_self sys o.bin_path
    run sys (text "chown" ∷ text "root:wheel" ∷ o.bin_path ∷ [])
    change_mode o.bin_path all_enter
    ensure_owned_dir_for_group sys o.state_dir o.user o.group owner_only
    ensure_owned_dir_for_group sys o.log_dir o.user o.group group_reads

  prepare_linux : Options → Exec Host (Unit {0})
  prepare_linux o = do
    ensure_system_user sys o.user o.state_dir
    install_self sys o.bin_path
    ensure_owned_dir sys o.state_dir o.user

  start_linux : Options → Exec Host (Unit {0})
  start_linux o = do
    write_node_service o.assume_yes o.service_path o.user o.bin_path o.config_path
    run sys (text "systemctl" ∷ text "daemon-reload" ∷ [])
    run sys (text "systemctl" ∷ text "enable" ∷ text "--now" ∷ base o.service_path ∷ [])

  finish : Options → Exec Host (Unit {0})
  finish o = do
    say (text "sit setup: done\n")
    say (
        if is_darwin sys
        then text "sit setup: check status with `launchctl print system/"
          ++ launchd_label
          ++ text "`\n"
        else text "sit setup: check status with `systemctl status "
          ++ base o.service_path
          ++ text "`\n")

  -- what follows the questions
  unfoldable pub install : Options → Exec Host (Unit {0})
  unfolding prepare_darwin prepare_linux start_linux finish
  install o = do
    if is_darwin sys then prepare_darwin o else prepare_linux o
    write_node_config o.assume_yes o.config_path o.state_dir o.wss_endpoint o.heartbeat_sec
    enroll_as_user sys o.user o.bin_path o.token o.endpoint o.state_dir
    if is_darwin sys then install_launch_daemon sys o.assume_yes o else start_linux o
    finish o

  unfoldable pub run_node_setup : Options → Exec Host (Unit {0})
  run_node_setup o = do lift check_host; answers ← ask_options o; install answers
