-- ===== src/Tests/Hosts.antt =====
-- Runs of the setup and of the enrollment on a small host: node_setup.go and node.go.
use sit.Prelude.{
  ℕ, Text, text, ◌≡◌, refl, true, false, some, none, [], ◌∷◌, arith, nat_eq, is_empty, ◌==◌,
  if◌then◌else◌, Option, has,
}
use sit.Strings.{
  trim_right_slash, has_suffix, has_prefix, trim_prefix, is_space, trim_space, split_lines,
}
use sit.Strings.Laws.{is_free→Free}
use sit.Decimal.{show}
use sit.Exec.{ok, ◌>>=◌}
use sit.Node.Config.{scan_lines, parse_config}
use sit.Node.Config.Lines.{IsValue}
use sit.Node.Identity.{Identity, parse_identity}
use sit.Node.Identity.RoundTrip.{IsToken}
use sit.Node.Identity.Stored.{
  identity_path, load_or_create_identity, read_identity, write_identity, save_identity,
}
use sit.Setup.{node_config_body, Options, manager_api_to_wss, identity_has_secret}
use sit.Setup.ConfigFile.{written}
use sit.Setup.Host.{
  call, command_ok, command_output, change_mode, make_dirs, copy, rename, run, write_file, say,
  read_file, Host, System,
}
use sit.Setup.Prompts.{prompt_required, prompt_default, confirm_overwrite}
use sit.Setup.Prompts.Answers.{first_answer, after_questions, prompt_required_lem}
use sit.Setup.Accounts.{ensure_system_user, used_ids, or_no_id, first_free_darwin_id}
use sit.Setup.Accounts.FreeIds.{IsChoice, first_free_darwin_id_lem}
use sit.Setup.Files.{write_node_config, is_enrolled, install_self, ensure_owned_dir, enroll_as_user}
use sit.Setup.Paths.{base, dir, parent_of, join, path_text, clean}
use sit.Setup.Files.Overwrite.{Refuses, no_overwrite}
use sit.Setup.Services.{write_node_service, write_launchd_plist}
use sit.Setup.Flow.{check_host, install, ask_options, run_node_setup}
use sit.Setup.Flow.Writes.{run_node_setup_configures}
use sit.Cli.{enroll_in, default_state_dir, exchange_enroll_token, Post, node_enroll, dir_or_default}
use sit.Cli.Enrolled.{Grants, IssuesTokens, node_enroll_stores}

abbrev linux : System
linux = record {
  goos = text "linux";
  euid = 0;
  has_tool = λ t. true;
  executable = some (text "/tmp/sit");
  eval_symlinks = λ p. p;
  absolute = λ p. p;
  effect = λ words files. files;
}

-- every call of the system succeeds, with the same output
abbrev host : Host
host = record {
  input = record { lines = [] ∷ text " m " ∷ []; ending = some [] };
  shown = [];
  files = λ p. if p == text "/etc/sit/node.yaml" then some (text "old") else none;
  log = [];
  outcomes = λ n. some (text "_a 401\n_b 403");
  calls = 0;
}

abbrev options : Options
options = record {
  endpoint = text "https://m/";
  wss_endpoint = [];
  token = text "t";
  config_path = text "/etc/sit/node.yaml";
  state_dir = text "/var/lib/sit";
  log_dir = [];
  user = text "sit";
  group = text "sit";
  bin_path = text "/usr/local/bin/sit";
  service_path = text "/etc/systemd/system/sit-node.service";
  heartbeat_sec = 30;
  assume_yes = true;
}

prompt_required_lem_example : prompt_required (text "Manager API address") [] host ≡ (
    if is_empty []
    then (
      first_answer host.input.lines host.input.ending,
      after_questions (text "Manager API address") host.input.lines host.input.ending host,
    )
    else (ok (trim_space []), host))
prompt_required_lem_example = prompt_required_lem (text "Manager API address") [] host

first_free_darwin_id_lem_example :
    (o : Option ℕ) × ((first_free_darwin_id linux (text "/Users") (text "UniqueID") host).0
      ≡ or_no_id o)
    × IsChoice (used_ids (split_lines (text "_a 401\n_b 403"))) o
first_free_darwin_id_lem_example =
    first_free_darwin_id_lem linux (text "/Users") (text "UniqueID") (text "_a 401\n_b 403") host
      refl

config_there : has (host.files (text "/etc/sit/node.yaml")) ≡ true
unfolding ◌==◌
config_there = refl

abbrev config_path : Text
config_path = text "/etc/sit/node.yaml"

no_overwrite_example :
    Refuses
      (write_node_config false config_path options.state_dir options.wss_endpoint
        options.heartbeat_sec host)
      host
    × Refuses
        (write_node_service false config_path options.user options.bin_path options.config_path
          host)
        host
    × Refuses (write_launchd_plist false (record options { service_path = config_path }) host) host
no_overwrite_example =
    no_overwrite options config_path host config_there (unfold trim_space is_space ◌==◌ in refl)

abbrev answers : Options
answers = record options { endpoint = text "https://m"; wss_endpoint = text "wss://m/sit/connect" }

asked : (ask_options linux options host).0 ≡ ok answers
unfolding ask_options ◌>>=◌ prompt_required ◌==◌ prompt_default is_enrolled read_file call
    identity_has_secret join path_text clean say trim_right_slash trim_space is_space
    manager_api_to_wss has_suffix has_prefix trim_prefix
asked = refl

wss-IsValue : IsValue answers.wss_endpoint
unfolding is_space
wss-IsValue = record {
  filled = refl;
  one_line = is_free→Free (nat_eq 10) answers.wss_endpoint refl;
  first_space = refl;
  last_space = refl;
  first_quote = refl;
  last_quote = refl;
}

dir-IsValue : IsValue answers.state_dir
unfolding is_space
dir-IsValue = record {
  filled = refl;
  one_line = is_free→Free (nat_eq 10) answers.state_dir refl;
  first_space = refl;
  last_space = refl;
  first_quote = refl;
  last_quote = refl;
}

other_file : (answers.service_path == answers.config_path) ≡ false
unfolding ◌==◌
other_file = refl

set_up : (run_node_setup linux options host).0 ≡ ok tt
unfolding run_node_setup ◌>>=◌ check_host ◌==◌ ask_options prompt_required prompt_default
    is_enrolled read_file identity_has_secret join path_text clean say install ensure_system_user
    command_ok command_output call show install_self ensure_owned_dir write_node_config
    enroll_as_user change_mode make_dirs copy rename run write_file confirm_overwrite
    write_node_service base dir parent_of has_prefix has_suffix manager_api_to_wss trim_right_slash
    trim_space is_space trim_prefix node_config_body
set_up = refl

run_node_setup_configures_example :
    (body : Text) × ((run_node_setup linux options host).1.files answers.config_path ≡ some body)
    × (parse_config (scan_lines body) false
        ≡ ok (written answers.wss_endpoint answers.state_dir 30))
run_node_setup_configures_example =
    run_node_setup_configures linux options answers 29 host asked (λ words files. refl) other_file
      wss-IsValue dir-IsValue refl (omega arith) set_up

abbrev post : Post
post url token node_id = some (record { status = 200; decoded = some (text "n1", text "s3") })

enrolls :
    (node_enroll post (text "linux") (text "t") (text "https://m") [] (text "f") host).0 ≡ ok tt
unfolding node_enroll ◌>>=◌ enroll_in load_or_create_identity read_identity call ◌==◌ join path_text
    clean default_state_dir write_identity make_dirs write_file exchange_enroll_token save_identity
    say
enrolls = refl

id-IsToken : IsToken (text "n1")
unfolding is_space
id-IsToken = (is_free→Free (nat_eq 10) (text "n1") refl, refl)

secret-IsToken : IsToken (text "s3")
unfolding is_space
secret-IsToken = (is_free→Free (nat_eq 10) (text "s3") refl, refl)

post-IssuesTokens : IssuesTokens post
post-IssuesTokens url token id node_id secret e =
    let is_id : node_id ≡ text "n1" = cc in
    let is_secret : secret ≡ text "s3" = cc in (rw is_id id-IsToken, rw is_secret secret-IsToken)

node_enroll_stores_example :
    (old : Identity) × (node_id : Text) × (secret : Text) × (file : Text)
    × ((load_or_create_identity (dir_or_default (text "linux") []) (text "f") host).0 ≡ ok old)
    × Grants post (text "https://m") (text "t") old.node_id node_id secret
    × ((node_enroll post (text "linux") (text "t") (text "https://m") [] (text "f") host).1.files
          (identity_path (dir_or_default (text "linux") []))
        ≡ some file)
    × (parse_identity file ≡ record { node_id = node_id; secret = secret })
    × (identity_has_secret (some file) ≡ (if is_empty (trim_space secret) then false else true))
node_enroll_stores_example =
    node_enroll_stores post (text "linux") (text "t") (text "https://m") [] (text "f") host
      post-IssuesTokens enrolls
