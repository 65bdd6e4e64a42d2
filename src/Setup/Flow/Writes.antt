-- ===== src/Setup/Flow/Writes.antt =====
-- runNodeSetup of cmd/sit/node_setup.go: the file that it leaves for the node.
use sit.Prelude.{
  ℕ, Text, text, ◌≡◌, refl, ◌==◌, Bool, false, Option, some, List, inl, inr, suc, ◌<◌, Option-cases,
  ◌∙◌, eq_refl,
}
use sit.Prelude.Int.{two_63}
use sit.Node.Config.{parse_config, scan_lines}
use sit.Node.Config.Lines.{IsValue}
use sit.Setup.ConfigFile.{written, parse-written_config}
use sit.Exec.{ok, err, io, pure, ◌>>=◌}
use sit.Exec.Keeps.{Keeps, keeps_rules}
use sit.Exec.Gives.{Gives, Gives-later, Gives-now, Result-cases}
use sit.Setup.{Options, node_config_body}
use sit.Setup.Host.{
  Host, System, Files, Event, call, say, run, command_ok, command_output, make_dirs, change_mode,
  write_file, read_file, exists, set_file, ran, unchanged, wrote,
}
use sit.Setup.Prompts.{read_string, confirm_overwrite}
use sit.Setup.Files.{write_node_config, enroll_as_user, is_enrolled}
use sit.Setup.Services.{write_node_service, write_launchd_plist, install_launch_daemon}
use sit.Setup.Flow.{install, ask_options, check_host, run_node_setup}

-- the file at a path
pub record Holds (path : Text) (body : Option Text) (h : Host) : Type 0 where
  pub holds : h.files path ≡ body

module _ (sys : System) (path : Text) (body : Option Text)
    (spared : (words : List Text) (files : Files) → sys.effect words files path ≡ files path) where
  Keeps-call :
      (e : Event) (f : Files → Files)
      → ((files : Files) → f files path ≡ files path)
      → Keeps (Holds path body) (call e f)
  unfolding call
  Keeps-call e f same = record { at = kept }
    where
      kept : (h : Host) → Holds path body h → Holds path body (call e f h).1
      kept h k = elim (Option-cases (h.outcomes h.calls)) [
        | inl n ↦ record { holds = rw n k.holds }
        | inr (out, n) ↦ record { holds = rw n (same h.files ∙ k.holds) }
      ]

  Keeps-say : (s : Text) → Keeps (Holds path body) (say s)
  unfolding say
  Keeps-say s = record { at = λ h k. record { holds = k.holds } }

  Keeps-read_string : Keeps (Holds path body) read_string
  unfolding read_string
  Keeps-read_string = record { at = λ h k. record { holds = k.holds } }

  Keeps-ran : (words : List Text) → Keeps (Holds path body) (call (ran words) (sys.effect words))
  Keeps-ran words = Keeps-call (ran words) (sys.effect words) (spared words)

  Keeps-unchanged : (e : Event) → Keeps (Holds path body) (call e unchanged)
  Keeps-unchanged e = Keeps-call e unchanged (λ files. refl)

  ruleset host_rules = (Keeps-say, Keeps-read_string, Keeps-ran, Keeps-unchanged)

  Keeps-run : (words : List Text) → Keeps (Holds path body) (run sys words)
  unfolding run
  Keeps-run words = search (keeps_rules, host_rules) depth 12

  Keeps-command_ok : (words : List Text) → Keeps (Holds path body) (command_ok sys words)
  unfolding command_ok command_output
  Keeps-command_ok words = search (keeps_rules, host_rules) depth 12

  Keeps-make_dirs : (p : Text) (mode : ℕ) → Keeps (Holds path body) (make_dirs p mode)
  unfolding make_dirs
  Keeps-make_dirs p mode = search (keeps_rules, host_rules) depth 12

  Keeps-change_mode : (p : Text) (mode : ℕ) → Keeps (Holds path body) (change_mode p mode)
  unfolding change_mode
  Keeps-change_mode p mode = search (keeps_rules, host_rules) depth 12

  Keeps-exists : (p : Text) → Keeps (Holds path body) (exists p)
  unfolding exists
  Keeps-exists p = search (keeps_rules, host_rules) depth 12

  Keeps-confirm_overwrite :
      (assume_yes : Bool) (p : Text) → Keeps (Holds path body) (confirm_overwrite assume_yes p)
  unfolding confirm_overwrite
  Keeps-confirm_overwrite assume_yes p = search (keeps_rules, host_rules, Keeps-exists) depth 20

  Keeps-write_file :
      (p text : Text) (mode : ℕ)
      → (p == path) ≡ false
      → Keeps (Holds path body) (write_file p text mode)
  unfolding write_file
  Keeps-write_file p text mode other =
      search
        (keeps_rules, Keeps-call (wrote p mode) (set_file p (some text)) (λ files. rw other refl))
        depth 12

  Keeps-read_file : (p : Text) → Keeps (Holds path body) (read_file p)
  unfolding read_file
  Keeps-read_file p = search (keeps_rules, host_rules) depth 12

  ruleset system_rules = (
    Keeps-say, Keeps-run, Keeps-command_ok, Keeps-make_dirs, Keeps-change_mode,
    Keeps-confirm_overwrite, Keeps-read_file,
  )

  Keeps-enroll_as_user :
      (user bin token endpoint state_dir : Text)
      → Keeps (Holds path body) (enroll_as_user sys user bin token endpoint state_dir)
  unfolding enroll_as_user is_enrolled
  Keeps-enroll_as_user user bin token endpoint state_dir =
      search (keeps_rules, system_rules) depth 20

  Keeps-write_node_service :
      (assume_yes : Bool) (p user bin config : Text)
      → (p == path) ≡ false
      → Keeps (Holds path body) (write_node_service assume_yes p user bin config)
  unfolding write_node_service
  Keeps-write_node_service assume_yes p user bin config other =
      search (keeps_rules, system_rules, Keeps-write_file) depth 20

  Keeps-install_launch_daemon :
      (assume_yes : Bool) (o : Options)
      → (o.service_path == path) ≡ false
      → Keeps (Holds path body) (install_launch_daemon sys assume_yes o)
  unfolding install_launch_daemon write_launchd_plist
  Keeps-install_launch_daemon assume_yes o other =
      search (keeps_rules, system_rules, Keeps-write_file) depth 30

-- nothing that a command does changes the file at a path
abbrev pub Spares : System → Text → Type 0
Spares sys path = (words : List Text) (files : Files) → sys.effect words files path ≡ files path

pub write_file-Gives :
    (path body : Text) (mode : ℕ) → Gives (Holds path (some body)) (write_file path body mode)
unfolding write_file call
write_file-Gives path body mode =
    Gives-now (call (wrote path mode) (set_file path (some body))) (λ _. pure tt) written
      (λ _. search keeps_rules)
  where
    written : Gives (Holds path (some body)) (call (wrote path mode) (set_file path (some body)))
    written = record {
      at = λ h out e. elim (Option-cases (h.outcomes h.calls)) [
        | inl n ↦ let bad : err io ≡ ok out = rw n at e in cc
        | inr (o, n) ↦ record { holds = rw (n, eq_refl path) refl }
      ];
    }

write_node_config-Gives :
    (assume_yes : Bool) (path state_dir endpoint : Text) (heartbeat : ℕ)
    → Gives
        (Holds path (some (node_config_body endpoint state_dir heartbeat)))
        (write_node_config assume_yes path state_dir endpoint heartbeat)
unfolding write_node_config
write_node_config-Gives assume_yes path state_dir endpoint heartbeat =
    Gives-later _ _ λ _. Gives-later _ _ λ _. write_file-Gives path _ _

install-Gives :
    (sys : System) (o : Options)
    → Spares sys o.config_path
    → (o.service_path == o.config_path) ≡ false
    → Gives
        (Holds o.config_path (some (node_config_body o.wss_endpoint o.state_dir o.heartbeat_sec)))
        (install sys o)
unfolding install
install-Gives sys o spared other = Gives-later _ _ λ _.
    Gives-now _ _
      (write_node_config-Gives o.assume_yes o.config_path o.state_dir o.wss_endpoint
        o.heartbeat_sec)
      (λ _.
        search
          (
            keeps_rules,
            Keeps-say sys o.config_path _ spared,
            Keeps-run sys o.config_path _ spared,
            Keeps-enroll_as_user sys o.config_path _ spared,
            Keeps-write_node_service sys o.config_path _ spared,
            Keeps-install_launch_daemon sys o.config_path _ spared,
          )
          depth 20)

-- A setup that succeeds leaves at the path of the node's configuration, for the answers it was given,
-- a file that the node loads as their WSS endpoint, state directory and heartbeat period, with
-- certificates checked: where no command that it runs changes that file, the service file is another
-- one, the endpoint and the directory stand on one line without spaces or quotes at their ends, and
-- the period is positive and below 2^63.
pub run_node_setup_configures :
    (sys : System) (o answers : Options) (n : ℕ) (h : Host)
    → (ask_options sys o h).0 ≡ ok answers
    → Spares sys answers.config_path
    → (answers.service_path == answers.config_path) ≡ false
    → IsValue answers.wss_endpoint
    → IsValue answers.state_dir
    → answers.heartbeat_sec ≡ suc n
    → suc n < two_63
    → (run_node_setup sys o h).0 ≡ ok tt
    → (body : Text) × ((run_node_setup sys o h).1.files answers.config_path ≡ some body)
      × (parse_config (scan_lines body) false
          ≡ ok (written answers.wss_endpoint answers.state_dir (suc n)))
unfolding run_node_setup ◌>>=◌
run_node_setup_configures sys o answers n h asked spared other e d period small done =
    elim (Result-cases (check_host sys)) [
      | inr (x, bad) ↦ let no : err x ≡ ok tt = rw bad at done in cc
      | inl (u, good) ↦
          let done' : (install sys answers (ask_options sys o h).1).0 ≡ ok tt =
            rw (good, asked) at done in
          (
            node_config_body answers.wss_endpoint answers.state_dir answers.heartbeat_sec,
            rw (good, asked)
                ((install-Gives sys answers spared other).at (ask_options sys o h).1 tt
                  done').holds,
            rw period (parse-written_config answers.wss_endpoint answers.state_dir n e d small),
          )
    ]
