-- ===== src/Setup/Services.antt =====
-- The systemd unit and the launchd property list of cmd/sit/node_setup.go.
use sit.Prelude.{Text, text, Bool, List, [], ◌∷◌, ◌++◌, if◌then◌else◌}
use sit.Exec.{Exec, pure, ◌>>=◌, ◌>>◌}
use sit.Setup.{Options}
use sit.Setup.Paths.{dir}
use sit.Setup.Host.{
  Host, System, run, command_ok, make_dirs, change_mode, write_file, all_enter, all_read,
}
use sit.Setup.Prompts.{confirm_overwrite}

-- the pieces of a text in order
abbrev pub concat : List Text → Text
concat [] = []
concat (s ∷ ss) = s ++ concat ss

unfoldable pub unit_body : Text → Text → Text → Text
unit_body user bin config = concat (
    text "[Unit]\nDescription=SIT Node\nDocumentation=https://github.com/lhanlhanlhan/sit\n"
    ∷ text "After=network-online.target\nWants=network-online.target\n\n[Service]\nType=simple\n"
    ∷ text "ExecStart="
    ∷ bin
    ∷ text " node --config "
    ∷ config
    ∷ text "\nRestart=always\nRestartSec=5\nUser="
    ∷ user
    ∷ text "\nGroup="
    ∷ user
    ∷ text "\n\n[Install]\nWantedBy=multi-user.target\n"
    ∷ [])

abbrev pub launchd_label : Text
launchd_label = text "com.meating.sit"

-- the service's name for launchctl
abbrev target : Text
target = text "system/" ++ launchd_label

unfoldable pub launchd_plist_body : Text → Text → Text → Text → Text → Text
launchd_plist_body user group bin config log_dir = concat (
    text "<?xml version=\"1.0\" encoding=\"UTF-8\"?>\n"
    ∷ text "<!DOCTYPE plist PUBLIC \"-//Apple//DTD PLIST 1.0//EN\" "
    ∷ text "\"http://www.apple.com/DTDs/PropertyList-1.0.dtd\">\n"
    ∷ text "<plist version=\"1.0\">\n<dict>\n    <key>Label</key>\n    <string>"
    ∷ launchd_label
    ∷ text "</string>\n    <key>ProgramArguments</key>\n    <array>\n        <string>"
    ∷ bin
    ∷ text "</string>\n        <string>node</string>\n        <string>--config</string>\n"
    ∷ text "        <string>"
    ∷ config
    ∷ text "</string>\n    </array>\n    <key>UserName</key>\n    <string>"
    ∷ user
    ∷ text "</string>\n    <key>GroupName</key>\n    <string>"
    ∷ group
    ∷ text
        "</string>\n    <key>RunAtLoad</key>\n    <true/>\n    <key>KeepAlive</key>\n    <true/>\n"
    ∷ text "    <key>ThrottleInterval</key>\n    <integer>5</integer>\n"
    ∷ text "    <key>StandardOutPath</key>\n    <string>"
    ∷ log_dir
    ∷ text "/node.log</string>\n    <key>StandardErrorPath</key>\n    <string>"
    ∷ log_dir
    ∷ text "/node.err.log</string>\n</dict>\n</plist>\n"
    ∷ [])

-- the three steps of writeNodeService and writeLaunchdPlist
write_managed : Bool → Text → Text → Exec Host (Unit {0})
write_managed assume_yes path body = do
  confirm_overwrite assume_yes path
  make_dirs (dir path) all_enter
  write_file path body all_read

unfoldable pub write_node_service : Bool → Text → Text → Text → Text → Exec Host (Unit {0})
unfolding write_managed
write_node_service assume_yes path user bin config =
    write_managed assume_yes path (unit_body user bin config)

unfoldable pub write_launchd_plist : Bool → Options → Exec Host (Unit {0})
unfolding write_managed
write_launchd_plist assume_yes o =
    write_managed assume_yes o.service_path
      (launchd_plist_body o.user o.group o.bin_path o.config_path o.log_dir)

module _ (sys : System) where
  launchctl : List Text → Exec Host (Unit {0})
  launchctl args = run sys (text "launchctl" ∷ args)

  -- a daemon that is loaded is stopped first
  restart : Text → Exec Host (Unit {0})
  unfolding launchctl
  restart path = do
    loaded ← command_ok sys (text "launchctl" ∷ text "print" ∷ target ∷ [])
    if loaded then launchctl (text "bootout" ∷ text "system" ∷ path ∷ []) else pure tt
    launchctl (text "bootstrap" ∷ text "system" ∷ path ∷ [])
    launchctl (text "enable" ∷ target ∷ [])
    launchctl (text "kickstart" ∷ text "-k" ∷ target ∷ [])

  unfoldable pub install_launch_daemon : Bool → Options → Exec Host (Unit {0})
  unfolding restart
  install_launch_daemon assume_yes o = do
    write_launchd_plist assume_yes o
    run sys (text "chown" ∷ text "root:wheel" ∷ o.service_path ∷ [])
    change_mode o.service_path all_read
    restart o.service_path
