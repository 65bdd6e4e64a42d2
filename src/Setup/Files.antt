-- ===== src/Setup/Files.antt =====
-- installSelf, the directories and node.yaml of cmd/sit/node_setup.go.
pub mod Overwrite
use sit.Prelude.{
  ℕ, zero, suc, ◌+◌, Text, text, ◌==◌, Bool, true, false, ◌||◌, Option, none, some, List, [], ◌∷◌,
  ◌++◌, nat_eq, is_empty, if◌then◌else◌,
}
use sit.Strings.{trim_space, has_prefix}
use sit.Exec.{
  Result, ok, err, Exec, io, pure, fail, lift, gets, attempt, modify, ignore, ◌>>=◌, ◌>>◌,
}
use sit.Setup.{node_config_body, identity_has_secret}
use sit.Setup.Paths.{Clean, clean, path_text, parent_of, dir, join}
use sit.Setup.Host.{
  Host, System, Files, say, run, command_ok, command_output, make_dirs, change_mode, write_file,
  read_file, copy, rename, all_enter, all_read, owner_only, output_of,
}
use sit.Setup.Prompts.{confirm_overwrite}

-- p == root || HasPrefix(p, root + "/")
abbrev is_within : Text → Text → Bool
is_within root p = p == root || has_prefix (root ++ 47 ∷ []) p

-- The loop of ensureDirParents, on the names of the clean path p: its parent has one name less, and
-- "/" and "." have none.
unfoldable pub open_parents : Text → Bool → List Text → Exec Host (Unit {0})
open_parents root is_rooted [] = pure tt
open_parents root is_rooted (n ∷ ns) =
    let p = path_text (record { is_rooted = is_rooted; names = n ∷ ns }) in
    let rest = open_parents root is_rooted ns in
    do
      if is_within root p then change_mode p all_enter else pure tt
      if p == root then pure tt else rest

unfoldable pub ensure_dir_parents : Text → Text → Exec Host (Unit {0})
ensure_dir_parents path repair_root =
    let parent = parent_of (path_text (clean path)) in
    do
      make_dirs (path_text parent) all_enter
      open_parents (path_text (clean repair_root)) parent.is_rooted parent.names

unfoldable pub ensure_darwin_dir_parents : Text → Exec Host (Unit {0})
ensure_darwin_dir_parents path = ensure_dir_parents path (text "/usr/local/var")

-- the group that `id -gn` names, or the user's name
abbrev group_or : Text → Option Text → Text
group_or user none = user
group_or user (some g) = if is_empty (trim_space g) then user else trim_space g

module _ (sys : System) where
  chown : Text → Text → Text → Exec Host (Unit {0})
  chown user group path = run sys (text "chown" ∷ text "-R" ∷ (user ++ 58 ∷ group) ∷ path ∷ [])

  unfoldable pub ensure_owned_dir : Text → Text → Exec Host (Unit {0})
  unfolding chown
  ensure_owned_dir path user = do
    make_dirs path owner_only
    g ← attempt (command_output sys (text "id" ∷ text "-gn" ∷ user ∷ []))
    chown user (group_or user (output_of g)) path
    change_mode path owner_only

  unfoldable pub ensure_owned_dir_for_group : Text → Text → Text → ℕ → Exec Host (Unit {0})
  unfolding chown
  ensure_owned_dir_for_group path user group mode = do
    ensure_darwin_dir_parents path
    make_dirs path mode
    chown user group path
    change_mode path mode

  -- the executable's path, with its links followed
  abbrev executable_path : Option Text → Result Text
  executable_path none = err io
  executable_path (some p) = ok (sys.eval_symlinks p)

  copy_self : Text → Text → Exec Host (Unit {0})
  copy_self source dest = do
    make_dirs (dir dest) all_enter
    copy source (dest ++ text ".tmp")
    rename (dest ++ text ".tmp") dest
    say (text "sit setup: installed binary to " ++ dest ++ text "\n")

  unfoldable pub install_self : Text → Exec Host (Unit {0})
  unfolding copy_self
  install_self dest = do
    source ← lift (executable_path sys.executable)
    if source == sys.eval_symlinks (sys.absolute dest)
        then say (text "sit setup: binary already installed at " ++ dest ++ text "\n")
        else copy_self source dest

  -- the file identity.json of a state directory
  abbrev pub identity_path : Text → Text
  identity_path state_dir = join state_dir (text "identity.json")

  unfoldable pub is_enrolled : Text → Exec Host Bool
  is_enrolled state_dir = do f ← read_file (identity_path state_dir); pure (identity_has_secret f)

  enroll_args : Text → Text → Text → Text → List Text
  enroll_args bin token endpoint state_dir =
      bin
      ∷ text "node"
      ∷ text "enroll"
      ∷ text "--token"
      ∷ token
      ∷ text "--endpoint"
      ∷ endpoint
      ∷ text "--state-dir"
      ∷ state_dir
      ∷ []

  enroll_by : Bool → Text → List Text → Exec Host (Unit {0})
  enroll_by has_runuser user args =
      if has_runuser
      then run sys (text "runuser" ∷ text "-u" ∷ user ∷ text "--" ∷ args)
      else run sys (text "sudo" ∷ text "-u" ∷ user ∷ args)

  new_enrollment : Text → List Text → Exec Host (Unit {0})
  unfolding enroll_by
  new_enrollment user args = do
    has_runuser ←
        if sys.goos == text "linux"
        then command_ok sys (text "runuser" ∷ text "--help" ∷ [])
        else pure false
    enroll_by has_runuser user args

  unfoldable pub enroll_as_user : Text → Text → Text → Text → Text → Exec Host (Unit {0})
  unfolding new_enrollment enroll_args
  enroll_as_user user bin token endpoint state_dir = do
    enrolled ← is_enrolled state_dir
    if enrolled
        then say (text "sit setup: node identity already enrolled\n")
        else new_enrollment user (enroll_args bin token endpoint state_dir)

unfoldable pub write_node_config : Bool → Text → Text → Text → ℕ → Exec Host (Unit {0})
write_node_config assume_yes path state_dir endpoint heartbeat = do
  confirm_overwrite assume_yes path
  make_dirs (dir path) all_enter
  write_file path (node_config_body endpoint state_dir heartbeat) all_read
