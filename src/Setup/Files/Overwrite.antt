-- ===== src/Setup/Files/Overwrite.antt =====
-- confirmOverwrite of cmd/sit/node_setup.go: which files the setup leaves alone.
use sit.Prelude.{Text, ◌≡◌, refl, Bool, true, false, Option-cases, inl, inr, has}
use sit.Exec.{Error, Result, ok, err, Exec, io, refusing, ◌>>=◌}
use sit.Exec.Gives.{Result-cases}
use sit.Setup.Host.{Host, Input, call, say, exists}
use sit.Setup.Prompts.{read_string, next_line, confirm_overwrite, is_yes}
use sit.Setup.Files.{write_node_config}
use sit.Setup.Services.{write_node_service, write_launchd_plist}
use sit.Setup.{Options}

abbrev yes_in : Result (Text × Bool) → Bool
yes_in (ok (s, ended)) = is_yes s
yes_in (err e) = false

-- whether the next answer is "y" or "yes"
abbrev pub says_yes : Input → Bool
says_yes input = yes_in (next_line input.lines input.ending)

-- The action fails and leaves every file as it is.
abbrev pub Refuses : {A : Type 0} → (Result A × Host) → Host → Type 0
Refuses (r, after) h = ((e : Error) × (r ≡ err e)) × (after.files ≡ h.files)

confirm_overwrite_lem :
    (path : Text) (h : Host)
    → has (h.files path) ≡ true
    → says_yes h.input ≡ false
    → Refuses (confirm_overwrite false path h) h
unfolding confirm_overwrite exists call say read_string ◌>>=◌
confirm_overwrite_lem path h there denied = elim (Option-cases (h.outcomes h.calls)) [
  | inl n ↦ rw n ((io, refl), refl)
  | inr (out, n) ↦
      rw (n, there)
        (elim (Result-cases (next_line h.input.lines h.input.ending)) [
          | inr (e, k) ↦ rw k ((e, refl), refl)
          | inl ((s, ended), k) ↦
              let not_yes : is_yes s ≡ false = rw k at denied in
              rw (k, not_yes) ((refusing, refl), refl)
        ])
]

Refuses-bind :
    {A B : Type 0} (act : Exec Host A) (next : A → Exec Host B) (h : Host)
    → Refuses (act h) h
    → Refuses ((act >>= next) h) h
unfolding ◌>>=◌
Refuses-bind act next h ((e, r), same) = rw r ((e, refl), same)

-- Without --yes, where the answer to the question is not "y" or "yes" in letters of either case, no
-- write of a managed file that exists goes on, be it node.yaml, the systemd unit or the launchd
-- property list: it ends with an error and every file is as it was.
pub no_overwrite :
    (o : Options) (path : Text) (h : Host)
    → has (h.files path) ≡ true
    → says_yes h.input ≡ false
    → Refuses (write_node_config false path o.state_dir o.wss_endpoint o.heartbeat_sec h) h
      × Refuses (write_node_service false path o.user o.bin_path o.config_path h) h
      × Refuses (write_launchd_plist false (record o { service_path = path }) h) h
unfolding write_node_config write_node_service write_launchd_plist
no_overwrite o path h there denied =
    let stop = confirm_overwrite_lem path h there denied in
    (Refuses-bind _ _ h stop, Refuses-bind _ _ h stop, Refuses-bind _ _ h stop)
