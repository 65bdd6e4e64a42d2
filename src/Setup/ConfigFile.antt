-- ===== src/Setup/ConfigFile.antt =====
-- writeNodeConfig of cmd/sit/node_setup.go and parseConfig of internal/node/config.go.
use sit.Prelude.{
  ◌==◌, suc, ℕ, ◌<◌, Text, text, ◌≡◌, refl, true, false, List, [], ◌∷◌, ◌++◌, nat_eq, ap, ◌∙◌,
  All-append,
}
use sit.Prelude.Int.{two_63}
use sit.Strings.{cut, trim_quotes, is_quote, is_space, split_lines, trim_space, has_prefix}
use sit.Strings.Laws.{Free, is_free, is_free→Free, split-line, Free-first_ok, Free-last_ok}
use sit.Exec.{ok}
use sit.Decimal.{show-filled, show, atoi-show, show_plain}
use sit.Node.Config.{Config, Parsing, initial, scan_lines, parse_line, parse_config}
use sit.Node.Config.Lines.{IsValue, endpoint_line, state_dir_line, heartbeat_line, drop_cr_id}
use sit.Setup.{node_config_body}

abbrev pub written : Text → Text → ℕ → Config
written endpoint dir hb = record {
  endpoints = endpoint ∷ [];
  state_dir = dir;
  heartbeat_sec = hb;
  insecure_skip_verify = false;
}

line-Free :
    (k v : Text) → is_free (nat_eq 10) k ≡ true → Free (nat_eq 10) v → Free (nat_eq 10) (k ++ v)
line-Free k v h f = All-append (λ c. nat_eq 10 c ≡ false) k v (is_free→Free (nat_eq 10) k h) f

show-IsValue : (n : ℕ) → IsValue (show n)
show-IsValue n = record {
  filled = show-filled n;
  one_line = (show_plain n).2;
  first_space = Free-first_ok is_space (show n) (show_plain n).0;
  last_space = Free-last_ok is_space (show n) (show_plain n).0;
  first_quote = Free-first_ok is_quote (show n) (show_plain n).1;
  last_quote = Free-last_ok is_quote (show n) (show_plain n).1;
}

module _ (endpoint dir : Text) (n : ℕ) (e : IsValue endpoint) (d : IsValue dir) where
  abbrev lines : List Text
  lines =
      text "endpoints:"
      ∷ (text "  - " ++ endpoint)
      ∷ (text "state_dir: " ++ dir)
      ∷ (text "heartbeat_sec: " ++ show n)
      ∷ text "insecure_skip_verify: false"
      ∷ []

  abbrev last_line : Text
  last_line = text "insecure_skip_verify: false\n"

  abbrev from_heartbeat : Text
  from_heartbeat = text "heartbeat_sec: " ++ (show n ++ text "\ninsecure_skip_verify: false\n")

  abbrev from_state_dir : Text
  from_state_dir = text "state_dir: " ++ (dir ++ 10 ∷ from_heartbeat)

  abbrev from_endpoint : Text
  from_endpoint = text "  - " ++ (endpoint ++ 10 ∷ from_state_dir)

  body_lines : split_lines (node_config_body endpoint dir n) ≡ lines ++ [] ∷ []
  unfolding node_config_body
  body_lines =
      split-line (text "endpoints:") from_endpoint
        (is_free→Free (nat_eq 10) (text "endpoints:") refl)
      ∙ ap (λ ls. text "endpoints:" ∷ ls)
          (split-line (text "  - " ++ endpoint) from_state_dir
              (line-Free (text "  - ") endpoint refl e.one_line)
            ∙ ap (λ ls. (text "  - " ++ endpoint) ∷ ls)
                (split-line (text "state_dir: " ++ dir) from_heartbeat
                    (line-Free (text "state_dir: ") dir refl d.one_line)
                  ∙ ap (λ ls. (text "state_dir: " ++ dir) ∷ ls)
                      (split-line (text "heartbeat_sec: " ++ show n) last_line (
                          line-Free (text "heartbeat_sec: ") (show n) refl
                            (show-IsValue n).one_line)
                        ∙ ap (λ ls. (text "heartbeat_sec: " ++ show n) ∷ ls)
                            (unfold split_lines in refl))))

  scanned : scan_lines (node_config_body endpoint dir n) ≡ lines
  unfolding scan_lines
  scanned =
      rw
        (
          body_lines,
          drop_cr_id endpoint e.last_space,
          drop_cr_id dir d.last_space,
          drop_cr_id (show n) (show-IsValue n).last_space,
        )
        refl

abbrev with_endpoint : Text → Parsing
with_endpoint endpoint = record initial {
  config = record initial.config { endpoints = endpoint ∷ [] };
  in_endpoints = true;
}

abbrev with_dir : Text → Text → Parsing
with_dir endpoint dir = record initial {
  config = record initial.config { endpoints = endpoint ∷ []; state_dir = dir };
}

endpoints_line :
    parse_line (trim_space (text "endpoints:")) initial ≡ record initial { in_endpoints = true }
unfolding parse_line trim_space is_space has_prefix cut trim_quotes ◌==◌
endpoints_line = refl

insecure_line :
    (c : Config)
    → parse_line
        (trim_space (text "insecure_skip_verify: false"))
        (record { config = c; in_endpoints = false })
      ≡ record { config = record c { insecure_skip_verify = false }; in_endpoints = false }
unfolding parse_line trim_space is_space has_prefix cut trim_quotes ◌==◌
insecure_line c = refl

-- The file that setup writes for an endpoint, a directory and a positive period below 2^63 is
-- loaded as that configuration, with certificates checked; the endpoint and the directory must be
-- values that stand on one line without spaces or quotes at their ends.
pub parse-written_config :
    (endpoint dir : Text) (n : ℕ)
    → IsValue endpoint
    → IsValue dir
    → suc n < two_63
    → parse_config (scan_lines (node_config_body endpoint dir (suc n))) false
      ≡ ok (written endpoint dir (suc n))
unfolding parse_config
parse-written_config endpoint dir n e d l =
    rw
      (
        scanned endpoint dir (suc n) e d,
        endpoints_line,
        endpoint_line endpoint (record initial { in_endpoints = true }) e refl,
        state_dir_line dir (with_endpoint endpoint) d,
        heartbeat_line (show (suc n)) n (with_dir endpoint dir) (show-IsValue (suc n))
            (atoi-show (suc n) l),
        insecure_line (written endpoint dir (suc n)),
      )
      refl
