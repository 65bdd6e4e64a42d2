-- ===== src/Manager/Config.antt =====
-- internal/manager/config.go: the Manager's configuration file, on the scanner's lines.
use sit.Prelude.{
  ◌≡◌, refl, Text, text, ◌==◌, Bool, false, ◌||◌, Option, none, some, List, [], ◌∷◌, is_empty,
  if◌then◌else◌,
}
use sit.Strings.{split_lines, is_space, trim_space, trim_quotes, cut, has_prefix}
use sit.Exec.{Result, ok, err, io}
use sit.Node.Config.{scan_lines}

pub record Config : Type 0 where
  pub listen_wss : Text
  pub listen_api : Text
  pub store_path : Text
  pub tls_cert_file : Text
  pub tls_key_file : Text
  pub admin_user : Text
  pub admin_password : Text
  pub mcp_token : Text

abbrev pub default_config : Config
default_config = record {
  listen_wss = text ":443";
  listen_api = text ":8443";
  store_path = text "/var/lib/sit/manager.db";
  tls_cert_file = [];
  tls_key_file = [];
  admin_user = [];
  admin_password = [];
  mcp_token = [];
}

unfoldable pub set_key : Text → Text → Config → Config
set_key key val c =
    if key == text "listen_wss"
    then record c { listen_wss = val }
    else if key == text "listen_api"
    then record c { listen_api = val }
    else if key == text "store_path"
    then record c { store_path = val }
    else if key == text "tls_cert_file"
    then record c { tls_cert_file = val }
    else if key == text "tls_key_file"
    then record c { tls_key_file = val }
    else if key == text "admin_user"
    then record c { admin_user = val }
    else if key == text "admin_password"
    then record c { admin_password = val }
    else if key == text "mcp_token"
    then record c { mcp_token = val }
    else c

set_pair : Option (Text × Text) → Config → Config
set_pair none c = c
set_pair (some (key, val)) c = set_key (trim_space key) (trim_quotes (trim_space val)) c

-- one trimmed line
unfoldable pub read_line : Text → Config → Config
unfolding set_pair
read_line line c =
    if is_empty line || has_prefix (text "#") line then c else set_pair (cut 58 line) c

unfoldable pub read_lines : List Text → Config → Config
read_lines [] c = c
read_lines (l ∷ ls) c = read_lines ls (read_line (trim_space l) c)

-- `none` where the file cannot be opened; `failed` is the scanner's error, beside which Go's caller
-- gets what was read, and reads none of it.
unfoldable pub load_config : Option Text → Bool → Result Config
load_config none failed = err io
load_config (some body) failed =
    if failed then err io else ok (read_lines (scan_lines body) default_config)

load_config_runs :
    load_config (some (text "# sit\nlisten_api: ':9000'\nmcp_token: t\nother: x\n")) false
    ≡ ok (record default_config { listen_api = text ":9000"; mcp_token = text "t" })
unfolding load_config read_lines read_line set_pair set_key ◌==◌ scan_lines trim_space trim_quotes
    cut has_prefix split_lines is_space
load_config_runs = refl
