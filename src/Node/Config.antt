-- ===== src/Node/Config.antt =====
-- internal/node/config.go: node.yaml, a small subset of YAML. The scanner's lines are the input.
pub mod Lines
use sit.Prelude.{
  ℕ, zero, suc, ◌+◌, ◌*◌, ◌-◌, ◌/◌, ◌%◌, Text, text, ◌==◌, Bool, true, false, ◌&&◌, ◌||◌, Option,
  none, some, List, [], ◌∷◌, ◌++◌, is_empty, leb, ltb, nat_eq, if◌then◌else◌,
}
use sit.Prelude.Int.{ℤ, pos, negsuc, is_pos, two_63}
use sit.Strings.{trim_space, trim_quotes, has_prefix, trim_prefix, cut, split_lines}
use sit.Exec.{Result, ok, err, io}

pub record Config : Type 0 where
  pub endpoints : List Text
  pub state_dir : Text
  pub heartbeat_sec : ℕ
  pub insecure_skip_verify : Bool

abbrev pub default_heartbeat_sec : ℕ
default_heartbeat_sec = 30

-- strconv: digits in base ten, none of them missing
abbrev pub is_digit : ℕ → Bool
is_digit c = leb 48 c && leb c 57

unfoldable pub digits_from : ℕ → Text → Option ℕ
digits_from n [] = some n
digits_from n (c ∷ s) =
    let rest = digits_from (n * 10 + (c - 48)) s in if is_digit c then rest else none

unfoldable pub parse_digits : Text → Option ℕ
unfolding digits_from
parse_digits [] = none
parse_digits (c ∷ s) = digits_from 0 (c ∷ s)

-- out of the range of int64 is an error
positive : Option ℕ → Option ℤ
positive none = none
positive (some n) = if ltb n two_63 then some (pos n) else none

negative : Option ℕ → Option ℤ
negative none = none
negative (some zero) = some (pos 0)
negative (some (suc n)) = if ltb n two_63 then some (negsuc n) else none

-- strconv.Atoi
unfoldable pub atoi : Text → Option ℤ
unfolding parse_digits positive negative
atoi [] = none
atoi (c ∷ s) =
    if nat_eq c 43
    then positive (parse_digits s)
    else if nat_eq c 45
    then negative (parse_digits s)
    else positive (parse_digits (c ∷ s))

-- bufio.ScanLines: a last empty line is not one, and a carriage return at the end is dropped
unfoldable pub drop_cr : Text → Text
drop_cr [] = []
drop_cr (c ∷ s) = let rest = drop_cr s in if nat_eq c 13 && is_empty s then [] else c ∷ rest

drop_last_empty : List Text → List Text
drop_last_empty [] = []
drop_last_empty (l ∷ []) = if is_empty l then [] else l ∷ []
drop_last_empty (l ∷ k ∷ ls) = l ∷ drop_last_empty (k ∷ ls)

crs_dropped : List Text → List Text
unfolding drop_cr
crs_dropped [] = []
crs_dropped (l ∷ ls) = drop_cr l ∷ crs_dropped ls

unfoldable pub scan_lines : Text → List Text
unfolding drop_last_empty crs_dropped
scan_lines s = crs_dropped (drop_last_empty (split_lines s))

-- The loop's variables.
pub record Parsing : Type 0 where
  pub config : Config
  pub in_endpoints : Bool

abbrev pub initial : Parsing
initial = record {
  config = record {
    endpoints = [];
    state_dir = [];
    heartbeat_sec = default_heartbeat_sec;
    insecure_skip_verify = false;
  };
  in_endpoints = false;
}

add_endpoint : Text → Config → Config
add_endpoint ep c = if is_empty ep then c else record c { endpoints = c.endpoints ++ ep ∷ [] }

positive_or : ℕ → Option ℤ → ℕ
positive_or d (some (pos (suc n))) = suc n
positive_or d _ = d

set_key : Text → Text → Parsing → Parsing
unfolding positive_or
set_key key val p =
    let c = p.config in
    if key == text "endpoints"
    then record p { in_endpoints = true }
    else if key == text "state_dir"
    then record p { config = record c { state_dir = val } }
    else if key == text "heartbeat_sec"
    then record p { config = record c { heartbeat_sec = positive_or c.heartbeat_sec (atoi val) } }
    else if key == text "insecure_skip_verify"
    then record p { config = record c { insecure_skip_verify = val == text "true" } }
    else p

parse_pair : Option (Text × Text) → Parsing → Parsing
unfolding set_key
parse_pair none p = p
parse_pair (some (key, val)) p = set_key (trim_space key) (trim_quotes (trim_space val)) p

-- one trimmed line
unfoldable pub parse_line : Text → Parsing → Parsing
unfolding add_endpoint parse_pair
parse_line line p =
    if is_empty line || has_prefix (text "#") line
    then p
    else if p.in_endpoints && has_prefix (text "- ") line
    then record p {
      config = add_endpoint (trim_quotes (trim_space (trim_prefix (text "- ") line))) p.config;
    }
    else parse_pair (cut 58 line) (record p { in_endpoints = false })

unfoldable pub parse_lines : List Text → Parsing → Parsing
unfolding parse_line
parse_lines [] p = p
parse_lines (l ∷ ls) p = parse_lines ls (parse_line (trim_space l) p)

-- `failed` is the scanner's error, such as a line that is too long.
unfoldable pub parse_config : List Text → Bool → Result Config
unfolding parse_lines
parse_config lines failed = if failed then err io else ok (parse_lines lines initial).config
