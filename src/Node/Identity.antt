-- ===== src/Node/Identity.antt =====
-- internal/node/identity.go: the identity file's two formats of a line, written and read.
pub mod RoundTrip
pub mod Stored
use sit.Prelude.{
  Text, text, ◌==◌, Bool, Option, none, some, List, [], ◌∷◌, ◌++◌, is_empty, if◌then◌else◌,
}
use sit.Strings.{trim_space, cut, split_lines}

pub record Identity : Type 0 where
  pub node_id : Text
  pub secret : Text

unfoldable pub encode_identity : Identity → Text
encode_identity id =
    text "node_id=" ++ (id.node_id ++ (text "\nsecret=" ++ (id.secret ++ text "\n")))

set_field : Text → Text → Identity → Identity
set_field k v id =
    if k == text "node_id"
    then record id { node_id = v }
    else if k == text "secret"
    then record id { secret = v }
    else id

parse_pair : Option (Text × Text) → Identity → Identity
unfolding set_field
parse_pair none id = id
parse_pair (some (k, v)) id = set_field k v id

parse_line : Text → Identity → Identity
unfolding parse_pair
parse_line line id = if is_empty line then id else parse_pair (cut 61 line) id

parse_lines : List Text → Identity → Identity
unfolding parse_line
parse_lines [] id = id
parse_lines (l ∷ ls) id = parse_lines ls (parse_line (trim_space l) id)

unfoldable pub parse_identity : Text → Identity
unfolding parse_lines
parse_identity b = parse_lines (split_lines b) (record { node_id = []; secret = [] })
