-- ===== src/Setup/Paths.antt =====
-- The functions of Go's package path/filepath that cmd/sit/node_setup.go calls, on paths with
-- slashes.
use sit.Prelude.{
  ◌≡◌, refl, Text, text, ◌==◌, Bool, false, ◌||◌, not, List, [], ◌∷◌, ◌++◌, is_empty, if◌then◌else◌,
}
use sit.Strings.{is_slash, cons_first, trim_right_slash}

-- What Clean leaves of a path: whether it begins with a slash, and its names, the innermost first.
-- A relative path may begin with names "..".
pub record Clean : Type 0 where
  pub is_rooted : Bool
  pub names : List Text

segments : Text → List Text
segments [] = [] ∷ []
segments (c ∷ s) = let rest = segments s in if is_slash c then [] ∷ rest else cons_first c rest

-- the name ".." below the names so far
go_up : Bool → List Text → List Text
go_up is_rooted [] = if is_rooted then [] else text ".." ∷ []
go_up is_rooted (top ∷ below) = if top == text ".." then text ".." ∷ top ∷ below else below

walk : Bool → List Text → List Text → List Text
unfolding go_up
walk is_rooted [] names = names
walk is_rooted (n ∷ ns) names = walk is_rooted ns (
    if is_empty n || n == text "."
    then names
    else if n == text ".."
    then go_up is_rooted names
    else n ∷ names)

abbrev begins_with_slash : Text → Bool
begins_with_slash [] = false
begins_with_slash (c ∷ s) = is_slash c

-- Clean
unfoldable pub clean : Text → Clean
unfolding walk segments
clean s = record {
  is_rooted = begins_with_slash s;
  names = walk (begins_with_slash s) (segments s) [];
}

joined : Bool → List Text → Text
joined is_rooted [] = if is_rooted then text "/" else text "."
joined is_rooted (n ∷ []) = if is_rooted then 47 ∷ n else n
joined is_rooted (n ∷ m ∷ ns) = joined is_rooted (m ∷ ns) ++ 47 ∷ n

unfoldable pub path_text : Clean → Text
unfolding joined
path_text c = joined c.is_rooted c.names

-- the text up to its last slash
up_to_slash : Text → Text
up_to_slash [] = []
up_to_slash (c ∷ s) =
    let rest = up_to_slash s in if is_slash c || not (is_empty rest) then c ∷ rest else []

-- Dir
unfoldable pub parent_of : Text → Clean
unfolding up_to_slash
parent_of s = clean (up_to_slash s)

unfoldable pub dir : Text → Text
dir s = path_text (parent_of s)

last_segment : List Text → Text
last_segment [] = []
last_segment (n ∷ []) = n
last_segment (n ∷ m ∷ ns) = last_segment (m ∷ ns)

-- Base
unfoldable pub base : Text → Text
unfolding last_segment segments
base s =
    if is_empty s
    then text "."
    else if is_empty (trim_right_slash s)
    then text "/"
    else last_segment (segments (trim_right_slash s))

-- Join of two parts, the second not empty
unfoldable pub join : Text → Text → Text
join a b = path_text (clean (if is_empty a then b else a ++ 47 ∷ b))

clean_runs : path_text (clean (text "/a//b/./../c/")) ≡ text "/a/c"
unfolding path_text clean joined walk segments go_up ◌==◌
clean_runs = refl

dir_runs : dir (text "/usr/local/bin/sit") ≡ text "/usr/local/bin"
unfolding dir parent_of path_text clean joined walk segments go_up up_to_slash ◌==◌
dir_runs = refl
