-- ===== src/Strings.antt =====
-- The functions of Go's package strings that the program calls, on texts as code points.
pub mod Laws
use sit.Prelude.{
  ℕ, zero, suc, Text, text, Bool, true, false, ◌&&◌, ◌||◌, Option, none, some, List, [], ◌∷◌, ◌++◌,
  leb, nat_eq, is_empty, ◌==◌, if◌then◌else◌,
}

-- unicode.IsSpace
unfoldable pub is_space : ℕ → Bool
is_space c =
    (leb 9 c && leb c 13)
    || nat_eq c 32
    || nat_eq c 0x85
    || nat_eq c 0xa0
    || nat_eq c 0x1680
    || (leb 0x2000 c && leb c 0x200a)
    || nat_eq c 0x2028
    || nat_eq c 0x2029
    || nat_eq c 0x202f
    || nat_eq c 0x205f
    || nat_eq c 0x3000

unfoldable pub trim_left : (ℕ → Bool) → Text → Text
trim_left p [] = []
trim_left p (c ∷ s) = let rest = trim_left p s in if p c then rest else c ∷ s

unfoldable pub trim_right : (ℕ → Bool) → Text → Text
trim_right p [] = []
trim_right p (c ∷ s) = let rest = trim_right p s in if p c && is_empty rest then [] else c ∷ rest

-- TrimSpace
unfoldable pub trim_space : Text → Text
unfolding trim_left trim_right
trim_space s = trim_right is_space (trim_left is_space s)

abbrev pub is_quote : ℕ → Bool
is_quote c = nat_eq c 34 || nat_eq c 39

-- Trim(s, `"'`)
unfoldable pub trim_quotes : Text → Text
unfolding trim_left trim_right
trim_quotes s = trim_right is_quote (trim_left is_quote s)

abbrev pub is_slash : ℕ → Bool
is_slash c = nat_eq c 47

-- TrimRight(s, "/")
unfoldable pub trim_right_slash : Text → Text
unfolding trim_right
trim_right_slash = trim_right is_slash

-- the text behind a prefix, where the text has it
unfoldable pub after_prefix : Text → Text → Option Text
after_prefix [] s = some s
after_prefix (c ∷ p) [] = none
after_prefix (c ∷ p) (x ∷ s) = let rest = after_prefix p s in if nat_eq c x then rest else none

-- HasPrefix
unfoldable pub has_prefix : Text → Text → Bool
unfolding after_prefix
has_prefix p s = elim (after_prefix p s) [ none ↦ false | some rest ↦ true ]

-- TrimPrefix
unfoldable pub trim_prefix : Text → Text → Text
unfolding after_prefix
trim_prefix p s = elim (after_prefix p s) [ none ↦ s | some rest ↦ rest ]

push_front : ℕ → Option (Text × Text) → Option (Text × Text)
push_front x none = none
push_front x (some (a, b)) = some (x ∷ a, b)

-- Cut at a separator of one character
unfoldable pub cut : ℕ → Text → Option (Text × Text)
unfolding push_front
cut sep [] = none
cut sep (x ∷ s) = let rest = cut sep s in if nat_eq x sep then some ([], s) else push_front x rest

-- Split(s, "\n"): never empty
abbrev pub cons_first : ℕ → List Text → List Text
cons_first c [] = (c ∷ []) ∷ []
cons_first c (l ∷ ls) = (c ∷ l) ∷ ls

unfoldable pub split_lines : Text → List Text
split_lines [] = [] ∷ []
split_lines (c ∷ s) =
    let rest = split_lines s in if nat_eq c 10 then [] ∷ rest else cons_first c rest

-- HasSuffix
unfoldable pub has_suffix : Text → Text → Bool
has_suffix p [] = [] == p
has_suffix p (c ∷ s) = let rest = has_suffix p s in (c ∷ s) == p || rest
