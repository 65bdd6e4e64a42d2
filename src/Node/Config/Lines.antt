-- ===== src/Node/Config/Lines.antt =====
-- Lemmas on the lines of node.yaml that parseConfig reads, one of each kind.
use sit.Prelude.{
  suc, ℕ, Text, text, ◌==◌, ◌≡◌, refl, true, false, some, [], ◌∷◌, ◌++◌, arith, nat_eq, is_empty,
}
use sit.Prelude.Int.{pos}
use sit.Strings.{is_space, is_quote, trim_space, trim_quotes, trim_left, has_prefix, trim_prefix}
use sit.Strings.Laws.{
  is_free→Free, Free, first_ok, last_ok, trim_right_id, trim_space_id, trim_quotes_id, cut-append,
}
use sit.Node.Config.{Parsing, atoi, parse_line, drop_cr}

-- A value that a line can hold: not empty, on one line, with no space or quote at either end.
pub record IsValue (s : Text) : Type 0 where
  pub filled : is_empty s ≡ false
  pub one_line : Free (nat_eq 10) s
  pub first_space : first_ok is_space s ≡ true
  pub last_space : last_ok is_space s ≡ true
  pub first_quote : first_ok is_quote s ≡ true
  pub last_quote : last_ok is_quote s ≡ true

pub value_trims : (s : Text) → IsValue s → trim_quotes (trim_space s) ≡ s
value_trims s v =
    rw (trim_space_id s v.first_space v.last_space) (trim_quotes_id s v.first_quote v.last_quote)

-- a non-empty text with a good end, behind anything
pub last_ok-behind :
    (k s : Text) → is_empty s ≡ false → last_ok is_space s ≡ true → last_ok is_space (k ++ s) ≡ true
last_ok-behind [] s f h = h
last_ok-behind (a ∷ []) [] f h = cc
last_ok-behind (a ∷ []) (x ∷ s) f h = h
last_ok-behind (a ∷ b ∷ k) s f h = last_ok-behind (b ∷ k) s f h

not_cr : (c : ℕ) → is_space c ≡ false → nat_eq c 13 ≡ false
unfolding is_space
not_cr c h = ground arith

last_one : (c : ℕ) → last_ok is_space (c ∷ []) ≡ true → is_space c ≡ false
last_one c h = ground arith

pub drop_cr_id : (s : Text) → last_ok is_space s ≡ true → drop_cr s ≡ s
unfolding drop_cr
drop_cr_id [] h = refl
drop_cr_id (c ∷ []) h = rw (not_cr c (last_one c h)) refl
drop_cr_id (c ∷ d ∷ s) h = rw (drop_cr_id (d ∷ s) h) (ground arith)

trim_space-space : (s : Text) → trim_space (32 ∷ s) ≡ trim_space s
unfolding trim_space trim_left is_space
trim_space-space s = refl

-- An item under `endpoints:`.
pub endpoint_line :
    (e : Text) (p : Parsing)
    → IsValue e
    → p.in_endpoints ≡ true
    → parse_line (trim_space (text "  - " ++ e)) p
      ≡ record p { config = record p.config { endpoints = p.config.endpoints ++ e ∷ [] } }
unfolding parse_line trim_space trim_left is_space has_prefix trim_prefix
endpoint_line e p v i =
    rw
      (
        trim_right_id is_space (text "- " ++ e)
            (last_ok-behind (text "- ") e v.filled v.last_space),
        i,
      )
      (rw (value_trims e v) (rw v.filled refl))

-- The value of a line, as the parser takes it from behind the colon.
behind_colon : (s : Text) → IsValue s → trim_quotes (trim_space (32 ∷ s)) ≡ s
behind_colon s v = rw trim_space-space (value_trims s v)

state_dir_key : trim_space (text "state_dir") ≡ text "state_dir"
state_dir_key = trim_space_id (text "state_dir") (unfold is_space in refl) (unfold is_space in refl)

heartbeat_key : trim_space (text "heartbeat_sec") ≡ text "heartbeat_sec"
heartbeat_key =
    trim_space_id (text "heartbeat_sec") (unfold is_space in refl) (unfold is_space in refl)

pub state_dir_line :
    (s : Text) (p : Parsing)
    → IsValue s
    → parse_line (trim_space (text "state_dir: " ++ s)) p
      ≡ record p { config = record p.config { state_dir = s }; in_endpoints = false }
unfolding parse_line is_space has_prefix ◌==◌
state_dir_line s p v =
    rw
      (
        trim_space_id (text "state_dir: " ++ s) refl
            (last_ok-behind (text "state_dir: ") s v.filled v.last_space),
        cut-append 58 (text "state_dir") (32 ∷ s)
            (is_free→Free (nat_eq 58) (text "state_dir") refl),
      )
      (rw (behind_colon s v, state_dir_key) (ground arith))

pub heartbeat_line :
    (s : Text) (n : ℕ) (p : Parsing)
    → IsValue s
    → atoi s ≡ some (pos (suc n))
    → parse_line (trim_space (text "heartbeat_sec: " ++ s)) p
      ≡ record p { config = record p.config { heartbeat_sec = suc n }; in_endpoints = false }
unfolding parse_line is_space has_prefix ◌==◌
heartbeat_line s n p v a =
    rw
      (
        trim_space_id (text "heartbeat_sec: " ++ s) refl
            (last_ok-behind (text "heartbeat_sec: ") s v.filled v.last_space),
        cut-append 58 (text "heartbeat_sec") (32 ∷ s)
            (is_free→Free (nat_eq 58) (text "heartbeat_sec") refl),
      )
      (rw (behind_colon s v, a, heartbeat_key) (ground arith))
