-- ===== src/Setup/Accounts.antt =====
-- ensureSystemUser, ensureDarwinSystemUser, firstFreeDarwinID and darwinGroupID of
-- cmd/sit/node_setup.go.
pub mod FreeIds
use sit.Prelude.{
  ℕ, zero, suc, ◌+◌, Text, text, ◌==◌, Bool, true, false, Option, none, some, List, [], ◌∷◌, ◌++◌,
  nat_eq, is_empty, if◌then◌else◌,
}
use sit.Prelude.Int.{ℤ, pos, negsuc}
use sit.Strings.{is_space, split_lines, cons_first}
use sit.Exec.{
  Result, ok, err, Exec, no_free_id, pure, fail, lift, gets, attempt, modify, ignore, ◌>>=◌, ◌>>◌,
}
use sit.Decimal.{show}
use sit.Node.Config.{atoi}
use sit.Setup.Host.{Host, System, say, run, command_ok, command_output}

abbrev drop_empty : List Text → List Text
drop_empty [] = []
drop_empty (w ∷ ws) = if is_empty w then drop_empty ws else w ∷ drop_empty ws

words : Text → List Text
words [] = [] ∷ []
words (c ∷ s) = let rest = words s in if is_space c then [] ∷ rest else cons_first c rest

-- strings.Fields
unfoldable pub fields : Text → List Text
unfolding words
fields s = drop_empty (words s)

-- the last of two fields or more, as a number
last_number : List Text → Option ℤ
last_number [] = none
last_number (w ∷ []) = none
last_number (w ∷ v ∷ []) = atoi v
last_number (w ∷ v ∷ u ∷ ws) = last_number (v ∷ u ∷ ws)

abbrev add_used : Option ℤ → List ℤ → List ℤ
add_used none ids = ids
add_used (some n) ids = n ∷ ids

-- the ids that the lines of `dscl . -list` show
unfoldable pub used_ids : List Text → List ℤ
unfolding last_number
used_ids [] = []
used_ids (l ∷ ls) = add_used (last_number (fields l)) (used_ids ls)

abbrev pub is_used : ℕ → List ℤ → Bool
is_used n [] = false
is_used n (pos m ∷ ids) = if nat_eq m n then true else is_used n ids
is_used n (negsuc m ∷ ids) = is_used n ids

-- The first number from `id` on, of so many, that is not in use.
unfoldable pub first_unused : ℕ → ℕ → List ℤ → Option ℕ
first_unused zero id used = none
first_unused (suc n) id used =
    let rest = first_unused n (id + 1) used in if is_used id used then rest else some id

abbrev or_else : Option ℕ → Option ℕ → Option ℕ
or_else (some n) other = some n
or_else none other = other

-- 401 to 499, then 200 to 999
unfoldable pub choose_id : List ℤ → Option ℕ
choose_id used = or_else (first_unused 99 401 used) (first_unused 800 200 used)

abbrev pub or_no_id : Option ℕ → Result ℕ
or_no_id none = err no_free_id
or_no_id (some n) = ok n

-- the first field that is a number
abbrev first_number : List Text → Option ℤ
first_number [] = none
first_number (w ∷ ws) = elim (atoi w) [ some n ↦ some n | none ↦ first_number ws ]

abbrev or_no_group : Option ℤ → Result ℤ
or_no_group none = err no_free_id
or_no_group (some n) = ok n

-- Itoa
abbrev itoa : ℤ → Text
itoa (pos n) = show n
itoa (negsuc n) = 45 ∷ show (suc n)

module _ (sys : System) where
  unfoldable pub first_free_darwin_id : Text → Text → Exec Host ℕ
  first_free_darwin_id record_type attr = do
    out ← command_output sys (text "dscl" ∷ text "." ∷ text "-list" ∷ record_type ∷ attr ∷ [])
    lift (or_no_id (choose_id (used_ids (split_lines out))))

  unfoldable pub darwin_group_id : Text → Exec Host ℤ
  darwin_group_id group = do
    out ← command_output sys (
        text "dscl"
        ∷ text "."
        ∷ text "-read"
        ∷ (text "/Groups/" ++ group)
        ∷ text "PrimaryGroupID"
        ∷ [])
    lift (or_no_group (first_number (fields out)))

  -- `dscl . -create` with the given arguments
  create : List Text → Exec Host (Unit {0})
  create args = run sys (text "dscl" ∷ text "." ∷ text "-create" ∷ args)

  run_all : List (List Text) → Exec Host (Unit {0})
  unfolding create
  run_all [] = pure tt
  run_all (args ∷ rest) = do create args; run_all rest

  new_group : Text → Exec Host (Unit {0})
  unfolding create
  new_group group = do
    gid ← first_free_darwin_id (text "/Groups") (text "PrimaryGroupID")
    create ((text "/Groups/" ++ group) ∷ [])
    create ((text "/Groups/" ++ group) ∷ text "PrimaryGroupID" ∷ show gid ∷ [])

  new_user : Text → Text → Exec Host (Unit {0})
  unfolding run_all
  new_user user group = do
    uid ← first_free_darwin_id (text "/Users") (text "UniqueID")
    gid ← darwin_group_id group
    run_all (
        ((text "/Users/" ++ user) ∷ [])
        ∷ ((text "/Users/" ++ user) ∷ text "UserShell" ∷ text "/usr/bin/false" ∷ [])
        ∷ ((text "/Users/" ++ user) ∷ text "RealName" ∷ text "SIT Node" ∷ [])
        ∷ ((text "/Users/" ++ user) ∷ text "UniqueID" ∷ show uid ∷ [])
        ∷ ((text "/Users/" ++ user) ∷ text "PrimaryGroupID" ∷ itoa gid ∷ [])
        ∷ ((text "/Users/" ++ user) ∷ text "NFSHomeDirectory" ∷ text "/var/empty" ∷ [])
        ∷ [])

  already : Text → Text → Exec Host (Unit {0})
  already what name = say (text "sit setup: " ++ what ++ 32 ∷ name ++ text " already exists\n")

  unfoldable pub ensure_darwin_system_user : Text → Text → Exec Host (Unit {0})
  unfolding already new_group new_user
  ensure_darwin_system_user user group = do
    has_group ←
        command_ok sys (text "dscl" ∷ text "." ∷ text "-read" ∷ (text "/Groups/" ++ group) ∷ [])
    if has_group then already (text "group") group else new_group group
    has_user ←
        command_ok sys (text "dscl" ∷ text "." ∷ text "-read" ∷ (text "/Users/" ++ user) ∷ [])
    if has_user then already (text "user") user else new_user user group

  unfoldable pub ensure_system_user : Text → Text → Exec Host (Unit {0})
  unfolding already
  ensure_system_user user home = do
    has_user ← command_ok sys (text "id" ∷ text "-u" ∷ user ∷ [])
    if has_user
        then already (text "user") user
        else run sys (
            text "useradd"
            ∷ text "--system"
            ∷ text "--home"
            ∷ home
            ∷ text "--create-home"
            ∷ text "--shell"
            ∷ text "/usr/sbin/nologin"
            ∷ user
            ∷ [])
