-- ===== src/Setup/Accounts/FreeIds.antt =====
-- firstFreeDarwinID of cmd/sit/node_setup.go.
use sit.Prelude.{
  ℕ, zero, suc, ◌+◌, ◌≤◌, ◌<◌, Text, ◌≡◌, refl, true, false, Option, none, some, List, nat_eq,
  nat_eq→≡, arith, Bool-cases, inl, inr, Option-cases, ◌⊎◌,
}
use sit.Prelude.Int.{ℤ}
use sit.Exec.{◌>>=◌}
use sit.Strings.{split_lines}
use sit.Setup.Host.{Host, System, call, command_output}
use sit.Setup.Accounts.{used_ids, is_used, first_unused, choose_id, or_no_id, first_free_darwin_id}

-- the numbers from `lo` to `hi`, without `hi`, are all in use
abbrev pub AllUsed : ℕ → ℕ → List ℤ → Type 0
AllUsed lo hi used = (n : ℕ) → lo ≤ n → n < hi → is_used n used ≡ true

abbrev Chosen : ℕ → ℕ → List ℤ → Option ℕ → Type 0
Chosen count lo used none = AllUsed lo (lo + count) used
Chosen count lo used (some id) =
    (lo ≤ id) × (id < lo + count) × (is_used id used ≡ false) × AllUsed lo id used

AllUsed-cons :
    (lo hi : ℕ) (used : List ℤ)
    → is_used lo used ≡ true
    → AllUsed (lo + 1) hi used
    → AllUsed lo hi used
AllUsed-cons lo hi used h all n l u = elim (Bool-cases (nat_eq lo n)) [
  | inl e ↦ let same : lo ≡ n = nat_eq→≡ lo n e in rw (← same) h
  | inr e ↦ all n (ground (arith, e)) u
]

Chosen-cons :
    (count lo : ℕ) (used : List ℤ) (o : Option ℕ)
    → is_used lo used ≡ true
    → Chosen count (lo + 1) used o
    → Chosen (suc count) lo used o
Chosen-cons count lo used none h all =
    AllUsed-cons lo (lo + suc count) used h λ n l u. all n l (omega arith)
Chosen-cons count lo used (some id) h (l, u, free, all) =
    (omega arith, omega arith, free, AllUsed-cons lo id used h all)

first_unused_lem :
    (count lo : ℕ) (used : List ℤ) → Chosen count lo used (first_unused count lo used)
unfolding first_unused
first_unused_lem zero lo used = λ n l u. absurd (omega arith)
first_unused_lem (suc count) lo used = elim (Bool-cases (is_used lo used)) [
  | inl h ↦ rw h (Chosen-cons count lo used _ h (first_unused_lem count (lo + 1) used))
  | inr h ↦ rw h (omega arith, omega arith, h, λ n l u. absurd (omega arith))
]

-- What is returned for the ids in use: the first of 401 to 499, or else of 200 to 999.
abbrev pub IsChoice : List ℤ → Option ℕ → Type 0
IsChoice used none = AllUsed 200 1000 used
IsChoice used (some id) =
    (is_used id used ≡ false)
    × (((401 ≤ id) × (id < 500) × AllUsed 401 id used)
        ⊎ ((200 ≤ id) × (id < 1000) × AllUsed 401 500 used × AllUsed 200 id used))

choose_id_lem : (used : List ℤ) → IsChoice used (choose_id used)
unfolding choose_id
choose_id_lem used = elim (Option-cases (first_unused 99 401 used)) [
  | inr (id, n) ↦
      let first : Chosen 99 401 used (some id) = rw n at (first_unused_lem 99 401 used) in
      rw n (first.2, inl (first.0, first.1, first.3))
  | inl n ↦
      let first : Chosen 99 401 used none = rw n at (first_unused_lem 99 401 used) in
      elim (Option-cases (first_unused 800 200 used)) [
        | inl k ↦
            let second : Chosen 800 200 used none = rw k at (first_unused_lem 800 200 used) in
            rw (n, k) second
        | inr (id, k) ↦
            let second : Chosen 800 200 used (some id) = rw k at (first_unused_lem 800 200 used) in
            rw (n, k) (second.2, inr (second.0, second.1, first, second.3))
      ]
]

-- From the output of `dscl . -list`, the id that is found is not in use and is the first such of 401
-- to 499, or, where all of these are in use, the first of 200 to 999; the error that no id is free
-- is reported only where all of 200 to 999 are in use.
pub first_free_darwin_id_lem :
    (sys : System) (record_type attr out : Text) (h : Host)
    → h.outcomes h.calls ≡ some out
    → (o : Option ℕ) × ((first_free_darwin_id sys record_type attr h).0 ≡ or_no_id o)
      × IsChoice (used_ids (split_lines out)) o
unfolding first_free_darwin_id ◌>>=◌ command_output call
first_free_darwin_id_lem sys record_type attr out h e =
    let used = used_ids (split_lines out) in (choose_id used, rw e refl, choose_id_lem used)
