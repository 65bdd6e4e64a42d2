-- ===== src/Node/Agent/Reconnect.antt =====
-- The waits of Run in internal/node/bootstrap.go.
use sit.Prelude.{ℕ, suc, ◌+◌, ◌*◌, ◌^◌, ◌≤◌, ◌<◌, ◌≡◌, refl, List, [], ◌∷◌, arith}
use sit.Transport.Backoff.{Backoff, second, new_backoff, next, reset, minimum, two_53, next_delay}
use sit.Node.Agent.{Round, dial_failed, served, context_done, waits}

-- How many waits came before each wait, since the last session or the start.
abbrev pub waits_before : ℕ → List Round → List ℕ
waits_before n [] = []
waits_before n (dial_failed ∷ more) = n ∷ waits_before (n + 1) more
waits_before n (served ∷ more) = 0 ∷ waits_before 1 more
waits_before n (context_done ∷ more) = []

-- Within a fifth of a second doubled n times, or of a minute where that is less.
abbrev pub IsWait : ℕ → ℕ → Type 0
IsWait n d = let m = minimum (60 * second) (second * 2 ^ n) in (4 * m ≤ 5 * d + 5) × (5 * d ≤ 6 * m)

abbrev pub AreWaits : List ℕ → List ℕ → Type 0
AreWaits [] [] = Unit
AreWaits (n ∷ ns) (d ∷ ds) = IsWait n d × AreWaits ns ds
AreWaits _ _ = ⊥

abbrev after : ℕ → Backoff
after n = record new_backoff { attempt = n }

next-after : (r n : ℕ) → (next r (after n)).1 ≡ after (n + 1)
unfolding next
next-after r n = refl

waits-after :
    (random : ℕ → ℕ) (k n : ℕ) (rounds : List Round)
    → ((i : ℕ) → random i < two_53)
    → AreWaits (waits_before n rounds) (waits random k rounds (after n))
unfolding waits next reset
waits-after random k n [] h = tt
waits-after random k n (dial_failed ∷ more) h =
    let d = next_delay (random k) (after n) (h k) (omega arith) refl refl in
    ((d.0, d.1), waits-after random (suc k) (n + 1) more h)
waits-after random k n (served ∷ more) h =
    let d = next_delay (random k) (after 0) (h k) (omega arith) refl refl in
    ((d.0, d.1), waits-after random (suc k) 1 more h)
waits-after random k n (context_done ∷ more) h = tt

-- However dials and sessions follow each other, each wait is a second, doubled for every wait before
-- it since the last session or the start, a minute at most, and that within a fifth either way.
pub waits_bounded :
    (random : ℕ → ℕ) (rounds : List Round)
    → ((i : ℕ) → random i < two_53)
    → AreWaits (waits_before 0 rounds) (waits random 0 rounds new_backoff)
waits_bounded random rounds h = waits-after random 0 0 rounds h
