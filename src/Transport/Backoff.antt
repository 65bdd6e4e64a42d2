-- ===== src/Transport/Backoff.antt =====
-- internal/transport/backoff.go: reconnect delays. Durations are nanoseconds; the floating-point
-- products are exact numbers here, and the jitter fraction is a quotient.
use sit.Prelude.{
  ℕ, zero, suc, ◌+◌, ◌*◌, ◌-◌, ◌/◌, ◌^◌, ◌≤◌, ◌<◌, ◌≡◌, ap, refl, arith, leb, ltb, if◌then◌else◌,
  Bool-cases, inl, inr, leb→le, ◌∙◌,
}
use native.Mathlib.Nat.{pow-zero, pow-suc, mul-one, one-le-pow, mul-le-mul_left, le_trans}

pub record Backoff : Type 0 where
  pub base : ℕ
  pub factor : ℕ
  pub cap : ℕ
  pub jitter_num : ℕ
  pub jitter_den : ℕ
  pub attempt : ℕ

abbrev pub second : ℕ
second = 1_000_000_000

abbrev pub new_backoff : Backoff
new_backoff = record {
  base = second;
  factor = 2;
  cap = 60 * second;
  jitter_num = 1;
  jitter_den = 5;
  attempt = 0;
}

unfoldable pub reset : Backoff → Backoff
reset b = record b { attempt = 0 }

-- the loop of `base`, from the delay d, over the attempts left
unfoldable pub grow : ℕ → ℕ → ℕ → ℕ → ℕ
grow factor cap zero d = if ltb cap d then cap else d
grow factor cap (suc i) d =
    let rest = grow factor cap i (d * factor) in if leb cap (d * factor) then cap else rest

unfoldable pub base_delay : Backoff → ℕ
unfolding grow
base_delay b = grow b.factor b.cap b.attempt b.base

-- rand.Float64 is r / 2^53
abbrev pub two_53 : ℕ
two_53 = 9_007_199_254_740_992

-- base * (1 + (2 r - 1) * jitter)
unfoldable pub jittered : ℕ → ℕ → ℕ → ℕ → ℕ
jittered num den r base = base * (den * two_53 + 2 * r * num - num * two_53) / (den * two_53)

unfoldable pub next : ℕ → Backoff → ℕ × Backoff
unfolding base_delay jittered
next r b =
    let base = base_delay b in
    (
      if leb b.jitter_num 0 then base else jittered b.jitter_num b.jitter_den r base,
      record b { attempt = b.attempt + 1 },
    )

abbrev pub minimum : ℕ → ℕ → ℕ
minimum a b = if leb a b then a else b

grows : (factor i d : ℕ) → 1 ≤ factor → d * factor ≤ d * factor ^ suc i
grows factor i d h =
    rw pow-suc (omega (arith, mul-le-mul_left (d * factor) (one-le-pow i factor h)))

below_min : (a b : ℕ) → a ≤ b → a ≡ minimum a b
below_min a b h = ground arith

-- The loop computes the power, capped.
grow_min : (factor cap i d : ℕ) → 1 ≤ factor → grow factor cap i d ≡ minimum cap (d * factor ^ i)
unfolding grow
grow_min factor cap zero d h = rw (pow-zero, mul-one) (ground arith)
grow_min factor cap (suc i) d h = elim (Bool-cases (leb cap (d * factor))) [
  | inl e ↦ rw e (
      below_min cap (d * factor ^ suc i)
        (le_trans (leb→le cap (d * factor) e) (grows factor i d h)))
  | inr e ↦
      rw e (grow_min factor cap i (d * factor) h ∙ ap (minimum cap) (rw pow-suc (omega arith)))
]

scaled_bounds :
    (base x : ℕ)
    → 4 * two_53 ≤ x
    → x ≤ 6 * two_53
    → (4 * base ≤ 5 * (base * x / (5 * two_53)) + 5) × (5 * (base * x / (5 * two_53)) ≤ 6 * base)
scaled_bounds base x l u =
    let low : base * (4 * two_53) ≤ base * x = mul-le-mul_left base l in
    let high : base * x ≤ base * (6 * two_53) = mul-le-mul_left base u in (omega arith, omega arith)

-- With a jitter of one fifth, a factor of at least one and a random number in its range, the delay
-- before attempt n is base * factor ^ n, capped, within a fifth of it either way (up to the
-- rounding of one nanosecond), and the attempt is counted.
pub next_delay :
    (r : ℕ) (b : Backoff)
    → r < two_53
    → 1 ≤ b.factor
    → b.jitter_num ≡ 1
    → b.jitter_den ≡ 5
    → let m = minimum b.cap (b.base * b.factor ^ b.attempt) in
      let (d, b') = next r b in (4 * m ≤ 5 * d + 5) × (5 * d ≤ 6 * m) × (b'.attempt ≡ b.attempt + 1)
unfolding next jittered base_delay
next_delay r b h f n d =
    rw (n, d, grow_min b.factor b.cap b.attempt b.base f)
      (
        (scaled_bounds (minimum b.cap (b.base * b.factor ^ b.attempt))
            (5 * two_53 + 2 * r * 1 - 1 * two_53) (omega arith) (omega arith)).0,
        (scaled_bounds (minimum b.cap (b.base * b.factor ^ b.attempt))
            (5 * two_53 + 2 * r * 1 - 1 * two_53) (omega arith) (omega arith)).1,
        refl,
      )
