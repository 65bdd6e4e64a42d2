-- ===== src/Decimal.antt =====
-- fmt's %d for a natural number, and its reading back by strconv.
use sit.Strings.Laws.{Free}
use sit.Strings.{is_quote, is_space}
use sit.Prelude.Int.{pos, two_63}
use sit.Prelude.{
  is_empty, All-map, nat_eq, All-append, All, ◌≢◌, ℕ, zero, suc, ◌+◌, ◌*◌, ◌-◌, ◌/◌, ◌%◌, ◌<◌, Text,
  ◌≡◌, refl, true, false, some, [], ◌∷◌, ◌++◌, arith, ltb, ltb→le, if◌then◌else◌, Bool-cases, inl,
  inr, ap, ◌∙◌,
}
use sit.Node.Config.{atoi, is_digit, digits_from, parse_digits}

-- with fuel; a number below the fuel needs no more
show_from : ℕ → ℕ → Text
show_from zero n = []
show_from (suc f) n =
    let rest = show_from f (n / 10) in
    if ltb n 10 then (48 + n) ∷ [] else rest ++ (48 + n % 10) ∷ []

unfoldable pub show : ℕ → Text
unfolding show_from
show n = show_from (suc n) n

digits_from-append :
    (n d : ℕ) (s : Text) (m : ℕ)
    → d < 10
    → digits_from n s ≡ some m
    → digits_from n (s ++ (48 + d) ∷ []) ≡ some (m * 10 + d)
unfolding digits_from
digits_from-append n d [] m h e = ground arith
digits_from-append n d (c ∷ s) m h e = elim (Bool-cases (is_digit c)) [
  | inl x ↦ rw x (digits_from-append (n * 10 + (c - 48)) d s m h (rw x at e))
  | inr x ↦ cc (rw x at e)
]

digits-show_from : (f n : ℕ) → n < f → digits_from 0 (show_from f n) ≡ some n
unfolding show_from
digits-show_from zero n h = absurd (omega arith)
digits-show_from (suc f) n h = elim (Bool-cases (ltb n 10)) [
  | inl e ↦ rw e (unfold digits_from in ground arith)
  | inr e ↦ rw e (
      digits_from-append 0 (n % 10) (show_from f (n / 10)) (n / 10) (omega arith)
        (digits-show_from f (n / 10) (omega (arith, ltb→le n 10 e)))
      ∙ ap some (omega arith))
]

parse_digits-eq : (s : Text) (n : ℕ) → s ≢ [] → parse_digits s ≡ digits_from 0 s
unfolding parse_digits
parse_digits-eq [] n h = absurd (h refl)
parse_digits-eq (c ∷ s) n h = refl

abbrev pub AreDigits : Text → Type 0
AreDigits s = All (λ c. is_digit c ≡ true) s

show_from-AreDigits : (f n : ℕ) → AreDigits (show_from f n)
unfolding show_from
show_from-AreDigits zero n = tt
show_from-AreDigits (suc f) n = elim (Bool-cases (ltb n 10)) [
  | inl e ↦ rw e (ground arith, tt)
  | inr e ↦ rw e (
      All-append (λ c. is_digit c ≡ true) (show_from f (n / 10)) ((48 + n % 10) ∷ [])
        (show_from-AreDigits f (n / 10)) (ground arith, tt))
]

pub show-AreDigits : (n : ℕ) → AreDigits (show n)
unfolding show
show-AreDigits n = show_from-AreDigits (suc n) n

append_ne : (s : Text) (c : ℕ) → s ++ c ∷ [] ≢ []
append_ne [] c h = cc
append_ne (x ∷ s) c h = cc

show-ne : (n : ℕ) → show n ≢ []
unfolding show show_from
show-ne n h = elim (Bool-cases (ltb n 10)) [
  | inl e ↦ cc (rw e at h)
  | inr e ↦ append_ne (show_from n (n / 10)) (48 + n % 10) (rw e at h)
]

filled : (s : Text) → s ≢ [] → is_empty s ≡ false
filled [] h = absurd (h refl)
filled (c ∷ s) h = refl

pub show-filled : (n : ℕ) → is_empty (show n) ≡ false
show-filled n = filled (show n) (show-ne n)

atoi_digits :
    (s : Text) (n : ℕ)
    → s ≢ []
    → AreDigits s
    → parse_digits s ≡ some n
    → n < two_63
    → atoi s ≡ some (pos n)
unfolding atoi
atoi_digits [] n ne d p l = absurd (ne refl)
atoi_digits (c ∷ s) n ne d p l = ground (arith, d.0, p)

-- A number that an int64 can hold is read back from its decimal print.
pub atoi-show : (n : ℕ) → n < two_63 → atoi (show n) ≡ some (pos n)
atoi-show n l =
    atoi_digits (show n) n (show-ne n) (show-AreDigits n)
      (parse_digits-eq (show n) n (show-ne n)
        ∙ (unfold show in digits-show_from (suc n) n (omega arith)))
      l

digit_plain :
    (c : ℕ)
    → is_digit c ≡ true
    → (is_space c ≡ false) × (is_quote c ≡ false) × (nat_eq 10 c ≡ false)
unfolding is_space
digit_plain c h = ground arith

-- Digits are neither spaces nor quotes nor ends of lines.
pub show_plain :
    (n : ℕ) → Free is_space (show n) × Free is_quote (show n) × Free (nat_eq 10) (show n)
show_plain n = (
  All-map (λ c. is_digit c ≡ true) (λ c. is_space c ≡ false) (λ c h. (digit_plain c h).0) (show n)
      (show-AreDigits n),
  All-map (λ c. is_digit c ≡ true) (λ c. is_quote c ≡ false) (λ c h. (digit_plain c h).1) (show n)
      (show-AreDigits n),
  All-map (λ c. is_digit c ≡ true) (λ c. nat_eq 10 c ≡ false) (λ c h. (digit_plain c h).2) (show n)
      (show-AreDigits n),
)
