-- ===== src/Strings/Laws.antt =====
-- Laws of the text functions.
use sit.Prelude.{
  ℕ, Text, ◌≡◌, refl, Bool, true, false, some, [], ◌∷◌, ◌++◌, arith, nat_eq, if◌then◌else◌, All,
  Bool-cases, inl, inr,
}
use sit.Strings.{
  is_quote, trim_quotes, is_space, trim_left, trim_right, trim_space, after_prefix, cut,
  split_lines,
}

-- No character of the text satisfies the test.
abbrev pub Free : (ℕ → Bool) → Text → Type 0
Free p s = All (λ c. p c ≡ false) s

-- Neither the first nor the last character satisfies the test.
abbrev pub first_ok : (ℕ → Bool) → Text → Bool
first_ok p [] = true
first_ok p (c ∷ s) = if p c then false else true

abbrev pub last_ok : (ℕ → Bool) → Text → Bool
last_ok p [] = true
last_ok p (c ∷ []) = if p c then false else true
last_ok p (c ∷ d ∷ s) = last_ok p (d ∷ s)

pub trim_left_id : (p : ℕ → Bool) (s : Text) → first_ok p s ≡ true → trim_left p s ≡ s
unfolding trim_left
trim_left_id p [] h = refl
trim_left_id p (c ∷ s) h = ground arith

pub trim_right_id : (p : ℕ → Bool) (s : Text) → last_ok p s ≡ true → trim_right p s ≡ s
unfolding trim_right
trim_right_id p [] h = refl
trim_right_id p (c ∷ []) h = ground arith
trim_right_id p (c ∷ d ∷ s) h = rw (trim_right_id p (d ∷ s) h) (ground arith)

pub trim_space_id :
    (s : Text) → first_ok is_space s ≡ true → last_ok is_space s ≡ true → trim_space s ≡ s
unfolding trim_space
trim_space_id s f l = rw (trim_left_id is_space s f) (trim_right_id is_space s l)

pub after_prefix-append : (p s : Text) → after_prefix p (p ++ s) ≡ some s
unfolding after_prefix
after_prefix-append [] s = refl
after_prefix-append (c ∷ p) s = ground (arith, after_prefix-append p s)

pub cut-append : (sep : ℕ) (a b : Text) → Free (nat_eq sep) a → cut sep (a ++ sep ∷ b) ≡ some (a, b)
unfolding cut
cut-append sep [] b h = ground arith
cut-append sep (x ∷ a) b h = rw (cut-append sep a b h.1) (ground (arith, h.0))

pub split-line : (a b : Text) → Free (nat_eq 10) a → split_lines (a ++ 10 ∷ b) ≡ a ∷ split_lines b
unfolding split_lines
split-line [] b h = refl
split-line (x ∷ a) b h = rw (split-line a b h.1) (ground (arith, h.0))

-- The same as a test, for texts that are known.
abbrev pub is_free : (ℕ → Bool) → Text → Bool
is_free p [] = true
is_free p (c ∷ s) = if p c then false else is_free p s

pub is_free→Free : (p : ℕ → Bool) (s : Text) → is_free p s ≡ true → Free p s
is_free→Free p [] h = tt
is_free→Free p (c ∷ s) h = elim (Bool-cases (p c)) [
  | inl e ↦ cc (rw e at h)
  | inr e ↦ (e, is_free→Free p s (rw e at h))
]

pub last_ok-append :
    (p : ℕ → Bool) (c : ℕ) (a s : Text)
    → p c ≡ false
    → last_ok p s ≡ true
    → last_ok p (a ++ c ∷ s) ≡ true
last_ok-append p c [] [] h l = rw h refl
last_ok-append p c [] (x ∷ s) h l = l
last_ok-append p c (a ∷ []) s h l = last_ok-append p c [] s h l
last_ok-append p c (a ∷ b ∷ r) s h l = last_ok-append p c (b ∷ r) s h l

pub Free-first_ok : (p : ℕ → Bool) (s : Text) → Free p s → first_ok p s ≡ true
Free-first_ok p [] h = refl
Free-first_ok p (c ∷ s) h = rw (h.0) refl

pub Free-last_ok : (p : ℕ → Bool) (s : Text) → Free p s → last_ok p s ≡ true
Free-last_ok p [] h = refl
Free-last_ok p (c ∷ []) h = rw (h.0) refl
Free-last_ok p (c ∷ d ∷ s) h = Free-last_ok p (d ∷ s) h.1

pub trim_quotes_id :
    (s : Text) → first_ok is_quote s ≡ true → last_ok is_quote s ≡ true → trim_quotes s ≡ s
unfolding trim_quotes
trim_quotes_id s f l = rw (trim_left_id is_quote s f) (trim_right_id is_quote s l)
