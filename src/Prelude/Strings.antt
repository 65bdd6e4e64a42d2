-- ===== src/Prelude/Strings.antt =====
-- Go strings as lists of code points. A literal is written `text "…"`.
use Prim.Native.Nat.{ℕ}
use Prim.Native.Char.{code}
use Prim.Native.String.{String}
use mathlib.Core.Path.{◌≡◌, refl}
use mathlib.Core.Logic.{◌↔◌}
use mathlib.Core.Bool.{Bool, true, false, ◌&&◌}
use mathlib.Core.List.{List, [], ◌∷◌, ◌++◌}
use native.Mathlib.Omega.{arith}
use sit.Prelude.Tests.{nat_eq, if◌then◌else◌}

abbrev pub Text : Type 0
Text = List ℕ

abbrev pub text : String → Text
text String.[] = []
text (String.◌∷◌ c s) = code c ∷ text s

infix 50 ◌==◌
unfoldable pub ◌==◌ : Text → Text → Bool
[] == [] = true
[] == (y ∷ ys) = false
(x ∷ xs) == [] = false
(x ∷ xs) == (y ∷ ys) = nat_eq x y && xs == ys

pub eq_sound : (s t : Text) → (s == t) ≡ true → s ≡ t
unfolding ◌==◌
eq_sound [] [] h = refl
eq_sound [] (y ∷ ys) h = cc
eq_sound (x ∷ xs) [] h = cc
eq_sound (x ∷ xs) (y ∷ ys) h = ground (arith, eq_sound xs ys)

pub eq_refl : (s : Text) → (s == s) ≡ true
unfolding ◌==◌
eq_refl [] = refl
eq_refl (x ∷ xs) = ground (arith, eq_refl xs)

pub eq_iff : (s t : Text) → ((s == t) ≡ true) ↔ (s ≡ t)
eq_iff s t = (eq_sound s t, λ p. rw p (eq_refl t))

abbrev pub is_empty : Text → Bool
is_empty [] = true
is_empty (x ∷ xs) = false

-- Membership in a list of texts, as a test.
abbrev pub contains : Text → List Text → Bool
contains id [] = false
contains id (x ∷ xs) = if x == id then true else contains id xs

abbrev pub AreDistinct : List Text → Type 0
AreDistinct [] = Unit
AreDistinct (x ∷ xs) = (contains x xs ≡ false) × AreDistinct xs

pub contains-append_one :
    (j id : Text) (xs : List Text)
    → contains j (xs ++ id ∷ []) ≡ (if contains j xs then true else id == j)
contains-append_one j id [] = ground arith
contains-append_one j id (x ∷ xs) = ground (arith, contains-append_one j id xs)

pub AreDistinct-append_one :
    (id : Text) (xs : List Text)
    → AreDistinct xs
    → contains id xs ≡ false
    → AreDistinct (xs ++ id ∷ [])
AreDistinct-append_one id [] d n = (refl, tt)
AreDistinct-append_one id (x ∷ xs) d n =
    ground (
      arith,
      AreDistinct-append_one id xs d.1,
      contains-append_one x id xs,
      eq_iff x id,
      eq_iff id x,
    )
