-- ===== src/Exec/Gives.antt =====
-- What is true once an action has returned a value.
use sit.Prelude.{◌≡◌, refl, ◌⊎◌, inl, inr}
use sit.Exec.{Error, Result, ok, err, Exec, resume, ◌>>=◌}
use sit.Exec.Keeps.{Keeps}

pub record Gives {ℓ} {S A : Type ℓ} (Q : S → Type ℓ) (act : Exec S A) : Type ℓ where
  pub at : (before : S) (a : A) → (act before).0 ≡ ok a → Q (act before).1

module _ {ℓ} {S A B : Type ℓ} {Q : S → Type ℓ} where
  -- established by what follows
  pub Gives-later :
      (act : Exec S A) (next : A → Exec S B) → ((a : A) → Gives Q (next a)) → Gives Q (act >>= next)
  unfolding ◌>>=◌
  Gives-later act next each = record {
    at = λ before b e. resumed (act before).0 (act before).1 b e;
  }
    where
      resumed :
          (r : Result A) (now : S) (b : B) → (resume r next now).0 ≡ ok b → Q (resume r next now).1
      resumed (ok a) now b e = (each a).at now b e
      resumed (err x) now b e = cc

  -- established here and kept by what follows
  pub Gives-now :
      (act : Exec S A) (next : A → Exec S B)
      → Gives Q act
      → ((a : A) → Keeps Q (next a))
      → Gives Q (act >>= next)
  unfolding ◌>>=◌
  Gives-now act next first each = record {
    at = λ before b e. resumed before (act before).0 (act before).1 b (first.at before) e;
  }
    where
      resumed :
          (before : S) (r : Result A) (now : S) (b : B)
          → ((a : A) → r ≡ ok a → Q now)
          → (resume r next now).0 ≡ ok b
          → Q (resume r next now).1
      resumed before (ok a) now b known e = (each a).at now (known a refl)
      resumed before (err x) now b known e = cc

pub Result-cases :
    {A : Type 0} (r : Result A) → ((a : A) × (r ≡ ok a)) ⊎ ((e : Error) × (r ≡ err e))
Result-cases (ok a) = inl (a, refl)
Result-cases (err e) = inr (e, refl)
