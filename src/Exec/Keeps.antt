-- ===== src/Exec/Keeps.antt =====
-- What an action leaves true, whether it returns or fails: one rule for each way to build one.
use sit.Prelude.{Bool, true, false, if◌then◌else◌}
use sit.Exec.{
  Error, Result, ok, err, Exec, pure, fail, lift, gets, attempt, modify, ignore, resume, ◌>>=◌,
}

pub record Keeps {ℓ} {S A : Type ℓ} (Q : S → Type ℓ) (act : Exec S A) : Type ℓ where
  pub at : (before : S) → Q before → Q (act before).1

-- actions that run another one first
module _ {ℓ} {S A B : Type ℓ} {Q : S → Type ℓ} where
  Keeps-resume :
      (result : Result A) (next : A → Exec S B) (now : S)
      → ((a : A) → Keeps Q (next a))
      → Q now
      → Q (resume result next now).1
  Keeps-resume (err e) next now each q = q
  Keeps-resume (ok a) next now each q = (each a).at now q

  pub Keeps-bind :
      (act : Exec S A) (next : A → Exec S B)
      → Keeps Q act
      → ((a : A) → Keeps Q (next a))
      → Keeps Q (act >>= next)
  unfolding ◌>>=◌
  Keeps-bind act next first each = record {
    at = λ before q. Keeps-resume (act before).0 next (act before).1 each (first.at before q);
  }

module _ {ℓ} {S A : Type ℓ} {Q : S → Type ℓ} where
  pub Keeps-attempt : (act : Exec S A) → Keeps Q act → Keeps Q (attempt act)
  unfolding attempt
  Keeps-attempt act k = record { at = k.at }

  pub Keeps-ignore : (act : Exec S A) → Keeps Q act → Keeps Q (ignore act)
  unfolding ignore
  Keeps-ignore act k = record { at = k.at }

  pub Keeps-if :
      (test : Bool) (one other : Exec S A)
      → Keeps Q one
      → Keeps Q other
      → Keeps Q (if test then one else other)
  Keeps-if true one other k k' = k
  Keeps-if false one other k k' = k'

-- actions that only read
module _ {ℓ} {S A : Type ℓ} {Q : S → Type ℓ} where
  pub Keeps-gets : (view : S → A) → Keeps Q (gets view)
  unfolding gets
  Keeps-gets view = record { at = λ before q. q }

  pub Keeps-lift : (result : Result A) → Keeps Q (lift result)
  unfolding lift
  Keeps-lift result = record { at = λ before q. q }

  pub Keeps-fail : (e : Error) → Keeps Q (fail {A = A} e)
  unfolding fail
  Keeps-fail e = record { at = λ before q. q }

  pub Keeps-pure : (a : A) → Keeps Q (pure a)
  unfolding pure
  Keeps-pure a = record { at = λ before q. q }

pub Keeps-modify {ℓ} :
    {S : Type ℓ} {Q : S → Type ℓ} (change : S → S)
    → ((before : S) → Q before → Q (change before))
    → Keeps Q (modify change)
unfolding modify
Keeps-modify change k = record { at = k }

pub ruleset keeps_rules = (
  Keeps-pure, Keeps-fail, Keeps-lift, Keeps-gets, Keeps-attempt, Keeps-ignore, Keeps-if, Keeps-bind,
)
