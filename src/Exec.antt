-- ===== src/Exec.antt =====
-- Go methods that change state and may return an error. What was written before an error stays
-- written, so the state comes back beside the error too.
pub mod Gives
pub mod Keeps
use sit.Prelude.{◌≡◌, refl, Bool, true, false}

-- The error values of the program, one for each that callers tell apart.
pub data Error : Type 0 where
  not_found : Error  -- store.ErrNotFound
  constraint : Error  -- a key that is taken, reported by the database
  io : Error  -- any other failure of the database or of the network
  conn_closed : Error  -- transport.ErrConnClosed
  bad_credentials token_invalid revoked : Error  -- auth.Err…
  malformed_token : Error  -- managerd: "malformed node token"
  cancelled : Error  -- the context's error
  timed_out : Error  -- the synchronous wait ran out
  unsupported : Error  -- node setup: another platform, or a tool of it that is missing
  not_root : Error  -- "must run as root"
  is_required : Error  -- a question without an answer
  refusing : Error  -- "refusing to overwrite"
  no_free_id : Error  -- "no free macOS id", or a group without one
  usage : Error  -- flags that are missing, or a node that is not enrolled

pub data Result {ℓ} (A : Type ℓ) : Type ℓ where
  ok : A → Result A
  err : Error → Result A

abbrev pub Exec {ℓ} : Type ℓ → Type ℓ → Type ℓ
Exec S A = S → Result A × S

module _ {ℓ} {S A : Type ℓ} where
  pub pure : A → Exec S A
  pure a s = (ok a, s)

  pub fail : Error → Exec S A
  fail e s = (err e, s)

  pub lift : Result A → Exec S A
  lift r s = (r, s)

  pub gets : (S → A) → Exec S A
  gets f s = (ok (f s), s)

  -- `x, err := m`, with the error handled by the caller
  pub attempt : Exec S A → Exec S (Result A)
  attempt m s = (ok (m s).0, (m s).1)

pub modify {ℓ} : {S : Type ℓ} → (S → S) → Exec S (Unit {ℓ})
modify f s = (ok tt, f s)

-- `_ = m`
pub ignore {ℓ} : {S A : Type ℓ} → Exec S A → Exec S (Unit {ℓ})
ignore m s = (ok tt, (m s).1)

module _ {ℓ} {S A B : Type ℓ} where
  abbrev pub resume : Result A → (A → Exec S B) → Exec S B
  resume (ok a) f s = f a s
  resume (err e) f s = (err e, s)

  infixl 10 ◌>>=◌ ◌>>◌
  -- opening this opens the actions above too
  unfoldable pub ◌>>=◌ : Exec S A → (A → Exec S B) → Exec S B
  unfolding pure fail lift gets attempt modify ignore
  ◌>>=◌ m f s = let (r, s') = m s in resume r f s'

  abbrev pub ◌>>◌ : Exec S A → Exec S B → Exec S B
  m >> n = m >>= λ _. n
