-- ===== src/Cli/Enrolled.antt =====
-- `sit node enroll` of cmd/sit/node.go: what it leaves in the state directory.
use sit.Prelude.{
  ℕ, Text, text, ◌≡◌, refl, ◌||◌, true, false, Bool-cases, inl, inr, Option, none, some, is_empty,
  ◌++◌, nat_eq, nat_eq→≡, if◌then◌else◌, Option-cases,
}
use sit.Exec.{Exec, ok, err, io, usage, ◌>>=◌, ◌>>◌}
use sit.Exec.Gives.{Gives, Gives-later, Result-cases}
use sit.Strings.{trim_space, trim_right_slash}
use sit.Setup.{identity_has_secret}
use sit.Setup.Secret.{identity_has_secret-encode}
use sit.Setup.Host.{Host, say}
use sit.Setup.Flow.Writes.{Holds, write_file-Gives}
use sit.Node.Identity.{Identity, encode_identity, parse_identity}
use sit.Node.Identity.RoundTrip.{IsToken, parse-encode_identity}
use sit.Node.Identity.Stored.{identity_path, write_identity, save_identity, load_or_create_identity}
use sit.Cli.{Post, Answer, issued, exchange_enroll_token, enroll_in, dir_or_default, node_enroll}

save_identity-Gives :
    (dir : Text) (id : Identity)
    → Gives (Holds (identity_path dir) (some (encode_identity id))) (save_identity dir id)
unfolding save_identity write_identity
save_identity-Gives dir id = Gives-later _ _ λ _. write_file-Gives (identity_path dir) _ _

-- the end of the enrollment, with the line that it shows
abbrev ending : Text → Identity → Text → Exec Host (Unit {0})
ending dir new line = do save_identity dir new; say line

saved :
    (dir line : Text) (new : Identity) (now : Host)
    → (ending dir new line now).0 ≡ ok tt
    → (ending dir new line now).1.files (identity_path dir) ≡ some (encode_identity new)
unfolding ◌>>=◌ say
saved dir line new now done = elim (Result-cases (save_identity dir new now).0) [
  | inr (e, n) ↦ let bad : err e ≡ ok tt = rw n at done in cc
  | inl (u, n) ↦ rw n ((save_identity-Gives dir new).at now u n).holds
]

-- The manager's answer to a POST to its exchange, with the token and the node id: 200, and in its
-- body the node id and the secret.
abbrev pub Grants : Post → Text → Text → Text → Text → Text → Type 0
Grants post endpoint token old node_id secret =
    post (trim_right_slash endpoint ++ text "/api/v1/enroll/exchange") token old
    ≡ some (record { status = 200; decoded = some (node_id, secret) })

-- What an enrollment needs and leaves: the identity that the directory held before, the pair that
-- the manager grants for it, and the identity file with that pair.
abbrev Enrolls : Post → Text → Text → Text → Text → Host → Host → Type 0
Enrolls post token endpoint dir fresh before after =
    (old : Identity) × (node_id : Text) × (secret : Text) × ((load_or_create_identity dir fresh
        before).0
      ≡ ok old)
    × Grants post endpoint token old.node_id node_id secret
    × (after.files (identity_path dir)
        ≡ some (encode_identity (record { node_id = node_id; secret = secret })))

abbrev answered : ℕ → Option (Text × Text) → Option Answer
answered status decoded = some (record { status = status; decoded = decoded })

answered_lem : {s t : ℕ} {d e : Option (Text × Text)} → s ≡ t → d ≡ e → answered s d ≡ answered t e
answered_lem same equal = rw (same, equal) refl

issued_lem :
    (answer : Option Answer) (pair : Text × Text)
    → issued answer ≡ ok pair
    → answer ≡ some (record { status = 200; decoded = some (pair.0, pair.1) })
issued_lem none pair e = cc
issued_lem (some a) pair e = elim (Bool-cases (nat_eq a.status 200)) [
  | inr other ↦ let bad : err io ≡ ok pair = rw other at e in cc
  | inl same ↦ elim (Option-cases a.decoded) [
    | inl n ↦ let bad : err io ≡ ok pair = rw (same, n) at e in cc
    | inr (p, n) ↦
        let is_pair : ok p ≡ ok pair = rw (same, n) at e in
        let equal : p ≡ pair = cc in
        let status : a.status ≡ 200 = nat_eq→≡ a.status 200 same in
        answered_lem status (rw (n, equal) refl)
  ]
]

enroll_in_lem :
    (post : Post) (token endpoint dir fresh : Text) (h : Host)
    → (enroll_in post token endpoint dir fresh h).0 ≡ ok tt
    → Enrolls post token endpoint dir fresh h (enroll_in post token endpoint dir fresh h).1
unfolding enroll_in ◌>>=◌ exchange_enroll_token
enroll_in_lem post token endpoint dir fresh h done =
    elim (Result-cases (load_or_create_identity dir fresh h).0) [
      | inr (e, n) ↦ let bad : err e ≡ ok tt = rw n at done in cc
      | inl (old, n) ↦ elim (Result-cases (exchange_enroll_token post endpoint token old.node_id)) [
        | inr (e, x) ↦ let bad : err e ≡ ok tt = rw (n, x) at done in cc
        | inl (pair, x) ↦ (
          old,
          pair.0,
          pair.1,
          n,
          issued_lem _ pair x,
          rw (n, x) (saved dir _ _ _ (rw (n, x) at done)),
        )
      ]
    ]

-- what the manager issues, from any request: a node id and a secret on one line each, without
-- spaces at the end
abbrev pub IssuesTokens : Post → Type 0
IssuesTokens post =
    (url token id node_id secret : Text)
    → post url token id ≡ some (record { status = 200; decoded = some (node_id, secret) })
    → IsToken node_id × IsToken secret

-- An enrollment that succeeds has posted the token, with the node id that the state directory held
-- or that was made for it, to the exchange under the manager's address, and was answered 200 with
-- a node id and a secret. It leaves in the state directory, the platform's own where none is given,
-- an identity file that is read back as just these two, and `sit node setup` finds a secret in it
-- exactly where that secret is not blank; if the node ids and the secrets that the manager issues
-- each stand on one line without spaces at the end.
pub node_enroll_stores :
    (post : Post) (goos token endpoint dir fresh : Text) (h : Host)
    → IssuesTokens post
    → (node_enroll post goos token endpoint dir fresh h).0 ≡ ok tt
    → (old : Identity) × (node_id : Text) × (secret : Text) × (file : Text)
      × ((load_or_create_identity (dir_or_default goos dir) fresh h).0 ≡ ok old)
      × Grants post endpoint token old.node_id node_id secret
      × ((node_enroll post goos token endpoint dir fresh h).1.files
            (identity_path (dir_or_default goos dir))
          ≡ some file)
      × (parse_identity file ≡ record { node_id = node_id; secret = secret })
      × (identity_has_secret (some file) ≡ (if is_empty (trim_space secret) then false else true))
unfolding node_enroll ◌>>=◌
node_enroll_stores post goos token endpoint dir fresh h tokens done =
    elim (Bool-cases (is_empty token || is_empty endpoint)) [
      | inl n ↦ let bad : err usage ≡ ok tt = rw n at done in cc
      | inr n ↦
          let (old, node_id, secret, held, grants, stored) =
            enroll_in_lem post token endpoint (dir_or_default goos dir) fresh h (rw n at done) in
          let new : Identity = record { node_id = node_id; secret = secret } in
          let both = tokens _ _ _ _ _ grants in
          (
            old,
            node_id,
            secret,
            encode_identity new,
            held,
            grants,
            rw n stored,
            parse-encode_identity new both.0 both.1,
            identity_has_secret-encode new both.0 both.1,
          )
    ]
