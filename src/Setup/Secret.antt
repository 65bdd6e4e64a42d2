-- ===== src/Setup/Secret.antt =====
-- identityHasSecret of cmd/sit/node_setup.go against the files that internal/node/identity.go
-- writes.
use sit.Prelude.{
  Text, text, ◌≡◌, refl, Bool, true, false, ◌||◌, some, [], ◌∷◌, ◌++◌, is_empty, if◌then◌else◌,
}
use sit.Strings.{is_space, trim_space, has_prefix, trim_prefix}
use sit.Strings.Laws.{last_ok, last_ok-append, trim_space_id}
use sit.Node.Identity.{Identity, encode_identity}
use sit.Node.Identity.RoundTrip.{IsToken, encoded_lines}
use sit.Setup.{line_has_secret, identity_has_secret, some_line}

node_id_line_has :
    (v : Text) → last_ok is_space v ≡ true → line_has_secret (text "node_id=" ++ v) ≡ false
unfolding line_has_secret is_space has_prefix
node_id_line_has v h =
    rw
      (trim_space_id (text "node_id=" ++ v) refl
        (last_ok-append is_space 61 (text "node_id") v refl h))
      refl

secret_line_has :
    (v : Text)
    → last_ok is_space v ≡ true
    → line_has_secret (text "secret=" ++ v) ≡ (if is_empty (trim_space v) then false else true)
unfolding line_has_secret is_space has_prefix trim_prefix
secret_line_has v h =
    rw
      (trim_space_id (text "secret=" ++ v) refl
        (last_ok-append is_space 61 (text "secret") v refl h))
      refl

blank_line_has : line_has_secret [] ≡ false
unfolding line_has_secret has_prefix trim_space
blank_line_has = refl

two_lines :
    (x y : Text) (b : Bool)
    → line_has_secret x ≡ false
    → line_has_secret y ≡ b
    → some_line (x ∷ y ∷ [] ∷ []) ≡ b
unfolding some_line
two_lines x y b hx hy = rw (hx, hy, blank_line_has) (or_false b)
  where
    or_false : (b : Bool) → (false || (b || (false || false))) ≡ b
    or_false true = refl
    or_false false = refl

-- On the file of an identity whose parts stand on one line and do not end in a space, the setup
-- finds a secret exactly where the secret that is stored there is not blank.
pub identity_has_secret-encode :
    (id : Identity)
    → IsToken id.node_id
    → IsToken id.secret
    → identity_has_secret (some (encode_identity id))
      ≡ (if is_empty (trim_space id.secret) then false else true)
unfolding identity_has_secret
identity_has_secret-encode id a b = rw (encoded_lines id a b) (
    two_lines (text "node_id=" ++ id.node_id) (text "secret=" ++ id.secret) _
      (node_id_line_has id.node_id a.1) (secret_line_has id.secret b.1))
