-- ===== src/Node/Identity/RoundTrip.antt =====
-- encodeIdentity and parseIdentity of internal/node/identity.go, one after the other.
use sit.Prelude.{
  All-append, Text, text, ◌==◌, ◌≡◌, refl, true, false, [], ◌∷◌, ◌++◌, nat_eq, ap, ◌∙◌,
}
use sit.Strings.{is_space, trim_space, split_lines}
use sit.Strings.Laws.{
  is_free→Free, is_free, last_ok-append, Free, last_ok, trim_space_id, cut-append, split-line,
}
use sit.Node.Identity.{Identity, encode_identity, parse_line, parse_identity}

-- A token that stands on one line and does not end in a space.
abbrev pub IsToken : Text → Type 0
IsToken s = Free (nat_eq 10) s × (last_ok is_space s ≡ true)

-- A line `key=value` gives the value to the key.
node_id_line :
    (v : Text) (id : Identity)
    → last_ok is_space v ≡ true
    → parse_line (trim_space (text "node_id=" ++ v)) id ≡ record id { node_id = v }
unfolding parse_line is_space ◌==◌
node_id_line v id h =
    rw
      (
        trim_space_id (text "node_id=" ++ v) refl
            (last_ok-append is_space 61 (text "node_id") v refl h),
        cut-append 61 (text "node_id") v (is_free→Free (nat_eq 61) (text "node_id") refl),
      )
      refl

secret_line :
    (v : Text) (id : Identity)
    → last_ok is_space v ≡ true
    → parse_line (trim_space (text "secret=" ++ v)) id ≡ record id { secret = v }
unfolding parse_line is_space ◌==◌
secret_line v id h =
    rw
      (
        trim_space_id (text "secret=" ++ v) refl
            (last_ok-append is_space 61 (text "secret") v refl h),
        cut-append 61 (text "secret") v (is_free→Free (nat_eq 61) (text "secret") refl),
      )
      refl

Free-line :
    (k v : Text) → is_free (nat_eq 10) k ≡ true → Free (nat_eq 10) v → Free (nat_eq 10) (k ++ v)
Free-line k v h f = All-append (λ c. nat_eq 10 c ≡ false) k v (is_free→Free (nat_eq 10) k h) f

pub encoded_lines :
    (id : Identity)
    → IsToken id.node_id
    → IsToken id.secret
    → split_lines (encode_identity id)
      ≡ (text "node_id=" ++ id.node_id) ∷ (text "secret=" ++ id.secret) ∷ [] ∷ []
unfolding encode_identity split_lines
encoded_lines id a b =
    split-line (text "node_id=" ++ id.node_id) ((text "secret=" ++ id.secret) ++ text "\n")
      (Free-line (text "node_id=") id.node_id refl a.0)
    ∙ ap (λ ls. (text "node_id=" ++ id.node_id) ∷ ls)
        (split-line (text "secret=" ++ id.secret) []
          (Free-line (text "secret=") id.secret refl b.0))

-- An identity whose parts stand on one line and do not end in a space, as ids and credentials do,
-- is read back from its file as it was written.
pub parse-encode_identity :
    (id : Identity)
    → IsToken id.node_id
    → IsToken id.secret
    → parse_identity (encode_identity id) ≡ id
unfolding parse_identity trim_space parse_line
parse-encode_identity id a b =
    rw
      (
        encoded_lines id a b,
        node_id_line id.node_id (record { node_id = []; secret = [] }) a.1,
        secret_line id.secret (record { node_id = id.node_id; secret = [] }) b.1,
      )
      refl
