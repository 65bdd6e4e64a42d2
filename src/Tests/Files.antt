-- ===== src/Tests/Files.antt =====
-- Texts and files: node_setup.go, config.go, identity.go, codec.go and backoff.go.
use sit.Prelude.{Text, text, ◌≡◌, refl, some, [], ◌∷◌, nat_eq}
use sit.Strings.{is_space}
use sit.Strings.Laws.{is_free→Free}
use sit.Protocol.{Json, Envelope, MessageType}
use sit.Protocol.Codec.{Coded, encode, decode}
use sit.Protocol.Codec.RoundTrip.{decode-encode}
use sit.Node.Config.Lines.{IsValue}
use sit.Node.Identity.{Identity, encode_identity, parse_identity}
use sit.Node.Identity.RoundTrip.{IsToken, parse-encode_identity}
use sit.Tests.Fixtures.{json}

abbrev endpoint : Text
endpoint = text "wss://m/sit/connect"

abbrev state_dir : Text
state_dir = text "/var/lib/sit"

endpoint-IsValue : IsValue endpoint
unfolding is_space
endpoint-IsValue = record {
  filled = refl;
  one_line = is_free→Free (nat_eq 10) endpoint refl;
  first_space = refl;
  last_space = refl;
  first_quote = refl;
  last_quote = refl;
}

state_dir-IsValue : IsValue state_dir
unfolding is_space
state_dir-IsValue = record {
  filled = refl;
  one_line = is_free→Free (nat_eq 10) state_dir refl;
  first_space = refl;
  last_space = refl;
  first_quote = refl;
  last_quote = refl;
}

abbrev identity : Identity
identity = record { node_id = text "n1"; secret = text "s3" }

n1-IsToken : IsToken (text "n1")
unfolding is_space
n1-IsToken = (is_free→Free (nat_eq 10) (text "n1") refl, refl)

s3-IsToken : IsToken (text "s3")
unfolding is_space
s3-IsToken = (is_free→Free (nat_eq 10) (text "s3") refl, refl)

parse-encode_identity_example : parse_identity (encode_identity identity) ≡ identity
parse-encode_identity_example = parse-encode_identity identity n1-IsToken s3-IsToken

abbrev ack_frame : Envelope
ack_frame = record { v = 1; type = MessageType.ack; id = text "a"; ts = 4; payload = 1 ∷ [] }

abbrev frame_json : Json
frame_json = record json { envelope_bytes = λ e. some (9 ∷ []); envelope_of = λ b. some ack_frame }

ack_frame-encode : encode frame_json ack_frame ≡ Coded.ok (9 ∷ [])
unfolding encode
ack_frame-encode = refl

decode-encode_example : decode frame_json (9 ∷ []) ≡ Coded.ok ack_frame
decode-encode_example =
    decode-encode frame_json ack_frame (9 ∷ []) (λ b h. refl) refl ack_frame-encode
