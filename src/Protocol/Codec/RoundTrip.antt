-- ===== src/Protocol/Codec/RoundTrip.antt =====
-- Encode and Decode of internal/protocol/codec.go, one after the other.
use sit.Prelude.{◌≡◌, some, arith, ltb, length, Bool-cases, Option-cases, inl, inr}
use sit.Protocol.{Bytes, Envelope, Json, max_frame_bytes}
use sit.Protocol.Codec.{Coded, encode, decode, check_size}

-- Unmarshal gives back the envelope, if Marshal takes it.
abbrev pub ReadsBack : Json → Envelope → Type 0
ReadsBack j e = (b : Bytes) → j.envelope_bytes e ≡ some b → j.envelope_of b ≡ some e

same_bytes : (a b : Bytes) → Coded.ok a ≡ Coded.ok b → a ≡ b
same_bytes a b h = cc

checked :
    (j : Json) (e : Envelope) (raw b : Bytes)
    → ReadsBack j e
    → e.v ≡ 1
    → j.envelope_bytes e ≡ some raw
    → check_size raw ≡ Coded.ok b
    → decode j b ≡ Coded.ok e
unfolding decode
checked j e raw b r v m h = elim (Bool-cases (ltb max_frame_bytes (length raw))) [
  | inl t ↦ cc (rw t at h)
  | inr t ↦ rw (← same_bytes raw b (rw t at h), t, r raw m) (ground (arith, v))
]

-- An envelope of this version that can be encoded is decoded to itself, where encoding/json reads
-- back what it has written of it.
pub decode-encode :
    (j : Json) (e : Envelope) (b : Bytes)
    → ReadsBack j e
    → e.v ≡ 1
    → encode j e ≡ Coded.ok b
    → decode j b ≡ Coded.ok e
unfolding encode
decode-encode j e b r v h = elim (Option-cases (j.envelope_bytes e)) [
  | inl n ↦ cc (rw n at h)
  | inr (raw, n) ↦ checked j e raw b r v n (rw n at h)
]
