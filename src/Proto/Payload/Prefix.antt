-- ===== src/Proto/Payload/Prefix.antt =====
-- `decode` of src/proto.rs on messages that are too long or too short.
use apb.Prelude.{ℕ, ◌+◌, ◌≡◌, inl, inr, List, ◌∷◌, ◌++◌, length, ok, err, Result-cases}
use apb.Proto.Types.{Payload, ProtoError, trailing}
use apb.Proto.Decoder.{u8}
use apb.Proto.Decoder.Extends.{Extends, Extends-bind, Extends-u8, extends, run-append}
use apb.Proto.Payload.{encode, read_payload, decode}
use apb.Proto.Payload.WellFormed.{IsWellFormed}
use apb.Proto.Payload.RoundTrip.{decode-encode}

Extends-payload : (tag : ℕ) → Extends (read_payload tag)
unfolding read_payload
Extends-payload tag = search extends depth 60 fits 5000

-- If `decode` accepts a buffer, it refuses that buffer with one byte or more behind it, and says
-- how many bytes are left.
pub decode-append :
    (buf : List ℕ) (p : Payload) (x : ℕ) (rest : List ℕ)
    → decode buf ≡ ok p
    → decode (buf ++ x ∷ rest) ≡ err (trailing (length rest + 1))
unfolding decode
decode-append buf p x rest e =
    run-append _ buf x rest (Extends-bind u8 _ Extends-u8 Extends-payload) e

-- If the encoding of a payload in the range of its types is cut short, `decode` refuses it.
pub decode_cut :
    (p : Payload) (front : List ℕ) (x : ℕ) (back : List ℕ)
    → IsWellFormed p
    → encode p ≡ front ++ x ∷ back
    → (e : ProtoError) × (decode front ≡ err e)
decode_cut p front x back h cut = elim (Result-cases (decode front)) [
  | inr refused ↦ refused
  | inl (q, accepted) ↦ absurd (cc (decode-encode p h, cut, decode-append front q x back accepted))
]
