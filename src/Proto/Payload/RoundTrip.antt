-- ===== src/Proto/Payload/RoundTrip.antt =====
-- What `decode` and `peek_id` of src/proto.rs make of the bytes that `encode` writes.
use mathlib.Core.List.{flatten}
use apb.Prelude.{
  ℕ, ◌+◌, ◌≡◌, some, List, ◌∷◌, ◌++◌, append_assoc, take-append_of_eq, refl, length, arith, ok, err,
  length-append,
}
use apb.Bytes.{be_bytes, length-be_bytes, from_be-be_bytes}
use apb.Proto.Types.{Payload, push_end, trailing}
use apb.Proto.Fields.{IsU64}
use apb.Proto.Decoder.{◌>>=◌, u8}
use apb.Proto.Decoder.Reads.{Reads, Reads-bind, Reads-u8, run-Reads, run-trailing}
use apb.Proto.Payload.{id, op, encode, read_payload, decode, peek_id}
use apb.Proto.Payload.WellFormed.{IsWellFormed}
use apb.Proto.Payload.Layout.{layout, encode-layout}
use apb.Proto.Payload.Reads.{Reads-payload}

Reads-message :
    (p : Payload) → IsWellFormed p → Reads (u8 >>= read_payload) (op p ∷ flatten (layout p)) p
Reads-message p h = Reads-bind _ (Reads-u8 (op p)) (Reads-payload p h)

-- A payload whose fields are in the range of their types, with texts of at most 2^20 bytes and
-- blobs of at most 2^24, is what `decode` returns from the bytes that `encode` writes.
pub decode-encode : (p : Payload) → IsWellFormed p → decode (encode p) ≡ ok p
unfolding decode
decode-encode p h = rw (encode-layout p) (run-Reads _ _ (Reads-message p h))

-- If one byte or more follows the encoding of such a payload, `decode` refuses the whole with
-- the number of bytes that are left.
pub decode-encode-append :
    (p : Payload) (x : ℕ) (rest : List ℕ)
    → IsWellFormed p
    → decode (encode p ++ x ∷ rest) ≡ err (trailing (length rest + 1))
unfolding decode
decode-encode-append p x rest h = rw (encode-layout p) (run-trailing _ _ (Reads-message p h) x rest)

-- Every payload's fields begin with its id.
layout-id : (p : Payload) → (fields : List (List ℕ)) × (layout p ≡ be_bytes 8 (id p) ∷ fields)
unfolding layout id
layout-id (push_end i) = (_, refl)
layout-id _ = (_, refl)

peek_id-be_bytes :
    (o v : ℕ) (rest : List ℕ) → IsU64 v → peek_id (o ∷ (be_bytes 8 v ++ rest)) ≡ some v
unfolding peek_id
peek_id-be_bytes o v rest h =
    rw (take-append_of_eq 8 (be_bytes 8 v) rest (length-be_bytes 8 v), from_be-be_bytes 8 v)
      (ground (arith, length-append (be_bytes 8 v) rest, length-be_bytes 8 v))

-- From the encoding of a payload whose id is a 64-bit number, whatever follows it, `peek_id`
-- returns that id.
pub peek_id-encode :
    (p : Payload) (rest : List ℕ) → IsU64 (id p) → peek_id (encode p ++ rest) ≡ some (id p)
unfolding flatten
peek_id-encode p rest h =
    let (fields, e) = layout-id p in
    rw (encode-layout p, e, append_assoc (be_bytes 8 (id p)) (flatten fields) rest)
      (peek_id-be_bytes (op p) (id p) _ h)
