-- ===== src/Proto/Frame/RoundTrip.antt =====
-- What `decode` of src/proto.rs makes of the bytes that `Frame::encode` writes.
use mathlib.Core.List.{flatten}
use apb.Prelude.{ℕ, zero, suc, ◌+◌, ◌≡◌, List, ◌∷◌, ◌++◌, length, ok, err, inl, inr, Result-cases}
use apb.Proto.Types.{ProtoError, Frame, trailing}
use apb.Proto.Decoder.{◌>>=◌, u8}
use apb.Proto.Decoder.Reads.{Reads, Reads-bind, Reads-u8, run-Reads}
use apb.Proto.Decoder.Extends.{Extends, Extends-bind, Extends-pure, Extends-u8, extends, run-append}
use apb.Proto.Frame.{encode, read_peer, read_peers, read_frame, decode}
use apb.Proto.Frame.WellFormed.{IsWellFormed}
use apb.Proto.Frame.Layout.{tag, layout, encode-layout}
use apb.Proto.Frame.Reads.{Reads-frame}

Reads-message :
    (f : Frame) → IsWellFormed f → Reads (u8 >>= read_frame) (tag f ∷ flatten (layout f)) f
Reads-message f h = Reads-bind _ (Reads-u8 (tag f)) (Reads-frame f h)

-- A frame whose fields are in the range of their types and within the limits of the decoder, with
-- fewer than 2^16 peers in a list, is what `decode` returns from the bytes that `encode` writes.
pub decode-encode_frame : (f : Frame) → IsWellFormed f → decode (encode f) ≡ ok f
unfolding decode
decode-encode_frame f h = rw (encode-layout f) (run-Reads _ _ (Reads-message f h))

Extends-peer : Extends read_peer
unfolding read_peer
Extends-peer = search extends depth 20

Extends-peers : (n : ℕ) → Extends (read_peers n)
unfolding read_peers
Extends-peers zero = Extends-pure _
Extends-peers (suc n) =
    Extends-bind _ _ Extends-peer λ p. Extends-bind _ _ (Extends-peers n) λ ps. Extends-pure _

Extends-frame : (t : ℕ) → Extends (read_frame t)
unfolding read_frame
Extends-frame t = search (extends, Extends-peers) depth 40 fits 5000

-- If `decode` accepts a buffer, it refuses that buffer with one byte or more behind it, and says
-- how many bytes are left.
pub decode-append_frame :
    (buf : List ℕ) (f : Frame) (x : ℕ) (rest : List ℕ)
    → decode buf ≡ ok f
    → decode (buf ++ x ∷ rest) ≡ err (trailing (length rest + 1))
unfolding decode
decode-append_frame buf f x rest e =
    run-append _ buf x rest (Extends-bind u8 _ Extends-u8 Extends-frame) e

-- If the encoding of such a frame is cut short, `decode` refuses it.
pub decode_cut_frame :
    (f : Frame) (front : List ℕ) (x : ℕ) (back : List ℕ)
    → IsWellFormed f
    → encode f ≡ front ++ x ∷ back
    → (e : ProtoError) × (decode front ≡ err e)
decode_cut_frame f front x back h cut = elim (Result-cases (decode front)) [
  | inr refused ↦ refused
  | inl (q, accepted) ↦
      absurd (cc (decode-encode_frame f h, cut, decode-append_frame front q x back accepted))
]
