-- ===== src/Wire/Framing.antt =====
-- `Inner::send` and `Inner::recv` of src/wire.rs. The session of the crate `snow` is a parameter; a socket is
-- the bytes that are on their way, and takes every write.
pub mod Exchange
use apb.Prelude.{
  ℕ, zero, suc, ◌+◌, ◌-◌, ◌%◌, ◌^◌, ◌≤◌, ◌≡◌, Option, none, some, Bool, true, false, ◌||◌, List, [],
  ◌∷◌, ◌++◌, length, take, drop, ltb, ◌==◌, if◌then◌else◌, Result, ok, err, and_then,
}
use apb.Bytes.{be_bytes, from_be}

abbrev pub max_wire : ℕ
max_wire = 65535

abbrev pub max_plain : ℕ
max_plain = max_wire - 16

-- `snow::TransportState`
pub record Noise : Type 1 where
  pub Session : Type 0
  pub write_message : Session → List ℕ → Option (List ℕ × Session)
  pub read_message : Session → List ℕ → Option (List ℕ × Session)

-- What `snow` documents of two sessions of one handshake with that many nonces left: a message that fits is
-- encrypted to 16 bytes more, and the other side reads it from them.
pub record IsNoise (N : Noise) (Paired : ℕ → N.Session → N.Session → Type 0) : Type 0 where
  pub transport :
      (left : ℕ) (s r : N.Session) (plain : List ℕ)
      → Paired (suc left) s r
      → length plain + 16 ≤ max_wire
      → (ct : List ℕ) × (s' : N.Session) × (r' : N.Session) × (N.write_message s plain
          ≡ some (ct, s'))
        × (length ct ≡ length plain + 16)
        × (N.read_message r ct ≡ some (plain, r'))
        × Paired left s' r'

pub data WireError : Type 0 where
  too_big : (size : ℕ) → WireError
  encrypt_failed : WireError
  decrypt_failed : WireError
  bad_length : (size : ℕ) → WireError
  unexpected_end : WireError

-- `len as u16`
unfoldable pub write_u16 : ℕ → List ℕ
write_u16 len = be_bytes 2 (len % 2 ^ 16)

unfoldable pub read_exact : ℕ → List ℕ → Result WireError (List ℕ × List ℕ)
read_exact n stream =
    if ltb (length stream) n then err unexpected_end else ok (take n stream, drop n stream)

check_length : ℕ → List ℕ → Result WireError (ℕ × List ℕ)
check_length n rest = if n == 0 || ltb max_wire n then err (bad_length n) else ok (n, rest)

unfoldable pub read_u16 : List ℕ → Result WireError (ℕ × List ℕ)
unfolding read_exact check_length
read_u16 stream = and_then (read_exact 2 stream) λ (b, rest). check_length (from_be b) rest

module _ (N : Noise) where
  framed : Option (List ℕ × N.Session) → Result WireError (List ℕ × N.Session)
  unfolding write_u16
  framed none = err encrypt_failed
  framed (some (ct, s)) = ok (write_u16 (length ct) ++ ct, s)

  -- The bytes that go to the socket, and the session behind them.
  unfoldable pub send : N.Session → List ℕ → Result WireError (List ℕ × N.Session)
  unfolding framed
  send s plain =
      if ltb max_plain (length plain)
      then err (too_big (length plain))
      else framed (N.write_message s plain)

  opened : List ℕ → Option (List ℕ × N.Session) → Result WireError (List ℕ × (N.Session × List ℕ))
  opened rest none = err decrypt_failed
  opened rest (some (plain, r)) = ok (plain, (r, rest))

  unfoldable pub recv : N.Session → List ℕ → Result WireError (List ℕ × (N.Session × List ℕ))
  unfolding read_u16 read_exact opened
  recv r stream =
      and_then (read_u16 stream)
        λ (n, after). and_then (read_exact n after) λ (ct, rest). opened rest (N.read_message r ct)

  -- The writer thread sends one message after the other, the reader receives as many.
  unfoldable pub send_each : N.Session → List (List ℕ) → Result WireError (List ℕ × N.Session)
  unfolding send
  send_each s [] = ok ([], s)
  send_each s (p ∷ ps) =
      and_then (send s p)
        λ (bytes, s'). and_then (send_each s' ps) λ (more, s''). ok (bytes ++ more, s'')

  unfoldable pub recv_each : ℕ → N.Session → List ℕ → Result WireError (List (List ℕ) × List ℕ)
  unfolding recv
  recv_each zero r stream = ok ([], stream)
  recv_each (suc n) r stream =
      and_then (recv r stream)
        λ (p, (r', rest)). and_then (recv_each n r' rest) λ (ps, left). ok (p ∷ ps, left)
