-- ===== src/Delta/Sync.antt =====
-- A push in delta mode from end to end, with the parts of src/delta.rs that the two sides use: the
-- receiver's `scan` and `encode`, the sender's `SigIndex::new` and `produce_delta`.
use mathlib.Core.Path.{subst}
use apb.Prelude.{
  Option, none, refl, ℕ, ◌+◌, ◌*◌, ◌/◌, ◌^◌, ◌≤◌, ◌≡◌, sym, List, length, take, slice, Result, ok,
  err,
}
use apb.Delta.Blocks.{strong_len}
use apb.Delta.Sink.{Sink}
use apb.Delta.Reader.{Reader}
use apb.Delta.Signatures.{SigIndex, IndexError, encode, new_index, scan}
use apb.Delta.Signatures.Accepted.{Accepted, new_index-encode}
use apb.Delta.Produce.{produce_delta}
use apb.Delta.Produce.Match.{IsIndex, NoCollision}
use apb.Delta.Produce.Delivery.{Delivers, produce_delta-IsDelivery}

-- No other bytes of the size of a block have the truncated hash of a full block of `base`.
abbrev pub Distinct : (List ℕ → List ℕ) → List ℕ → ℕ → Type 0
Distinct sha256 base bs =
    (w : List ℕ) (i : ℕ)
    → length w ≡ bs
    → i * bs + bs ≤ length base
    → take strong_len (sha256 w) ≡ take strong_len (sha256 (slice base (i * bs) bs))
    → w ≡ slice base (i * bs) bs

-- The sender's part, once it has the answer of the receiver.
unfoldable pub send : (List ℕ → List ℕ) → Reader → Result IndexError SigIndex → Option Sink
send sha256 src (ok idx) = produce_delta sha256 idx src
send sha256 src (err e) = none

Distinct-NoCollision :
    (sha256 : List ℕ → List ℕ) (base : List ℕ) (idx : SigIndex)
    → IsIndex sha256 base idx
    → Distinct sha256 base idx.block_size
    → NoCollision sha256 base idx
Distinct-NoCollision sha256 base idx ix distinct w i wide lt same =
    distinct w i wide (ix.inside i lt) same

send-Delivers :
    (sha256 : List ℕ → List ℕ) (base : List ℕ) (bs : ℕ) (src : Reader)
    (r : Result IndexError SigIndex)
    → Accepted sha256 base bs r
    → Distinct sha256 base bs
    → Delivers base src.rest (send sha256 src r)
unfolding send
send-Delivers sha256 base bs src (ok idx) (same, ix) distinct =
    produce_delta-IsDelivery sha256 base src.rest idx ix
      (Distinct-NoCollision sha256 base idx ix (subst (Distinct sha256 base) (sym same) distinct))
      src refl
send-Delivers sha256 base bs src (err e) x distinct = elim x [ ]

-- For a block size of at least 1, a hash of at least 16 bytes, at most 2^32 blocks and no collision of
-- the truncated hash with a block of the base, the operations that the sender produces from the
-- receiver's signature list turn the base into the source, whatever sizes the reads have: none is
-- outside the base or above `CHUNK`, and the two counts add up to the length of the source.
pub delta_sync :
    (sha256 : List ℕ → List ℕ)
    → (wide : (bytes : List ℕ) → strong_len ≤ length (sha256 bytes)) → (base : List ℕ) (bs : ℕ)
    → 1 ≤ bs
    → length base / bs ≤ 2 ^ 32
    → Distinct sha256 base bs
    → (src : Reader)
    → Delivers base src.rest (
        send sha256 src
          (new_index bs (scan sha256 base bs).block_count (encode (scan sha256 base bs))))
delta_sync sha256 wide base bs size small distinct src =
    send-Delivers sha256 base bs src _ (new_index-encode sha256 wide base bs size small) distinct
