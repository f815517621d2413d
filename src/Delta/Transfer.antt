-- ===== src/Delta/Transfer.antt =====
-- A file that goes over as a delta, up to the moment when it stands at the receiver: the sender's part of
-- src/delta.rs, the frames in their order, and the `FileWriter` that takes them.
use apb.Prelude.{
  ℕ, ◌+◌, ◌/◌, ◌^◌, ◌≤◌, ◌<◌, ◌≡◌, refl, ap, ◌∙◌, Option, none, some, true, false, List, arith,
  length, Result, ok, err,
}
use apb.Delta.Blocks.{strong_len}
use apb.Delta.Reader.{Reader}
use apb.Delta.Signatures.{encode, new_index, scan}
use apb.Delta.Sink.{Sink, apply}
use apb.Delta.Sync.{Distinct, send, delta_sync}
use apb.Delta.Produce.Delivery.{Delivers}
use apb.Delta.Writer.{Disk, Files, FinishError, create, write_all, finish}
use apb.Delta.Writer.Rebuild.{grown, write_all-ok}
use apb.Delta.Writer.Publish.{finish_published}

-- The receiver: the operations on the base, and then the checks against the announced size and hash.
unfoldable pub receive :
    (List ℕ → List ℕ)
    → Disk
    → (base : List ℕ) → (size : ℕ) → (sha : List ℕ) → Files
    → Option Sink
    → Option (Result FinishError ℕ × Files)
receive sha256 disk base size sha f none = none
receive sha256 disk base size sha f (some s) = elim (write_all s.ops (create (some base) size)) [
  | ok w ↦ some (finish sha256 disk sha w f)
  | err e ↦ none
]

module _ (sha256 : List ℕ → List ℕ) (disk : Disk) (base source : List ℕ) (f : Files)
    (small : length source < 2 ^ 63) (sync : disk.sync_ok ≡ true) (chmod : disk.chmod_ok ≡ true)
    (rename : disk.rename_ok ≡ true) where
  receive-Delivers :
      (s : Option Sink)
      → Delivers base source s
      → receive sha256 disk base (length source) (sha256 source) f s
        ≡ some (ok (length source), record { dest = some source; tmp = false })
  unfolding receive
  receive-Delivers none h = elim h [ ]
  receive-Delivers (some s) h =
      let w = create (some base) (length source) in
      let sized : length (apply base s.ops) ≡ length source = ap length h.result in
      let counted : ◌≡◌ {A = Result FinishError ℕ × Files}
          (
            ok (grown source w).received,
            record { dest = some (grown source w).written; tmp = false },
          )
          (ok (length source), record { dest = some source; tmp = false }) =
        unfold grown create in
        (let n : 0 + length source ≡ length source = omega arith in rw n refl) in
      let taken : write_all s.ops w ≡ ok (grown source w) =
        write_all-ok base s.ops w h.ops_ok (unfold create in refl)
          (unfold create in omega (arith, sized)) (unfold create in small)
        ∙ ap (λ l. ok (grown l w)) h.result in
      rw (taken, receive)
        (ap some (
          finish_published sha256 (sha256 source) (grown source w) f disk sync chmod rename
            (unfold grown create in omega arith) (unfold grown create in refl)
          ∙ counted))

-- For a block size of at least 1, a hash of at least 16 bytes, at most 2^32 blocks, no collision of the
-- truncated hash with a block of the base, a source below 2^63 bytes and a system that syncs, sets
-- permissions and renames, the receiver ends with the source as its file, for every schedule of reads.
pub delta_transfer :
    (sha256 : List ℕ → List ℕ)
    → (wide : (bytes : List ℕ) → strong_len ≤ length (sha256 bytes)) → (base : List ℕ) (bs : ℕ)
    → 1 ≤ bs
    → length base / bs ≤ 2 ^ 32
    → Distinct sha256 base bs
    → (src : Reader) → length src.rest < 2 ^ 63
    → (disk : Disk) (f : Files) → disk.sync_ok ≡ true
    → disk.chmod_ok ≡ true
    → disk.rename_ok ≡ true
    → receive sha256 disk base (length src.rest) (sha256 src.rest) f (
        send sha256 src
          (new_index bs (scan sha256 base bs).block_count (encode (scan sha256 base bs))))
      ≡ some (ok (length src.rest), record { dest = some src.rest; tmp = false })
delta_transfer sha256 wide base bs size few distinct src small disk f sync chmod rename =
    receive-Delivers sha256 disk base src.rest f small sync chmod rename _
      (delta_sync sha256 wide base bs size few distinct src)
