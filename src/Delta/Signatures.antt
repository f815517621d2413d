-- ===== src/Delta/Signatures.antt =====
-- `SigSet` and `SigIndex` of src/delta.rs. `sha256` is the hash of the crate `sha2`.
pub mod Rows
pub mod Scanned
pub mod Index
pub mod Accepted
use apb.Prelude.{
  ℕ, zero, suc, ◌+◌, ◌*◌, ◌%◌, ◌^◌, ◌≤◌, ◌<◌, ◌≡◌, Option, none, some, Bool, true, false, ◌&&◌,
  List, [], ◌∷◌, ◌++◌, length, take, drop, slice, max, ltb, ◌==◌, if◌then◌else◌, Result, ok, err,
}
use apb.Bytes.{be_bytes, from_be}
use apb.Delta.Blocks.{sig_len, strong_len}
use apb.Delta.Rolling.{weak_checksum}

pub record SigSet : Type 0 where
  pub block_size : ℕ
  pub block_count : ℕ
  pub weak : List ℕ
  pub strong : List ℕ
  pub file_sha : List ℕ
  pub size : ℕ

-- The variables of the loop of `scan`: `rest` is what the file still holds, `hashed` what the
-- hasher was given.
pub record ScanState : Type 0 where
  pub rest : List ℕ
  pub hashed : List ℕ
  pub weak : List ℕ
  pub strong : List ℕ

module _ (sha256 : List ℕ → List ℕ) where
  -- The checksum of a block and the first bytes of its hash.
  push_block : List ℕ → ScanState → ScanState
  push_block block s = record s {
    weak = s.weak ++ weak_checksum block ∷ [];
    strong = s.strong ++ take strong_len (sha256 block);
  }

  -- `read_full` fills the buffer of `bs` bytes unless the file ends before.
  unfoldable pub scan_loop : ℕ → ℕ → ScanState → ScanState
  unfolding push_block
  scan_loop zero bs s = s
  scan_loop (suc fuel) bs s =
      let block = take bs s.rest in
      let n = length block in
      let read = record s { rest = drop bs s.rest; hashed = s.hashed ++ block } in
      let again = scan_loop fuel bs (push_block block read) in
      if n == 0 then s else if n == bs then again else read

  -- A round that goes on takes a byte at least, so `length content + 1` rounds are enough.
  unfoldable pub scan : List ℕ → ℕ → SigSet
  unfolding scan_loop
  scan content block_size =
      let s =
        scan_loop (suc (length content)) (max block_size 1)
          (record { rest = content; hashed = []; weak = []; strong = [] }) in
      record {
        block_size = block_size;
        block_count = length s.weak;
        weak = s.weak;
        strong = s.strong;
        file_sha = sha256 s.hashed;
        size = length content;
      }

unfoldable pub encode_from : ℕ → List ℕ → List ℕ → List ℕ
encode_from i [] strong = []
encode_from i (w ∷ ws) strong =
    be_bytes 4 w ++ (slice strong (i * strong_len) strong_len ++ encode_from (i + 1) ws strong)

unfoldable pub encode : SigSet → List ℕ
unfolding encode_from
encode set = encode_from 0 set.weak set.strong

-- `HashMap<u32, Vec<u32>>`
abbrev pub WeakMap : Type 0
WeakMap = List (ℕ × List ℕ)

unfoldable pub lookup : ℕ → WeakMap → Option (List ℕ)
lookup w [] = none
lookup w ((v, blocks) ∷ m) = if v == w then some blocks else lookup w m

-- `entry(w).or_default().push(i)`
unfoldable pub push : ℕ → ℕ → WeakMap → WeakMap
push w i [] = (w, i ∷ []) ∷ []
push w i ((v, blocks) ∷ m) = if v == w then (v, blocks ++ i ∷ []) ∷ m else (v, blocks) ∷ push w i m

pub record SigIndex : Type 0 where
  pub block_size : ℕ
  pub block_count : ℕ
  pub strong : List ℕ
  pub by_weak : WeakMap

pub data IndexError : Type 0 where
  bad_block_size : IndexError
  impossible_block_count : ℕ → IndexError
  signature_list : (len want : ℕ) → IndexError

-- `for i in 0..block_count`, with `n` rounds left.
unfoldable pub index_loop : (n i : ℕ) → List ℕ → WeakMap → List ℕ → WeakMap × List ℕ
index_loop zero i blob by_weak strong = (by_weak, strong)
index_loop (suc n) i blob by_weak strong =
    let at = i * sig_len in
    index_loop n (i + 1) blob (push (from_be (slice blob at 4)) (i % 2 ^ 32) by_weak)
      (strong ++ slice blob (at + 4) strong_len)

unfoldable pub new_index : ℕ → ℕ → List ℕ → Result IndexError SigIndex
unfolding index_loop
new_index block_size block_count blob =
    let want = block_count * sig_len in
    let (by_weak, strong) = index_loop block_count 0 blob [] [] in
    if block_size == 0
    then err bad_block_size
    else if ltb want (2 ^ 64)
    then (if length blob == want
        then ok (record {
          block_size = block_size;
          block_count = block_count;
          strong = strong;
          by_weak = by_weak;
        })
        else err (signature_list (length blob) want))
    else err (impossible_block_count block_count)

unfoldable pub strong_of : SigIndex → ℕ → List ℕ
strong_of idx block = slice idx.strong (block * strong_len) strong_len
