-- ===== src/Delta/Blocks.antt =====
-- The constants of src/delta.rs, the choice of the block size and the worth of a delta.
use apb.Prelude.{
  ℕ, ◌*◌, ◌/◌, ◌%◌, ◌^◌, ◌≤◌, ◌≡◌, ◌↔◌, Bool, true, false, ◌&&◌, ◌||◌, arith, ltb, leb, ◌==◌,
  if◌then◌else◌, min, max,
}

abbrev pub sig_len : ℕ
sig_len = 20

abbrev pub strong_len : ℕ
strong_len = 16

abbrev pub chunk : ℕ
chunk = 16 * 1024

abbrev pub sigs_per_frame : ℕ
sigs_per_frame = chunk / sig_len

abbrev pub sig_batch : ℕ
sig_batch = sigs_per_frame * sig_len

abbrev pub read_chunk : ℕ
read_chunk = 2 ^ 20

abbrev pub delta_min_size : ℕ
delta_min_size = 4096

abbrev kib : ℕ
kib = 1024

pub choose_block_size : ℕ → ℕ
choose_block_size base_size =
    let bs =
      if ltb (512 * 1024 * kib) base_size
      then 512 * kib
      else if ltb (64 * 1024 * kib) base_size
      then 128 * kib
      else if ltb (8 * 1024 * kib) base_size
      then 32 * kib
      else 8 * kib in
    max (min bs (max base_size 1)) 1 % 2 ^ 32

pub worth_delta : ℕ → ℕ → ℕ → Bool
worth_delta base_size source_size block_count =
    if ltb base_size delta_min_size || ltb source_size delta_min_size || block_count == 0
    then false
    else let sig_bytes = block_count * sig_len in
      leb (sig_bytes * 8) source_size && leb (sig_bytes * 8) base_size

-- Whatever the size of the base, the block size is at least 1 and at most 512 KiB, and it is
-- at most the size of a base that is not empty.
pub choose_block_size_bounds :
    (base_size : ℕ)
    → (1 ≤ choose_block_size base_size)
      × (choose_block_size base_size ≤ 512 * 1024)
      × (choose_block_size base_size ≤ max base_size 1)
unfolding choose_block_size
choose_block_size_bounds base_size = (ground arith, ground arith, ground arith)

-- A larger base never gets smaller blocks.
pub choose_block_size_mono : (m n : ℕ) → m ≤ n → choose_block_size m ≤ choose_block_size n
unfolding choose_block_size
choose_block_size_mono m n h = ground arith

-- A delta is worth its round trip exactly if both files have 4096 bytes, the base has a full block,
-- and the signatures are at most an eighth of either file.
pub worth_delta_iff :
    (base_size source_size block_count : ℕ)
    → (worth_delta base_size source_size block_count ≡ true) ↔ (
        (4096 ≤ base_size)
        × (4096 ≤ source_size)
        × (1 ≤ block_count)
        × (block_count * 20 * 8 ≤ source_size)
        × (block_count * 20 * 8 ≤ base_size))
unfolding worth_delta
worth_delta_iff base_size source_size block_count = (λ h. ground arith, λ h. ground arith)
