-- ===== src/Examples.antt =====
-- Runs of the models on concrete inputs.
use apb.Prelude.{
  max, ℕ, ◌*◌, ◌≤◌, ◌≡◌, refl, some, true, false, List, [], ◌∷◌, ◌++◌, arith, length, take, drop,
  slice, length-append, length-take, length-drop, ok, err,
}
use apb.Bytes.{IsByte}
use apb.Prelude.Signed.{pos}
use apb.Proto.Types.{ProtoError, Payload, Frame, exec_end, push_end, relay_deliver}
use apb.Proto.Utf8.{is_utf8}
use apb.Proto.Payload.WellFormed.{IsWellFormed}
use apb.Proto.Payload
use apb.Proto.Payload.RoundTrip.{decode-encode}
use apb.Proto.Payload.Decoded.{decode-IsWellFormed}
use apb.Proto.Payload.Prefix.{decode_cut}
use apb.Proto.Frame
use apb.Proto.Frame.WellFormed.{IsWellFormed as IsWellFormed_frame}
use apb.Proto.Frame.RoundTrip.{decode-encode_frame}
use apb.Delta.Blocks.{strong_len, choose_block_size, choose_block_size_bounds}
use apb.Delta.Rolling.{roll, new, roll-new}
use apb.Delta.Reader.{Reader}
use apb.Delta.Sink.{Sink, literal, copy}
use apb.Delta.Sink.Flush.{IsSink}
use apb.Delta.Signatures.{scan, encode, new_index}
use apb.Delta.Produce.Delivery.{Delivers}
use apb.Delta.Sync.{Distinct, send, delta_sync}
use apb.Delta.Writer.{FileWriter, Disk, Files, write_all, finish}
use apb.Delta.Writer.Bounds.{IsWriter, Keeps, write_all-Keeps}
use apb.Delta.Writer.Publish.{Finished, finish-Finished}
use apb.Delta.Transfer.{receive, delta_transfer}

-- The end of a command: id 7, code 1, no time-out, the reason "ok".
abbrev ended : Payload
ended = exec_end 7 (pos 1) false (111 ∷ 107 ∷ [])

ended-IsWellFormed : IsWellFormed ended
ended-IsWellFormed =
    (omega arith, omega arith, record { short = omega arith; valid = unfold is_utf8 in refl })

decode-encode_example : Payload.decode (Payload.encode ended) ≡ ok ended
decode-encode_example = decode-encode ended ended-IsWellFormed

-- A `PushEnd` with id 258.
abbrev push_end_bytes : List ℕ
push_end_bytes = 17 ∷ 0 ∷ 0 ∷ 0 ∷ 0 ∷ 0 ∷ 0 ∷ 1 ∷ 2 ∷ []

push_end_accepted : Payload.decode push_end_bytes ≡ ok (push_end 258)
unfolding Payload.decode apb.Proto.Decoder.run apb.Proto.Decoder.u8 apb.Proto.Decoder.need
    apb.Proto.Decoder.byte_here apb.Proto.Decoder.u64 apb.Proto.Decoder.slice_here apb.Bytes.from_be
push_end_accepted = refl

decode-IsWellFormed_example : IsWellFormed (push_end 258)
decode-IsWellFormed_example =
    decode-IsWellFormed push_end_bytes (push_end 258) (omega arith) push_end_accepted

push_end_encoded : Payload.encode (push_end 258) ≡ (17 ∷ 0 ∷ 0 ∷ 0 ∷ 0 ∷ 0 ∷ 0 ∷ 1 ∷ []) ++ 2 ∷ []
unfolding Payload.encode apb.Proto.Encoder.finish apb.Proto.Encoder.u64 apb.Proto.Encoder.u8
    apb.Proto.Encoder.new apb.Bytes.be_bytes
push_end_encoded = refl

decode_cut_example :
    (e : ProtoError) × (Payload.decode (17 ∷ 0 ∷ 0 ∷ 0 ∷ 0 ∷ 0 ∷ 0 ∷ 1 ∷ []) ≡ err e)
decode_cut_example =
    decode_cut (push_end 258) (17 ∷ 0 ∷ 0 ∷ 0 ∷ 0 ∷ 0 ∷ 0 ∷ 1 ∷ []) 2 [] (omega arith)
      push_end_encoded

-- A delivery on route 3.
abbrev delivery : Frame
delivery = relay_deliver 3 (1 ∷ 2 ∷ [])

delivery-IsWellFormed : IsWellFormed_frame delivery
delivery-IsWellFormed = (omega arith, omega arith)

decode-encode_frame_example : Frame.decode (Frame.encode delivery) ≡ ok delivery
decode-encode_frame_example = decode-encode_frame delivery delivery-IsWellFormed

delivery_encoded :
    Frame.encode delivery ≡ (7 ∷ 0 ∷ []) ++ 0 ∷ 0 ∷ 0 ∷ 0 ∷ 0 ∷ 0 ∷ 3 ∷ 0 ∷ 0 ∷ 0 ∷ 2 ∷ 1 ∷ 2 ∷ []
unfolding Frame.encode apb.Proto.Encoder.finish apb.Proto.Encoder.bytes apb.Proto.Encoder.u64
    apb.Proto.Encoder.u8 apb.Proto.Encoder.new apb.Bytes.be_bytes
delivery_encoded = refl

choose_block_size_bounds_example :
    (1 ≤ choose_block_size 9000)
    × (choose_block_size 9000 ≤ 512 * 1024)
    × (choose_block_size 9000 ≤ max 9000 1)
choose_block_size_bounds_example = choose_block_size_bounds 9000

roll-new_example : roll 200 7 (new (200 ∷ 4 ∷ 9 ∷ [])) ≡ new (4 ∷ 9 ∷ 7 ∷ [])
roll-new_example = roll-new 200 (4 ∷ 9 ∷ []) 7 (omega arith)

abbrev pub base_data : List ℕ
base_data = 1 ∷ 2 ∷ 3 ∷ 4 ∷ 5 ∷ []

-- A copy of two bytes is open, and one literal byte waits before it.
abbrev busy : Sink
busy = record {
  ops = [];
  pending = 9 ∷ [];
  open_copy = some (1, 2);
  literal_bytes = 1;
  copied_bytes = 0;
}

busy-IsSink : IsSink base_data 0 busy
busy-IsSink = record { room = omega arith; ops_ok = tt; copy_ok = omega arith; counted = refl }

-- A hash that tells short inputs apart.
unfoldable pub hash : List ℕ → List ℕ
hash bytes = bytes ++ 0 ∷ 0 ∷ 0 ∷ 0 ∷ 0 ∷ 0 ∷ 0 ∷ 0 ∷ 0 ∷ 0 ∷ 0 ∷ 0 ∷ 0 ∷ 0 ∷ 0 ∷ 0 ∷ []

pub hash_wide : (bytes : List ℕ) → strong_len ≤ length (hash bytes)
unfolding hash
hash_wide bytes = omega (
  arith,
  length-append bytes (0 ∷ 0 ∷ 0 ∷ 0 ∷ 0 ∷ 0 ∷ 0 ∷ 0 ∷ 0 ∷ 0 ∷ 0 ∷ 0 ∷ 0 ∷ 0 ∷ 0 ∷ 0 ∷ []),
)

hash_two :
    (v w : List ℕ)
    → length v ≡ 2
    → length w ≡ 2
    → take strong_len (hash v) ≡ take strong_len (hash w)
    → v ≡ w
unfolding hash
hash_two [] w hv hw e = absurd (omega arith)
hash_two (a ∷ []) w hv hw e = absurd (omega arith)
hash_two (a ∷ b ∷ c ∷ v) w hv hw e = absurd (omega arith)
hash_two (a ∷ b ∷ []) [] hv hw e = absurd (omega arith)
hash_two (a ∷ b ∷ []) (c ∷ []) hv hw e = absurd (omega arith)
hash_two (a ∷ b ∷ []) (c ∷ d ∷ x ∷ w) hv hw e = absurd (omega arith)
hash_two (a ∷ b ∷ []) (c ∷ d ∷ []) hv hw e = cc

pub base_data-Distinct : Distinct hash base_data 2
base_data-Distinct w i wide inside same =
    hash_two w (slice base_data (i * 2) 2) wide
      (omega (arith, length-take 2 (drop (i * 2) base_data), length-drop (i * 2) base_data)) same

-- The source holds the first block of the base between other bytes.
abbrev pub source_data : Reader
source_data = record { rest = 9 ∷ 1 ∷ 2 ∷ 7 ∷ []; sizes = 1 ∷ 3 ∷ [] }

delta_sync_example : Delivers base_data (9 ∷ 1 ∷ 2 ∷ 7 ∷ []) (
    send hash source_data
      (new_index 2 (scan hash base_data 2).block_count (encode (scan hash base_data 2))))
delta_sync_example =
    delta_sync hash hash_wide base_data 2 (omega arith) (omega arith) base_data-Distinct source_data

-- A system that does its part.
abbrev willing : Disk
willing = record { sync_ok = true; chmod_ok = true; rename_ok = true }

abbrev before : Files
before = record { dest = some base_data; tmp = true }

delta_transfer_example :
    receive hash willing base_data 4 (hash (9 ∷ 1 ∷ 2 ∷ 7 ∷ [])) before (
      send hash source_data
        (new_index 2 (scan hash base_data 2).block_count (encode (scan hash base_data 2))))
    ≡ some (ok 4, record { dest = some (9 ∷ 1 ∷ 2 ∷ 7 ∷ []); tmp = false })
delta_transfer_example =
    delta_transfer hash hash_wide base_data 2 (omega arith) (omega arith) base_data-Distinct
      source_data (omega arith) willing before refl refl refl

-- A writer for 4 bytes that has two of them.
abbrev half : FileWriter
half = record {
  written = 9 ∷ 1 ∷ [];
  hashed = 9 ∷ 1 ∷ [];
  received = 2;
  expected = 4;
  base = some base_data;
}

half-IsWriter : IsWriter half
half-IsWriter = record { counted = refl; same = refl; within = omega arith; small = omega arith }

write_all-Keeps_example : Keeps half (write_all (literal (2 ∷ []) ∷ copy 0 2 ∷ []) half)
write_all-Keeps_example =
    write_all-Keeps (literal (2 ∷ []) ∷ copy 0 2 ∷ []) half (omega arith, (tt, tt)) half-IsWriter

finish-Finished_example :
    Finished hash (5 ∷ []) half before (finish hash willing (5 ∷ []) half before)
finish-Finished_example = finish-Finished hash (5 ∷ []) half before willing half-IsWriter
