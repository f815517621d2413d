-- ===== src/Agent/Pull/Sending/Frames.antt =====
-- The frames of the files that `run_pull` of src/agent.rs sends, as they were planned.
use apb.Prelude.{
  ℕ, suc, ◌-◌, ◌≤◌, ◌≡◌, refl, Option, none, some, true, false, List, [], ◌∷◌, ◌++◌, append-nil,
  append_assoc, ◌==◌, length, map, arith,
}
use apb.Proto.Types.{Payload, file_start, file_end}
use apb.Delta.Signatures.{new_index}
use apb.Delta.Sink.{Op, Sink}
use apb.Delta.Sync.{send}
use apb.Agent.Types.{Plan}
use apb.Agent.Plans.{send_frames}
use apb.Agent.Pull.{PullSource}
use apb.Agent.Pull.Sending.{Look, stream_ops, op_frame}

-- The operations of a file as it was planned, on what the machine reads.
unfoldable pub ops_of : Option Sink → List Op
ops_of none = []
ops_of (some sink) = sink.ops

unfoldable pub source_ops : (List ℕ → List ℕ) → Plan → Look → PullSource → List Op
unfolding ops_of
source_ops sha256 Plan.whole look s = stream_ops look.reader
source_ops sha256 Plan.skip look s = []
source_ops sha256 Plan.delta look s =
    ops_of (send sha256 look.reader (new_index s.block_size s.block_count s.sigs))

unfoldable pub source_frames : (List ℕ → List ℕ) → ℕ → Plan → Look → PullSource → List Payload
source_frames sha256 job Plan.skip look s = []
source_frames sha256 job plan look s =
    file_start job s.seq
    ∷ (map (op_frame job) (source_ops sha256 plan look s) ++ file_end job s.sha ∷ [])

unfoldable pub sources_frames :
    (List ℕ → List ℕ) → ℕ → (PullSource → Look) → List PullSource → List Payload
sources_frames sha256 job look [] = []
sources_frames sha256 job look (s ∷ ss) =
    source_frames sha256 job s.plan (look s) s ++ sources_frames sha256 job look ss

-- Nothing stops the file: it is opened and read to its end, and a delta has operations.
abbrev pub HasOps : (List ℕ → List ℕ) → Plan → Look → PullSource → Type 0
HasOps sha256 Plan.delta look s =
    (sink : Sink) × (send sha256 look.reader (new_index s.block_size s.block_count s.sigs)
      ≡ some sink)
HasOps sha256 _ look s = Unit {0}

pub record IsSmooth (sha256 : List ℕ → List ℕ) (look : Look) (s : PullSource) : Type 0 where
  pub going : look.cancelled ≡ false
  pub opens : look.open_error ≡ none
  pub reads_on : look.stops ≡ none
  pub has_ops : HasOps sha256 s.plan look s

-- With room for the frames, the connection takes them all.
pub send_frames-fits :
    (ps : List Payload) (room : ℕ) (sent : List Payload)
    → length ps ≤ room
    → send_frames ps (record { room = room; sent = sent })
      ≡ (true, record { room = room - length ps; sent = sent ++ ps })
unfolding send_frames
send_frames-fits [] room sent h =
    let whole : room - 0 ≡ room = omega arith in rw (append-nil sent, whole) refl
send_frames-fits (p ∷ ps) room sent h =
    let full : (room == 0) ≡ false = ground arith in
    let left : room - 1 - length ps ≡ room - suc (length ps) = omega arith in
    rw (full, send_frames-fits ps (room - 1) (sent ++ p ∷ []) (omega arith))
      (rw (left, append_assoc sent (p ∷ []) ps) refl)
