-- ===== src/Agent/Plans.antt =====
-- The second phase of `run_push` of src/agent.rs: what the node answers for each file of the manifest.
pub mod Choice
pub mod Targets
pub mod Chunks
use apb.Prelude.{
  ℕ, zero, suc, ◌+◌, ◌-◌, ◌*◌, ◌%◌, ◌^◌, Option, none, some, Bool, true, false, ◌&&◌, List, [], ◌∷◌,
  ◌++◌, length, take, drop, ◌==◌, if◌then◌else◌,
}
use apb.Proto.Types.{Text, Blob, Payload, file_plan, file_sigs, plan_end}
use apb.Delta.Blocks.{sig_batch, sigs_per_frame, choose_block_size, worth_delta}
use apb.Delta.Produce.{bytes_eq}
use apb.Delta.Signatures.{SigSet, scan, encode}
use apb.Delta.Writer.{all_zero}
use apb.Agent.Types.{Plan, action, PushTarget, Refusal, scan_failed, Reply, refused}

-- What stands at a path, as `symlink_metadata` tells.
pub data Found : Type 0 where
  absent : Found
  special : Found
  regular : (content : List ℕ) → Found

-- What the machine answers for one target; `chmod` of a file that is skipped may fail unnoticed.
pub record Look : Type 0 where
  pub cancelled : Bool
  pub found : Found
  pub scan_ok : Bool

pub data Planned : Type 0 where
  planned : PushTarget → Option SigSet → Planned
  unreadable : PushTarget → Planned

plan_scanned : PushTarget → List ℕ → SigSet → Planned
plan_scanned t content set =
    if (if all_zero t.sha then false else bytes_eq set.file_sha t.sha)
    then planned (record t { plan = Plan.skip }) none
    else if worth_delta (length content) t.size set.block_count
    then planned
        (record t { plan = Plan.delta; block_size = set.block_size; block_count = set.block_count })
        (some set)
    else planned t none

plan_found : (List ℕ → List ℕ) → Look → Found → PushTarget → Planned
unfolding plan_scanned
plan_found sha256 look absent t = planned t none
plan_found sha256 look special t = planned t none
plan_found sha256 look (regular content) t =
    if look.scan_ok
    then plan_scanned t content (scan sha256 content (choose_block_size (length content)))
    else unreadable t

unfoldable pub plan_push_target : (List ℕ → List ℕ) → Look → PushTarget → Planned
unfolding plan_found
plan_push_target sha256 look t =
    plan_found sha256 look look.found
      (record t { plan = Plan.whole; block_size = 0; block_count = 0 })

-- `slice::chunks`: a chunk takes a byte at least, so `length xs` rounds are enough.
unfoldable pub chunks_loop : ℕ → ℕ → List ℕ → List (List ℕ)
chunks_loop zero n xs = []
chunks_loop (suc fuel) n [] = []
chunks_loop (suc fuel) n (x ∷ xs) = take n (x ∷ xs) ∷ chunks_loop fuel n (drop n (x ∷ xs))

unfoldable pub chunks : ℕ → List ℕ → List (List ℕ)
unfolding chunks_loop
chunks n xs = chunks_loop (length xs) n xs

-- `for (i, chunk) in blob.chunks(SIG_BATCH).enumerate()`
unfoldable pub sig_frames : (job seq i : ℕ) → List (List ℕ) → List Payload
sig_frames job seq i [] = []
sig_frames job seq i (c ∷ cs) =
    file_sigs job seq (i * sigs_per_frame % 2 ^ 64) c ∷ sig_frames job seq (i + 1) cs

unfoldable pub set_frames : (job seq : ℕ) → Option SigSet → List Payload
unfolding sig_frames chunks
set_frames job seq none = []
set_frames job seq (some set) = sig_frames job seq 0 (chunks sig_batch (encode set))

unfoldable pub plan_frames : ℕ → PushTarget → Option SigSet → List Payload
unfolding set_frames
plan_frames job t sigs =
    file_plan job t.seq (action t.plan) t.block_size t.block_count ∷ set_frames job t.seq sigs

-- The connection takes `room` more frames.
pub record Line : Type 0 where
  pub room : ℕ
  pub sent : List Payload

-- The frames, up to the one that the connection refuses: whether all were taken, and what is on the line.
unfoldable pub send_frames : List Payload → Line → Bool × Line
send_frames [] l = (true, l)
send_frames (p ∷ ps) l =
    let rest = send_frames ps (record { room = l.room - 1; sent = l.sent ++ p ∷ [] }) in
    if l.room == 0 then (false, l) else rest

-- The loop went through all targets, or the handler returned.
pub data Plans : Type 0 where
  all_planned : List PushTarget → Line → Plans
  gave_up : Line → List Reply → Plans

-- `PlanEnd` goes out whether the connection takes it or not.
end_plans : ℕ → List PushTarget → Line → Plans
end_plans job before l = all_planned before (send_frames (plan_end job ∷ []) l).1

sent_plan : (PushTarget → Line → Plans) → PushTarget → Bool × Line → Plans
sent_plan next t (true, l) = next t l
sent_plan next t (false, l) = gave_up l []

one_plan : (PushTarget → Line → Plans) → ℕ → Planned → Line → Plans
unfolding sent_plan
one_plan next job (unreadable t) l = gave_up l (refused 500 scan_failed ∷ [])
one_plan next job (planned t sigs) l = sent_plan next t (send_frames (plan_frames job t sigs) l)

-- `for t in targets.iter_mut()`, behind the targets that are planned.
unfoldable pub plan_targets :
    (List ℕ → List ℕ) → ℕ → (PushTarget → Look) → (before targets : List PushTarget) → Line → Plans
unfolding end_plans one_plan
plan_targets sha256 job look before [] l = end_plans job before l
plan_targets sha256 job look before (t ∷ ts) l =
    let next =
      λ (t' : PushTarget) (l' : Line). plan_targets sha256 job look (before ++ t' ∷ []) ts l' in
    if (look t).cancelled
    then gave_up l []
    else one_plan next job (plan_push_target sha256 (look t) t) l
