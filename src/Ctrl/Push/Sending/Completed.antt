-- ===== src/Ctrl/Push/Sending/Completed.antt =====
-- The third phase of `push` of src/ctrl.rs where nothing stops it: what the connection has taken.
use mathlib.Core.Path.{subst}
use apb.Prelude.{
  ℕ, ◌+◌, ◌-◌, ◌/◌, ◌≤◌, ◌≡◌, refl, sym, ap, ◌∙◌, Option, none, some, List, [], ◌∷◌, ◌++◌,
  append_assoc, length, length-append, map, get_elem?, arith, All, Result, ok, err,
}
use apb.Proto.Types.{Text, Blob, Payload, file_start, file_end, push_end}
use apb.Delta.Blocks.{sig_len}
use apb.Delta.Signatures.{IndexError, SigIndex, new_index}
use apb.Delta.Sink.{Op, Sink}
use apb.Delta.Sync.{send}
use apb.Agent.Plans.{Line}
use apb.Agent.Pull.Sending.{stream_ops, op_frame}
use apb.Agent.Pull.Sending.Frames.{ops_of, send_frames-fits}
use apb.Ctrl.Plans.{FilePlan, Slots}
use apb.Ctrl.Push.{ManifestFile}
use apb.Ctrl.Push.Sending.{
  Look, Ending, complete, check_send_feedback, cut, end_sent, body_sent, send_body,
  stream_local_file, send_ops, send_file_delta, started, send_planned, send_slot, send_checked,
  last_sent, send_files,
}

-- A file with what the node has answered for it.
pub record Task : Type 0 where
  pub file : ManifestFile
  pub plan : FilePlan
  pub block_size : ℕ
  pub sigs : Blob

unfoldable pub task_ops : (List ℕ → List ℕ) → FilePlan → Look → Task → List Op
task_ops sha256 FilePlan.whole look t = stream_ops look.reader
task_ops sha256 FilePlan.skip look t = []
task_ops sha256 FilePlan.delta look t =
    ops_of (send sha256 look.reader (new_index t.block_size (length t.sigs / sig_len) t.sigs))

unfoldable pub task_frames : (List ℕ → List ℕ) → ℕ → FilePlan → Look → Task → List Payload
task_frames sha256 job FilePlan.skip look t = []
task_frames sha256 job plan look t =
    file_start job t.file.seq
    ∷ (map (op_frame job) (task_ops sha256 plan look t) ++ file_end job t.file.sha ∷ [])

unfoldable pub tasks_frames :
    (List ℕ → List ℕ) → ℕ → (ManifestFile → Look) → List Task → List Payload
tasks_frames sha256 job look [] = []
tasks_frames sha256 job look (t ∷ ts) =
    task_frames sha256 job t.plan (look t.file) t ++ tasks_frames sha256 job look ts

abbrev pub HasOps : (List ℕ → List ℕ) → FilePlan → Look → Task → Type 0
HasOps sha256 FilePlan.delta look t =
    (sink : Sink) × (send sha256 look.reader
        (new_index t.block_size (length t.sigs / sig_len) t.sigs)
      ≡ some sink)
HasOps sha256 _ look t = Unit {0}

-- The answers stand in their places, no failure is reported in time, the file is opened and read to its end,
-- and a delta has operations.
pub record IsSmooth (sha256 : List ℕ → List ℕ) (slots : Slots) (look : Look) (t : Task)
    : Type 0 where
  pub planned : get_elem? slots.plans t.file.seq ≡ some t.plan
  pub sized : get_elem? slots.block_sizes t.file.seq ≡ some t.block_size
  pub signed : get_elem? slots.sigs t.file.seq ≡ some t.sigs
  pub quiet : check_send_feedback look.feedback ≡ none
  pub opens : look.open_error ≡ none
  pub reads_on : look.stops ≡ none
  pub has_ops : HasOps sha256 t.plan look t

-- The loop went through, and this is on the line.
abbrev pub Completes : List Payload → Line × Ending → Type 0
Completes sent (l, ending) = (l.sent ≡ sent) × (ending ≡ complete)

-- Files behind, for which `tail` goes over the line and `need` frames fit.
module _ (sha256 : List ℕ → List ℕ) (job : ℕ) (next : Line → Line × Ending) (tail : List Payload)
    (need : ℕ)
    (goes : (room : ℕ) (sent : List Payload)
      → need ≤ room
      → Completes (sent ++ tail) (next (record { room = room; sent = sent })))
    (look : Look) (t : Task) where
  -- A frame, those of the content and a last one, before the tail.
  framed :
      (sent : List Payload) (first : Payload) (frames : List Payload) (last : Payload)
      → (sent ++ first ∷ []) ++ (frames ++ last ∷ tail)
        ≡ sent ++ (first ∷ ((frames ++ last ∷ []) ++ tail))
  framed sent first frames last =
      append_assoc sent (first ∷ []) (frames ++ last ∷ tail)
      ∙ ap (λ l. sent ++ first ∷ l) (sym (append_assoc frames (last ∷ []) tail))

  send_body-Completes :
      (frames : List Payload) (room : ℕ) (sent : List Payload)
      → length frames + 1 + need ≤ room
      → Completes
          (sent ++ (frames ++ file_end job t.file.sha ∷ tail))
          (send_body sha256 job next t.file (frames, none) (record { room = room; sent = sent }))
  unfolding send_body body_sent end_sent
  send_body-Completes frames room sent h =
      let last : Payload = file_end job t.file.sha in
      let joined : ((sent ++ frames) ++ last ∷ []) ++ tail ≡ sent ++ (frames ++ last ∷ tail) =
        append_assoc (sent ++ frames) (last ∷ []) tail ∙ append_assoc sent frames (last ∷ tail) in
      rw
        (
          send_frames-fits frames room sent (omega arith),
          send_frames-fits (last ∷ []) (room - length frames) (sent ++ frames) (omega arith),
        )
        (subst
          (λ z. Completes z (
            next
              (record { room = room - length frames - 1; sent = (sent ++ frames) ++ last ∷ [] })))
          joined (goes (room - length frames - 1) ((sent ++ frames) ++ last ∷ []) (omega arith)))

  cut_body-Completes :
      (frames : List Payload) (room : ℕ) (sent : List Payload)
      → look.stops ≡ none
      → length frames + 1 + need ≤ room
      → Completes (sent ++ (frames ++ file_end job t.file.sha ∷ tail)) (
          send_body sha256 job next t.file
            (cut look.stops frames)
            (record { room = room; sent = sent }))
  unfolding cut
  cut_body-Completes frames room sent on h =
      subst
        (λ c.
          Completes (sent ++ (frames ++ file_end job t.file.sha ∷ tail))
            (send_body sha256 job next t.file (cut c frames) (record { room = room; sent = sent })))
        (sym on) (send_body-Completes frames room sent h)

  stream_local_file-Completes :
      (opened : Option Text) (room : ℕ) (sent : List Payload)
      → opened ≡ none
      → look.stops ≡ none
      → length (map (op_frame job) (stream_ops look.reader)) + 1 + need ≤ room
      → Completes
          (sent ++ (map (op_frame job) (stream_ops look.reader) ++ file_end job t.file.sha ∷ tail))
          (stream_local_file sha256 job next opened look t.file
            (record { room = room; sent = sent }))
  unfolding stream_local_file
  stream_local_file-Completes (some message) room sent e on h = cc
  stream_local_file-Completes none room sent e on h = cut_body-Completes _ room sent on h

  send_file_delta-Completes :
      (r : Result IndexError SigIndex) (opened : Option Text) (sink : Sink) (room : ℕ)
      (sent : List Payload)
      → opened ≡ none
      → look.stops ≡ none
      → send sha256 look.reader r ≡ some sink
      → length (map (op_frame job) sink.ops) + 1 + need ≤ room
      → Completes (sent ++ (map (op_frame job) sink.ops ++ file_end job t.file.sha ∷ tail)) (
          send_file_delta sha256 job next r opened look t.file
            (record { room = room; sent = sent }))
  unfolding send_file_delta send send_ops
  send_file_delta-Completes (err e) opened sink room sent o on q h = cc
  send_file_delta-Completes (ok idx) (some message) sink room sent o on q h = cc
  send_file_delta-Completes (ok idx) none sink room sent o on q h =
      rw q (cut_body-Completes (map (op_frame job) sink.ops) room sent on h)

  send_planned-Completes :
      (plan : FilePlan) (room : ℕ) (sent : List Payload)
      → look.open_error ≡ none
      → look.stops ≡ none
      → HasOps sha256 plan look t
      → length (task_frames sha256 job plan look t) + need ≤ room
      → Completes (sent ++ (task_frames sha256 job plan look t ++ tail)) (
          send_planned sha256 job next plan t.block_size t.sigs look t.file
            (record { room = room; sent = sent }))
  unfolding send_planned started task_frames task_ops ops_of
  send_planned-Completes FilePlan.skip room sent o on ops h = goes room sent (omega (arith, h))
  send_planned-Completes FilePlan.whole room sent o on ops h =
      let first : Payload = file_start job t.file.seq in
      let last : Payload = file_end job t.file.sha in
      let frames = map (op_frame job) (stream_ops look.reader) in
      let sizes : length (frames ++ last ∷ []) ≡ length frames + 1 =
        length-append frames (last ∷ []) in
      rw (send_frames-fits (first ∷ []) room sent (omega arith)) (
        subst
          (λ z. Completes z (
            stream_local_file sha256 job next look.open_error look t.file
              (record { room = room - 1; sent = sent ++ first ∷ [] })))
          (framed sent first frames last)
          (stream_local_file-Completes look.open_error (room - 1) (sent ++ first ∷ []) o on
            (omega (arith, sizes, h))))
  send_planned-Completes FilePlan.delta room sent o on (sink, q) h =
      let first : Payload = file_start job t.file.seq in
      let last : Payload = file_end job t.file.sha in
      let frames = map (op_frame job) sink.ops in
      let index = new_index t.block_size (length t.sigs / sig_len) t.sigs in
      let whole : List Payload = map (op_frame job) (ops_of (send sha256 look.reader index)) in
      let found : whole ≡ frames = ap (λ o. map (op_frame job) (ops_of o)) q in
      let sizes : length (whole ++ last ∷ []) ≡ length frames + 1 =
        length-append whole (last ∷ []) ∙ ap (λ l. length l + 1) found in
      rw (send_frames-fits (first ∷ []) room sent (omega arith)) (
        subst
          (λ z. Completes z (
            send_file_delta sha256 job next index look.open_error look t.file
              (record { room = room - 1; sent = sent ++ first ∷ [] })))
          (framed sent first frames last
            ∙ ap (λ l. sent ++ first ∷ ((l ++ last ∷ []) ++ tail)) (sym found))
          (send_file_delta-Completes index look.open_error sink (room - 1) (sent ++ first ∷ []) o on
            q (omega (arith, sizes, h))))

module _ (sha256 : List ℕ → List ℕ) (job : ℕ) (slots : Slots) (look : ManifestFile → Look) where
  -- The answers of the node are at hand, and the file is passed to `send_planned`.
  send_checked_lem :
      (next : Line → Line × Ending) (t : Task) (l : Line)
      → IsSmooth sha256 slots (look t.file) t
      → send_checked sha256 job next
          (check_send_feedback (look t.file).feedback)
          slots
          (look t.file)
          t.file
          l
        ≡ send_planned sha256 job next t.plan t.block_size t.sigs (look t.file) t.file l
  unfolding send_checked send_slot
  send_checked_lem next t l h =
      ap (λ c. send_checked sha256 job next c slots (look t.file) t.file l) h.quiet ∙ λ i.
      send_slot sha256 job next (h.planned i) (h.sized i) (h.signed i) (look t.file) t.file l

  -- If the answers of the node stand in their places, no failure is reported in time, every file is opened and
  -- read to its end, each delta has operations and the connection has room for all frames, then the phase goes
  -- through, and has sent the frames of the files that are not skipped, in their order, and then `PushEnd`.
  pub send_files-Completes :
      (ts : List Task) (room : ℕ) (sent : List Payload)
      → All (λ t. IsSmooth sha256 slots (look t.file) t) ts
      → length (tasks_frames sha256 job look ts) + 1 ≤ room
      → Completes (sent ++ (tasks_frames sha256 job look ts ++ push_end job ∷ [])) (
          send_files sha256 job slots look
            (map (λ t. t.file) ts)
            (record { room = room; sent = sent }))
  unfolding send_files tasks_frames last_sent
  send_files-Completes [] room sent h fits =
      rw (send_frames-fits (push_end job ∷ []) room sent (omega arith)) (refl, refl)
  send_files-Completes (t ∷ ts) room sent (here, h) fits =
      let mine = task_frames sha256 job t.plan (look t.file) t in
      let rest = tasks_frames sha256 job look ts in
      let tail : List Payload = rest ++ push_end job ∷ [] in
      let files = map (λ (x : Task). x.file) ts in
      let next = λ (l : Line). send_files sha256 job slots look files l in
      let sizes : length (mine ++ rest) ≡ length mine + length rest = length-append mine rest in
      let joined : sent ++ (mine ++ tail) ≡ sent ++ ((mine ++ rest) ++ push_end job ∷ []) =
        ap (λ l. sent ++ l) (sym (append_assoc mine rest (push_end job ∷ []))) in
      subst (Completes (sent ++ ((mine ++ rest) ++ push_end job ∷ [])))
        (sym (send_checked_lem next t (record { room = room; sent = sent }) here))
        (subst
          (λ z. Completes z (
            send_planned sha256 job next t.plan t.block_size t.sigs (look t.file) t.file
              (record { room = room; sent = sent })))
          joined
          (send_planned-Completes sha256 job next tail (length rest + 1)
            (λ room' sent' fits'. send_files-Completes ts room' sent' h fits') (look t.file) t
            t.plan room sent here.opens here.reads_on here.has_ops (omega (arith, sizes, fits))))
