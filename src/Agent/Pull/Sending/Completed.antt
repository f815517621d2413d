-- ===== src/Agent/Pull/Sending/Completed.antt =====
-- The third phase of `run_pull` of src/agent.rs where nothing stops it: what the connection has taken.
use mathlib.Core.Path.{subst}
use apb.Prelude.{
  ℕ, suc, ◌+◌, ◌-◌, ◌≤◌, ◌≡◌, refl, sym, ap, ◌∙◌, Option, none, some, Bool, true, false, List, [],
  ◌∷◌, ◌++◌, append_assoc, length, length-append, map, arith, All, if◌then◌else◌, Result, ok, err,
}
use apb.Proto.Types.{Text, Payload, file_start, file_end, transfer_done}
use apb.Delta.Signatures.{IndexError, SigIndex, new_index}
use apb.Delta.Sink.{Sink}
use apb.Delta.Sync.{send}
use apb.Agent.Types.{Plan}
use apb.Agent.Plans.{Line}
use apb.Agent.Pull.{PullSource}
use apb.Agent.Pull.Sending.{
  Look, Ending, complete, stream_ops, op_frame, cut, zero_sha, finish_pull, end_source, body_sent,
  send_body, stream_file, send_ops, send_delta, started, send_planned, send_sources,
}
use apb.Agent.Pull.Sending.Frames.{
  ops_of, source_ops, source_frames, sources_frames, HasOps, IsSmooth, send_frames-fits,
}

-- The loop went through, and this is on the line.
abbrev pub Completes : List Payload → Line × Ending → Type 0
Completes sent (l, ending) = (l.sent ≡ sent) × (ending ≡ complete)

-- Files behind, for which `tail` goes over the line and `need` frames fit.
module _ (sha256 : List ℕ → List ℕ) (job : ℕ) (root : Text) (total : ℕ)
    (next : Line → Line × Ending) (tail : List Payload) (need : ℕ)
    (goes : (room : ℕ) (sent : List Payload)
      → need ≤ room
      → Completes (sent ++ tail) (next (record { room = room; sent = sent })))
    (look : Look) (s : PullSource) where
  send_body-Completes :
      (quiet : Bool) (frames : List Payload) (room : ℕ) (sent : List Payload)
      → length frames + 1 + need ≤ room
      → Completes (sent ++ (frames ++ file_end job s.sha ∷ tail)) (
          send_body sha256 job root total next look s quiet
            (frames, none)
            (record { room = room; sent = sent }))
  unfolding send_body body_sent end_source
  send_body-Completes quiet frames room sent h =
      let last : Payload = file_end job s.sha in
      let joined : ((sent ++ frames) ++ last ∷ []) ++ tail ≡ sent ++ (frames ++ last ∷ tail) =
        append_assoc (sent ++ frames) (last ∷ []) tail ∙ append_assoc sent frames (last ∷ tail) in
      rw
        (
          send_frames-fits frames room sent (omega arith),
          send_frames-fits (last ∷ []) (room - length frames) (sent ++ frames) (omega arith),
        )
        (subst
          (λ z. Completes z (
            next
              (record { room = room - length frames - 1; sent = (sent ++ frames) ++ last ∷ [] })))
          joined (goes (room - length frames - 1) ((sent ++ frames) ++ last ∷ []) (omega arith)))

  stream_file-Completes :
      (opened : Option Text) (room : ℕ) (sent : List Payload)
      → opened ≡ none
      → look.stops ≡ none
      → length (map (op_frame job) (stream_ops look.reader)) + 1 + need ≤ room
      → Completes
          (sent ++ (map (op_frame job) (stream_ops look.reader) ++ file_end job s.sha ∷ tail))
          (stream_file sha256 job root total next opened look s
            (record { room = room; sent = sent }))
  unfolding stream_file cut
  stream_file-Completes (some message) room sent e on h = cc
  stream_file-Completes none room sent e on h =
      let frames = map (op_frame job) (stream_ops look.reader) in
      subst
        (λ c. Completes (sent ++ (frames ++ file_end job s.sha ∷ tail)) (
          send_body sha256 job root total next look s false (cut c (suc (length frames)) frames)
            (record { room = room; sent = sent })))
        (sym on) (send_body-Completes false frames room sent h)

  send_ops-Completes :
      (sink : Sink) (room : ℕ) (sent : List Payload)
      → look.stops ≡ none
      → length (map (op_frame job) sink.ops) + 1 + need ≤ room
      → Completes (sent ++ (map (op_frame job) sink.ops ++ file_end job s.sha ∷ tail)) (
          send_ops sha256 job root total next
            (some sink)
            look
            s
            (record { room = room; sent = sent }))
  unfolding send_ops cut
  send_ops-Completes sink room sent on h =
      let frames = map (op_frame job) sink.ops in
      subst
        (λ c. Completes (sent ++ (frames ++ file_end job s.sha ∷ tail)) (
          send_body sha256 job root total next look s true (cut c (length frames) frames)
            (record { room = room; sent = sent })))
        (sym on) (send_body-Completes true frames room sent h)

  send_delta-Completes :
      (r : Result IndexError SigIndex) (opened : Option Text) (sink : Sink) (room : ℕ)
      (sent : List Payload)
      → opened ≡ none
      → look.stops ≡ none
      → send sha256 look.reader r ≡ some sink
      → length (map (op_frame job) sink.ops) + 1 + need ≤ room
      → Completes (sent ++ (map (op_frame job) sink.ops ++ file_end job s.sha ∷ tail)) (
          send_delta sha256 job root total next r opened look s
            (record { room = room; sent = sent }))
  unfolding send_delta send
  send_delta-Completes (err e) opened sink room sent o on q h = cc
  send_delta-Completes (ok idx) (some message) sink room sent o on q h = cc
  send_delta-Completes (ok idx) none sink room sent o on q h =
      rw q (send_ops-Completes sink room sent on h)

  send_planned-Completes :
      (plan : Plan) (room : ℕ) (sent : List Payload)
      → look.open_error ≡ none
      → look.stops ≡ none
      → HasOps sha256 plan look s
      → length (source_frames sha256 job plan look s) + need ≤ room
      → Completes (sent ++ (source_frames sha256 job plan look s ++ tail)) (
          send_planned sha256 job root total next plan look s (record { room = room; sent = sent }))
  unfolding send_planned started source_frames source_ops ops_of
  send_planned-Completes Plan.skip room sent o on ops h = goes room sent (omega (arith, h))
  send_planned-Completes Plan.whole room sent o on ops h =
      let first : Payload = file_start job s.seq in
      let last : Payload = file_end job s.sha in
      let frames = map (op_frame job) (stream_ops look.reader) in
      let sizes : length (frames ++ last ∷ []) ≡ length frames + 1 =
        length-append frames (last ∷ []) in
      let joined : (sent ++ first ∷ []) ++ (frames ++ last ∷ tail)
          ≡ sent ++ (first ∷ ((frames ++ last ∷ []) ++ tail)) =
        append_assoc sent (first ∷ []) (frames ++ last ∷ tail)
        ∙ ap (λ l. sent ++ first ∷ l) (sym (append_assoc frames (last ∷ []) tail)) in
      rw (send_frames-fits (first ∷ []) room sent (omega arith)) (
        subst
          (λ z. Completes z (
            stream_file sha256 job root total next look.open_error look s
              (record { room = room - 1; sent = sent ++ first ∷ [] })))
          joined
          (stream_file-Completes look.open_error (room - 1) (sent ++ first ∷ []) o on
            (omega (arith, sizes, h))))
  send_planned-Completes Plan.delta room sent o on (sink, q) h =
      let first : Payload = file_start job s.seq in
      let last : Payload = file_end job s.sha in
      let frames = map (op_frame job) sink.ops in
      let whole : List Payload =
        map (op_frame job)
          (ops_of (send sha256 look.reader (new_index s.block_size s.block_count s.sigs))) in
      let found : whole ≡ frames = ap (λ o. map (op_frame job) (ops_of o)) q in
      let sizes : length (whole ++ last ∷ []) ≡ length frames + 1 =
        length-append whole (last ∷ []) ∙ ap (λ l. length l + 1) found in
      let joined : (sent ++ first ∷ []) ++ (frames ++ last ∷ tail)
          ≡ sent ++ (first ∷ ((whole ++ last ∷ []) ++ tail)) =
        append_assoc sent (first ∷ []) (frames ++ last ∷ tail)
        ∙ ap (λ l. sent ++ first ∷ l) (sym (append_assoc frames (last ∷ []) tail))
        ∙ ap (λ l. sent ++ first ∷ ((l ++ last ∷ []) ++ tail)) (sym found) in
      rw (send_frames-fits (first ∷ []) room sent (omega arith)) (
        subst
          (λ z. Completes z (
            send_delta sha256 job root total next (new_index s.block_size s.block_count s.sigs)
              look.open_error look s (record { room = room - 1; sent = sent ++ first ∷ [] })))
          joined
          (send_delta-Completes (new_index s.block_size s.block_count s.sigs) look.open_error sink
            (room - 1) (sent ++ first ∷ []) o on q (omega (arith, sizes, h))))

-- The last frame.
abbrev pub done_frame : ℕ → Text → ℕ → Payload
done_frame job root total = transfer_done job true [] root total zero_sha

module _ (sha256 : List ℕ → List ℕ) (job : ℕ) (root : Text) (total : ℕ)
    (look : PullSource → Look) where
  Completes-if :
      (c : Bool) (x y : Line × Ending) (sent : List Payload)
      → c ≡ false
      → Completes sent y
      → Completes sent (if c then x else y)
  Completes-if true x y sent e h = cc
  Completes-if false x y sent e h = h

  -- If no file is cancelled, fails to open or fails to read, each delta has operations and the connection
  -- has room for all frames, then the phase goes through, and has sent the frames of the files that are
  -- not skipped, in their order, and then a `TransferDone` that reports success.
  pub send_sources-Completes :
      (ss : List PullSource) (room : ℕ) (sent : List Payload)
      → All (λ s. IsSmooth sha256 (look s) s) ss
      → length (sources_frames sha256 job look ss) + 1 ≤ room
      → Completes
          (sent ++ (sources_frames sha256 job look ss ++ done_frame job root total ∷ []))
          (send_sources sha256 job root total look ss (record { room = room; sent = sent }))
  unfolding send_sources sources_frames finish_pull
  send_sources-Completes [] room sent h fits =
      let taken = send_frames-fits (done_frame job root total ∷ []) room sent (omega arith) in
      (ap (λ x. x.1.sent) taken, refl)
  send_sources-Completes (s ∷ ss) room sent (here, h) fits =
      let mine = source_frames sha256 job s.plan (look s) s in
      let rest = sources_frames sha256 job look ss in
      let sizes : length (mine ++ rest) ≡ length mine + length rest = length-append mine rest in
      let joined : sent ++ (mine ++ (rest ++ done_frame job root total ∷ []))
          ≡ sent ++ ((mine ++ rest) ++ done_frame job root total ∷ []) =
        ap (λ l. sent ++ l) (sym (append_assoc mine rest (done_frame job root total ∷ []))) in
      Completes-if (look s).cancelled _ _ _ here.going (
        subst
          (λ z. Completes z (
            send_planned sha256 job root total
              (λ (l : Line). send_sources sha256 job root total look ss l) s.plan (look s) s
              (record { room = room; sent = sent })))
          joined
          (send_planned-Completes sha256 job root total
            (λ (l : Line). send_sources sha256 job root total look ss l)
            (rest ++ done_frame job root total ∷ []) (length rest + 1)
            (λ room' sent' fits'. send_sources-Completes ss room' sent' h fits') (look s) s s.plan
            room sent here.opens here.reads_on here.has_ops (omega (arith, sizes, fits))))
