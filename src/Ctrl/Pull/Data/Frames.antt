-- ===== src/Ctrl/Pull/Data/Frames.antt =====
-- What the single frames of a file do in the data loop of `pull` of src/ctrl.rs, where nothing fails.
use mathlib.Core.Path.{subst}
use apb.Prelude.{
  ==_refl, if_true, ℕ, ◌+◌, ◌%◌, ◌^◌, ◌≡◌, refl, ap, ◌∙◌, inl, inr, Result-cases, Option, none,
  some, Bool, true, false, List, [], ◌∷◌, ◌++◌, ◌==◌, length, get_elem?, map, Result, ok, err,
  and_then,
}
use apb.Proto.Types.{Text, Blob, Payload, file_start, file_end, transfer_done}
use apb.Proto.Payload.{id}
use apb.Delta.Sink.{Op}
use apb.Delta.Writer.{WriteError, FileWriter, create, write_op, write_all, all_zero}
use apb.Delta.Writer.Rebuild.{grown}
use apb.Delta.Writer.Publish.{finish_published}
use apb.Agent.Types.{Store}
use apb.Agent.Data.{Open, put}
use apb.Agent.Pull.Sending.{op_frame, zero_sha}
use apb.Ctrl.Plans.{relay_result}
use apb.Ctrl.Pull.{PullTarget, Answers, Arrival, recv_before}
use apb.Ctrl.Pull.Data.{
  Pulling, more, done, base_of, open_target, start_target, start_file, counted, written_to,
  write_file, settle, end_file, on_payload, on_incoming, on_arrival, continue, receive_files,
}

-- A frame of the node comes, and this is what the controller's machine answers.
abbrev pub arrive : Answers → Payload → Arrival
arrive a p = record { event = relay_result p; answers = a }

-- A file on its way: where it goes, what is sent for it, and what it is.
pub record Shipment : Type 0 where
  pub target : PullTarget
  pub ops : List Op
  pub content : List ℕ

unfoldable pub file_frames : (List ℕ → List ℕ) → ℕ → Shipment → List Payload
file_frames sha256 job x =
    file_start job x.target.seq ∷ (map (op_frame job) x.ops ++ file_end job (sha256 x.content) ∷ [])

-- `current`, the files and the temporary file, with the counters.
abbrev pub with_counters : Option Open → Store → Bool → ℕ × ℕ → Pulling
with_counters current files tmp (sent, reused) = record {
  current = current;
  files = files;
  tmp = tmp;
  sent = sent;
  reused = reused;
}

-- What `Data` and `Copy` frames add to the counters.
unfoldable pub count : Op → ℕ × ℕ → ℕ × ℕ
count (Op.literal bytes) (sent, reused) = ((sent + length bytes) % 2 ^ 64, reused)
count (Op.copy start len) (sent, reused) = (sent, (reused + len) % 2 ^ 64)

unfoldable pub count_each : List Op → ℕ × ℕ → ℕ × ℕ
unfolding count
count_each [] n = n
count_each (op ∷ ops) n = count_each ops (count op n)

-- What the controller's machine must answer for a file to arrive.
pub record IsWilling (a : Answers) : Type 0 where
  pub creates : a.create_ok ≡ true
  pub syncs : a.disk.sync_ok ≡ true
  pub chmods : a.disk.chmod_ok ≡ true
  pub renames : a.disk.rename_ok ≡ true

module _ (sha256 : List ℕ → List ℕ) (job : ℕ) (targets : List PullTarget) (a : Answers) where
  -- The node says that a target has this number, and the controller can write the file.
  pub record IsReady (files : Store) (x : Shipment) : Type 0 where
    pub listed : get_elem? targets x.target.seq ≡ some x.target
    pub sized : length x.content ≡ x.target.size
    pub given : all_zero (sha256 x.content) ≡ false
    pub written :
        write_all x.ops (create (base_of x.target a files) x.target.size)
        ≡ ok (grown x.content (create (base_of x.target a files) x.target.size))

  pub receive_files-step :
      (x : Arrival) (xs : List Arrival) (s s' : Pulling)
      → on_arrival sha256 job targets x s ≡ more s'
      → receive_files sha256 job targets (x ∷ xs) s ≡ receive_files sha256 job targets xs s'
  unfolding receive_files continue
  receive_files-step x xs s s' h = ap (continue (receive_files sha256 job targets xs)) h

  module _ (files : Store) where
    op-more :
        (op : Op) (o : Open) (w : FileWriter) (n : ℕ × ℕ)
        → write_op op o.writer ≡ ok w
        → on_arrival sha256 job targets
            (arrive a (op_frame job op))
            (with_counters (some o) files true n)
          ≡ more (with_counters (some (record o { writer = w })) files true (count op n))
    unfolding on_arrival on_incoming recv_before op_frame id on_payload write_file written_to
        counted count
    op-more (Op.literal bytes) o w (sent, reused) e = rw (==_refl job, e) refl
    op-more (Op.copy start len) o w (sent, reused) e = rw (==_refl job, e) refl

    pub ops-more :
        (ops : List Op) (xs : List Arrival) (o : Open) (w : FileWriter) (n : ℕ × ℕ)
        → write_all ops o.writer ≡ ok w
        → receive_files sha256 job targets
            (map (arrive a) (map (op_frame job) ops) ++ xs)
            (with_counters (some o) files true n)
          ≡ receive_files sha256 job targets xs
              (with_counters (some (record o { writer = w })) files true (count_each ops n))
    unfolding receive_files write_all count_each
    ops-more [] xs o w n e =
        let i : o.writer ≡ w = cc in
        ap
          (λ v.
            receive_files sha256 job targets xs
              (with_counters (some (record o { writer = v })) files true n))
          i
    ops-more (op ∷ ops) xs o w n e = elim (Result-cases (write_op op o.writer)) [
      | inr (x, q) ↦
          let bad : ◌≡◌ {A = Result WriteError FileWriter} (err x) (ok w) =
            subst (λ z. and_then z (write_all ops) ≡ ok w) q e in
          absurd (cc)
      | inl (w', q) ↦
          receive_files-step (arrive a (op_frame job op)) _ (with_counters (some o) files true n) _
            (op-more op o w' n q)
          ∙ ops-more ops xs (record o { writer = w' }) w (count op n)
              (subst (λ z. and_then z (write_all ops) ≡ ok w) q e)
    ]

    pub end-more :
        (o : Open) (sha : Blob) (n : ℕ × ℕ)
        → IsWilling a
        → all_zero sha ≡ false
        → o.writer.received ≡ o.writer.expected
        → sha256 o.writer.hashed ≡ sha
        → on_arrival sha256 job targets
            (arrive a (file_end job sha))
            (with_counters (some o) files true n)
          ≡ more (with_counters none (put o.dest (some o.writer.written) files) false n)
    unfolding on_arrival on_incoming recv_before id on_payload end_file settle
    end-more o sha (sent, reused) ready given got hash =
        rw
          (
            ==_refl job,
            given,
            finish_published sha256 sha o.writer (record { dest = files o.dest; tmp = true }) a.disk
                ready.syncs ready.chmods ready.renames got hash,
          )
          refl

    pub start-more :
        (t : PullTarget) (n : ℕ × ℕ)
        → get_elem? targets t.seq ≡ some t
        → IsWilling a
        → on_arrival sha256 job targets
            (arrive a (file_start job t.seq))
            (with_counters none files false n)
          ≡ more (
              with_counters
                (some (record {
                  idx = t.seq;
                  dest = t.dest;
                  writer = create (base_of t a files) t.size;
                }))
                files
                true
                n)
    unfolding on_arrival on_incoming recv_before id on_payload start_file start_target open_target
    start-more t (sent, reused) e ready =
        rw (==_refl job, e)
          (if_true (t.seq == t.seq) _ _ (==_refl t.seq) ∙ if_true a.create_ok _ _ ready.creates)

  pub receive_files-done :
      (path : Text) (total : ℕ) (files : Store) (n : ℕ × ℕ)
      → receive_files sha256 job targets
          (arrive a (transfer_done job true [] path total zero_sha) ∷ [])
          (with_counters none files false n)
        ≡ done (with_counters none files false n) (ok path)
  unfolding receive_files continue on_arrival on_incoming recv_before id on_payload
  receive_files-done path total files (sent, reused) = rw (==_refl job) refl
