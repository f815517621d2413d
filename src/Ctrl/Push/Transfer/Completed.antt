-- ===== src/Ctrl/Push/Transfer/Completed.antt =====
-- A push from end to end behind its plans.
use mathlib.Core.Path.{subst}
use apb.Prelude.{
  ==_refl, if_true, ℕ, ◌+◌, ◌/◌, ◌^◌, ◌≤◌, ◌<◌, ◌≡◌, refl, sym, ap, ◌∙◌, none, some, false, List,
  [], ◌∷◌, ◌++◌, append_assoc, length, map, map-append, arith, All, ok,
}
use apb.Proto.Types.{file_start, file_end, push_end}
use apb.Proto.Payload.{id}
use apb.Delta.Blocks.{strong_len, sig_len}
use apb.Delta.Signatures.{new_index, scan}
use apb.Delta.Sink.{Op}
use apb.Delta.Sync.{send, delta_sync}
use apb.Delta.Produce.Delivery.{Delivers}
use apb.Delta.Writer.{create, write_all, all_zero}
use apb.Delta.Writer.Rebuild.{grown, write_all-ok_literals}
use apb.Agent.Types.{PushTarget, Store, Answers, Event, transfer_ok}
use apb.Agent.Data.{
  Receiving, done, put, base_of, total_size, run_data, on_event, on_payload, end_push, continue,
}
use apb.Agent.Data.Delivery.{op_event, op_events, file_events, run_data-file}
use apb.Agent.Pull.Sending.{stream_ops, op_frame}
use apb.Agent.Pull.Sending.Streamed.{stream_ops-apply}
use apb.Ctrl.Plans.{FilePlan, Slots}
use apb.Ctrl.Pull.{as_plan}
use apb.Ctrl.Pull.Transfer.Written.{found, delivered}
use apb.Ctrl.Push.{ManifestFile}
use apb.Ctrl.Push.Sending.{Look, send_files}
use apb.Ctrl.Push.Sending.Completed.{
  task_ops, task_frames, tasks_frames, HasOps, IsSmooth, send_files-Completes,
}
use apb.Ctrl.Push.Transfer.{
  Pair, arrives, source, HasBase, Based, Agrees, Agreed, stored, stored_all, AllAgree,
  IsUndisturbed, IsWilling,
}

abbrev IsSent : FilePlan → Type 0
IsSent FilePlan.skip = ⊥
IsSent _ = Unit {0}

ops_arrive :
    (job : ℕ) (a : Answers) (ops : List Op)
    → map (arrives a) (map (op_frame job) ops) ≡ op_events job a ops
unfolding op_events op_event arrives op_frame
ops_arrive job a [] = refl
ops_arrive job a (Op.literal bytes ∷ ops) =
    ap (λ l. arrives a (op_frame job (Op.literal bytes)) ∷ l) (ops_arrive job a ops)
ops_arrive job a (Op.copy start len ∷ ops) =
    ap (λ l. arrives a (op_frame job (Op.copy start len)) ∷ l) (ops_arrive job a ops)

frames_arrive :
    (job : ℕ) (a : Answers) (seq : ℕ) (ops : List Op) (sha : List ℕ)
    → map (arrives a) (file_start job seq ∷ (map (op_frame job) ops ++ file_end job sha ∷ []))
      ≡ file_events job a seq ops sha
unfolding file_events arrives
frames_arrive job a seq ops sha =
    ap (λ l. arrives a (file_start job seq) ∷ l)
      (map-append (arrives a) (map (op_frame job) ops) (file_end job sha ∷ [])
        ∙ ap (λ l. l ++ arrives a (file_end job sha) ∷ []) (ops_arrive job a ops))

module _ (sha256 : List ℕ → List ℕ) (look : ManifestFile → Look)
    (wide : (bytes : List ℕ) → strong_len ≤ length (sha256 bytes)) (a : Answers) where
  -- The operations of a delta rebuild what the controller reads.
  delta-Delivers :
      (files : Store) (p : Pair) (b : HasBase sha256 look a files p)
      → Delivers b.base (source sha256 look p) (
          send sha256
            (look p.task.file).reader
            (new_index p.task.block_size (length p.task.sigs / sig_len) p.task.sigs))
  delta-Delivers files p b =
      let r = (look p.task.file).reader in
      let bs = p.task.block_size in
      subst (λ n. Delivers b.base r.rest (send sha256 r (new_index bs n p.task.sigs))) (sym b.count)
        (subst
          (λ l.
            Delivers b.base r.rest
              (send sha256 r (new_index bs (scan sha256 b.base bs).block_count l)))
          (sym b.sigs) (delta_sync sha256 wide b.base bs b.block b.few b.distinct r))

  task_ops_written :
      (plan : FilePlan) (files : Store) (p : Pair)
      → IsSent plan
      → p.target.plan ≡ as_plan plan
      → length (source sha256 look p) ≡ p.target.size
      → p.target.size < 2 ^ 63
      → Based sha256 look plan a files p
      → write_all
          (task_ops sha256 plan (look p.task.file) p.task)
          (create (base_of p.target a files) p.target.size)
        ≡ ok (grown (source sha256 look p) (create (base_of p.target a files) p.target.size))
  unfolding task_ops
  task_ops_written FilePlan.skip files p sent q sized small b = elim sent [ ]
  task_ops_written FilePlan.whole files p sent q sized small b =
      let r = (look p.task.file).reader in
      let (literal, made) = stream_ops-apply r in
      write_all-ok_literals (stream_ops r) (create (base_of p.target a files) p.target.size) literal
        (unfold create in omega (arith, ap length made, sized)) (unfold create in small)
      ∙ ap (λ l. ok (grown l (create (base_of p.target a files) p.target.size))) made
  task_ops_written FilePlan.delta files p sent q sized small b =
      let based : base_of p.target a files ≡ some b.base =
        unfold base_of in rw q (if_true a.open_ok _ _ b.opens ∙ b.there) in
      delivered b.base (source sha256 look p) _ (create (base_of p.target a files) p.target.size)
        (delta-Delivers files p b) (unfold create in based) (unfold create in omega (arith, sized))
        (unfold create in small)

  module _ (job : ℕ) (targets : List PushTarget) (willing : IsWilling a) where
    -- One file that is sent.
    run_data-sent :
        (plan : FilePlan) (files : Store) (p : Pair) (es : List Event)
        → IsSent plan
        → Agrees sha256 look plan targets a files p
        → run_data sha256 job targets
            (map (arrives a) (
                file_start job p.task.file.seq
                ∷ (map (op_frame job) (task_ops sha256 plan (look p.task.file) p.task)
                    ++ file_end job p.task.file.sha ∷ []))
              ++ es)
            (record { current = none; files = files; tmp = false })
          ≡ run_data sha256 job targets es (record {
            current = none;
            files = put p.target.dest (some (source sha256 look p)) files;
            tmp = false;
          })
    run_data-sent plan files p es sent g =
        let ops = task_ops sha256 plan (look p.task.file) p.task in
        let begun : Receiving = record { current = none; files = files; tmp = false } in
        ap (λ l. run_data sha256 job targets (l ++ es) begun)
          (frames_arrive job a p.task.file.seq ops p.task.file.sha ∙ λ i.
            file_events job a (g.number i) ops (g.hash i))
        ∙ run_data-file sha256 job targets a files p.target.seq p.target ops (source sha256 look p)
            es g.listed refl
            (task_ops_written plan files p sent g.same_plan g.sized g.small g.based) g.sized
            (subst (λ z. all_zero z ≡ false) g.hash g.given) willing.creates willing.syncs
            willing.sets willing.renames

    run_data-task :
        (plan : FilePlan) (files : Store) (p : Pair) (es : List Event)
        → Agreed sha256 look plan targets a files p
        → run_data sha256 job targets
            (map (arrives a) (task_frames sha256 job plan (look p.task.file) p.task) ++ es)
            (record { current = none; files = files; tmp = false })
          ≡ run_data sha256 job targets es
              (record { current = none; files = stored sha256 look plan p files; tmp = false })
    unfolding task_frames stored
    run_data-task FilePlan.skip files p es h = refl
    run_data-task FilePlan.whole files p es h = run_data-sent FilePlan.whole files p es tt h
    run_data-task FilePlan.delta files p es h = run_data-sent FilePlan.delta files p es tt h

    run_data-tasks :
        (ps : List Pair) (files : Store) (es : List Event)
        → AllAgree sha256 look targets a files ps
        → run_data sha256 job targets
            (map (arrives a) (tasks_frames sha256 job look (map (λ p. p.task) ps)) ++ es)
            (record { current = none; files = files; tmp = false })
          ≡ run_data sha256 job targets es
              (record { current = none; files = stored_all sha256 look ps files; tmp = false })
    unfolding tasks_frames stored_all
    run_data-tasks [] files es h = refl
    run_data-tasks (p ∷ ps) files es (here, h) =
        let mine = task_frames sha256 job p.task.plan (look p.task.file) p.task in
        let rest = tasks_frames sha256 job look (map (λ (q : Pair). q.task) ps) in
        let begun : Receiving = record { current = none; files = files; tmp = false } in
        ap (λ l. run_data sha256 job targets l begun)
          (ap (λ l. l ++ es) (map-append (arrives a) mine rest)
            ∙ append_assoc (map (arrives a) mine) (map (arrives a) rest) es)
        ∙ run_data-task p.task.plan files p (map (arrives a) rest ++ es) here
        ∙ run_data-tasks ps (stored sha256 look p.task.plan p files) es h

    -- `PushEnd`, with no file open.
    run_data-ended :
        (files : Store)
        → run_data sha256 job targets
            (arrives a (push_end job) ∷ [])
            (record { current = none; files = files; tmp = false })
          ≡ done
              (record { current = none; files = files; tmp = false })
              (transfer_ok (total_size targets) ∷ [])
    unfolding run_data arrives on_event on_payload id continue end_push
    run_data-ended files = rw (==_refl job) refl

    agreed-HasOps :
        (plan : FilePlan) (files : Store) (p : Pair)
        → Agreed sha256 look plan targets a files p
        → HasOps sha256 plan (look p.task.file) p.task
    agreed-HasOps FilePlan.skip files p h = tt
    agreed-HasOps FilePlan.whole files p h = tt
    agreed-HasOps FilePlan.delta files p h =
        found (h.based).base (source sha256 look p) _ (delta-Delivers files p h.based)

    AllAgree-IsSmooth :
        (slots : Slots) (ps : List Pair) (files : Store)
        → AllAgree sha256 look targets a files ps
        → All (λ p. IsUndisturbed slots look p.task) ps
        → All (λ t. IsSmooth sha256 slots (look t.file) t) (map (λ p. p.task) ps)
    AllAgree-IsSmooth slots [] files h u = tt
    AllAgree-IsSmooth slots (p ∷ ps) files (here, h) (still, u) = (
      record {
        planned = still.planned;
        sized = still.sized;
        signed = still.signed;
        quiet = still.quiet;
        opens = still.opens;
        reads_on = still.reads_on;
        has_ops = agreed-HasOps p.task.plan files p here;
      },
      AllAgree-IsSmooth slots ps (stored sha256 look p.task.plan p files) h u,
    )

    -- Take files whose plans the two ends share: whole files, deltas against the signatures of the node's own
    -- file (with a hash of at least 16 bytes, at most 2^32 blocks and no collision of the truncated hash with
    -- a block of it), and files that are skipped. If the plans, block sizes and signatures stand in their
    -- places, the node reports no failure in time, the controller opens and reads its files, the connection
    -- has room for its frames, each file is what was announced and below 2^63 bytes with a hash that is not
    -- all zero, and the node's machine creates, opens, syncs, sets permissions and renames, then the frames
    -- that the controller sends take the loop of the node to its end with the answer of a success, with no
    -- file open and no temporary file left, and with exactly the bytes that the controller has read in the
    -- place of each file that was sent, in their order, for every schedule of reads.
    pub push_transfer :
        (slots : Slots) (ps : List Pair) (room : ℕ) (files : Store)
        → AllAgree sha256 look targets a files ps
        → All (λ p. IsUndisturbed slots look p.task) ps
        → length (tasks_frames sha256 job look (map (λ p. p.task) ps)) + 1 ≤ room
        → run_data sha256 job targets
            (map
              (arrives a)
              (send_files sha256 job slots look
                (map (λ t. t.file) (map (λ p. p.task) ps))
                (record { room = room; sent = [] })).0.sent)
            (record { current = none; files = files; tmp = false })
          ≡ done
              (record { current = none; files = stored_all sha256 look ps files; tmp = false })
              (transfer_ok (total_size targets) ∷ [])
    push_transfer slots ps room files agree still fits =
        let ts = map (λ (p : Pair). p.task) ps in
        let begun : Receiving = record { current = none; files = files; tmp = false } in
        let (sent, ended) =
          send_files-Completes sha256 job slots look ts room []
            (AllAgree-IsSmooth slots ps files agree still) fits in
        ap (λ l. run_data sha256 job targets l begun)
          (ap (map (arrives a)) sent
            ∙ map-append (arrives a) (tasks_frames sha256 job look ts) (push_end job ∷ []))
        ∙ run_data-tasks ps files (arrives a (push_end job) ∷ []) agree
        ∙ run_data-ended (stored_all sha256 look ps files)
