-- ===== src/Agent/Data/Delivery.antt =====
-- A file arrives in the loop of `run_push` of src/agent.rs, its operations taken by the writer.
use mathlib.Core.Path.{subst}
use apb.Prelude.{
  ==_refl, if_true, ℕ, ◌^◌, ◌<◌, ◌≡◌, refl, ap, ◌∙◌, inl, inr, Result-cases, none, some, true,
  false, List, [], ◌∷◌, ◌++◌, append_assoc, ◌==◌, length, get_elem?, arith, All, Result, ok, err,
  and_then,
}
use apb.Proto.Types.{Blob, Payload, chunk, file_start, file_end}
use apb.Proto.Payload.{id}
use apb.Delta.Sink.{Op, apply}
use apb.Delta.Sink.Flush.{IsOp}
use apb.Delta.Writer.{WriteError, FileWriter, create, write_op, write_all, all_zero}
use apb.Delta.Writer.Rebuild.{grown, write_all-ok}
use apb.Delta.Writer.Publish.{finish_published}
use apb.Agent.Types.{Plan, PushTarget, Store, Answers, Event, received}
use apb.Agent.Data.{
  Open, Receiving, more, put, open_file, start_target, start_file, base_of, written_to, write_open,
  write_file, settle, end_open, end_file, on_payload, on_event, continue, run_data,
}

-- The frames of one file, in their order.
unfoldable pub op_event : ℕ → Answers → Op → Event
op_event job a (Op.literal bytes) = received (chunk job bytes) a
op_event job a (Op.copy start len) = received (Payload.copy job start len) a

unfoldable pub op_events : ℕ → Answers → List Op → List Event
unfolding op_event
op_events job a [] = []
op_events job a (o ∷ ops) = op_event job a o ∷ op_events job a ops

unfoldable pub file_events : ℕ → Answers → ℕ → List Op → Blob → List Event
unfolding op_events
file_events job a seq ops sha =
    received (file_start job seq) a ∷ (op_events job a ops ++ received (file_end job sha) a ∷ [])

module _ (sha256 : List ℕ → List ℕ) (job : ℕ) (targets : List PushTarget) (a : Answers)
    (files : Store) where
  run_data-step :
      (e : Event) (es : List Event) (r r' : Receiving)
      → on_event sha256 job targets e r ≡ more r'
      → run_data sha256 job targets (e ∷ es) r ≡ run_data sha256 job targets es r'
  unfolding run_data continue
  run_data-step e es r r' h = ap (continue (run_data sha256 job targets es)) h

  op_event-more :
      (op : Op) (o : Open) (w : FileWriter)
      → write_op op o.writer ≡ ok w
      → on_event sha256 job targets
          (op_event job a op)
          (record { current = some o; files = files; tmp = true })
        ≡ more (record { current = some (record o { writer = w }); files = files; tmp = true })
  unfolding on_event op_event id on_payload write_file write_open written_to
  op_event-more (Op.literal bytes) o w e = rw (==_refl job, e) refl
  op_event-more (Op.copy start len) o w e = rw (==_refl job, e) refl

  op_events-more :
      (ops : List Op) (es : List Event) (o : Open) (w : FileWriter)
      → write_all ops o.writer ≡ ok w
      → run_data sha256 job targets
          (op_events job a ops ++ es)
          (record { current = some o; files = files; tmp = true })
        ≡ run_data sha256 job targets es
            (record { current = some (record o { writer = w }); files = files; tmp = true })
  unfolding op_events run_data write_all continue
  op_events-more [] es o w e =
      let i : o.writer ≡ w = cc in
      ap
        (λ v.
          run_data sha256 job targets es
            (record { current = some (record o { writer = v }); files = files; tmp = true }))
        i
  op_events-more (op ∷ ops) es o w e = elim (Result-cases (write_op op o.writer)) [
    | inr (x, q) ↦
        let bad : ◌≡◌ {A = Result WriteError FileWriter} (err x) (ok w) =
          subst (λ z. and_then z (write_all ops) ≡ ok w) q e in
        absurd (cc)
    | inl (w', q) ↦ rw (op_event-more op o w' q) (
        op_events-more ops es (record o { writer = w' }) w
          (subst (λ z. and_then z (write_all ops) ≡ ok w) q e))
  ]

  finish-more :
      (o : Open) (sha : Blob)
      → a.disk.sync_ok ≡ true
      → a.disk.chmod_ok ≡ true
      → a.disk.rename_ok ≡ true
      → all_zero sha ≡ false
      → o.writer.received ≡ o.writer.expected
      → sha256 o.writer.hashed ≡ sha
      → on_event sha256 job targets
          (received (file_end job sha) a)
          (record { current = some o; files = files; tmp = true })
        ≡ more (record {
          current = none;
          files = put o.dest (some o.writer.written) files;
          tmp = false;
        })
  unfolding on_event id on_payload end_file end_open settle
  finish-more o sha s c n given got hash =
      rw
        (
          ==_refl job,
          given,
          finish_published sha256 sha o.writer (record { dest = files o.dest; tmp = true }) a.disk s
              c n got hash,
        )
        refl

  base_of-some :
      (t : PushTarget) (base : List ℕ)
      → t.plan ≡ Plan.delta
      → a.open_ok ≡ true
      → files t.dest ≡ some base
      → base_of t a files ≡ some base
  unfolding base_of
  base_of-some t base e o h = rw e (if_true a.open_ok _ _ o ∙ h)

  start-more :
      (seq : ℕ) (t : PushTarget)
      → get_elem? targets seq ≡ some t
      → t.seq ≡ seq
      → a.create_ok ≡ true
      → on_event sha256 job targets
          (received (file_start job seq) a)
          (record { current = none; files = files; tmp = false })
        ≡ more (record {
          current =
              some
                (record { idx = seq; dest = t.dest; writer = create (base_of t a files) t.size });
          files = files;
          tmp = true;
        })
  unfolding on_event id on_payload start_file start_target open_file
  start-more seq t e k c =
      let here : (t.seq == seq) ≡ true = ground (arith, k) in
      rw (==_refl job, e) (if_true (t.seq == seq) _ _ here ∙ if_true a.create_ok _ _ c)

  pub run_data-file :
      (seq : ℕ) (t : PushTarget) (ops : List Op) (content : List ℕ) (es : List Event)
      → get_elem? targets seq ≡ some t
      → t.seq ≡ seq
      → write_all ops (create (base_of t a files) t.size)
        ≡ ok (grown content (create (base_of t a files) t.size))
      → length content ≡ t.size
      → all_zero (sha256 content) ≡ false
      → a.create_ok ≡ true
      → a.disk.sync_ok ≡ true
      → a.disk.chmod_ok ≡ true
      → a.disk.rename_ok ≡ true
      → run_data sha256 job targets
          (file_events job a seq ops (sha256 content) ++ es)
          (record { current = none; files = files; tmp = false })
        ≡ run_data sha256 job targets es
            (record { current = none; files = put t.dest (some content) files; tmp = false })
  unfolding file_events
  run_data-file seq t ops content es listed number taken sized given c s m n =
      let w : FileWriter = create (base_of t a files) t.size in
      let sha : Blob = sha256 content in
      let opened : Open = record { idx = seq; dest = t.dest; writer = w } in
      let full : Open = record { idx = seq; dest = t.dest; writer = grown content w } in
      run_data-step (received (file_start job seq) a) _ _
        (record { current = some opened; files = files; tmp = true })
        (start-more seq t listed number c)
      ∙ ap
          (λ l.
            run_data sha256 job targets l
              (record { current = some opened; files = files; tmp = true }))
          (append_assoc (op_events job a ops) (received (file_end job sha) a ∷ []) es)
      ∙ op_events-more ops (received (file_end job sha) a ∷ es) opened (grown content w) taken
      ∙ run_data-step (received (file_end job sha) a) es
          (record { current = some full; files = files; tmp = true })
          (record {
            current = none;
            files = put t.dest (some full.writer.written) files;
            tmp = false;
          })
          (finish-more full sha s m n given (unfold grown create in omega (arith, sized))
            (unfold grown create in refl))
      ∙ (unfold grown create in refl)

  -- If a target has the number `seq`, the machine's file at its path is the base, the operations are inside
  -- the base and make a file of the target's size, below 2^63 and with a hash that is not all zero, and
  -- the machine creates, opens, syncs, sets permissions and renames, then from a state with no open file
  -- the loop takes `FileStart`, the operations and `FileEnd` with that hash, goes on with the frames behind
  -- them, and has put the whole file in its place, with every other path as it was.
  pub run_data-delivers :
      (seq : ℕ) (t : PushTarget) (base : List ℕ) (ops : List Op) (es : List Event)
      → get_elem? targets seq ≡ some t
      → t.seq ≡ seq
      → t.plan ≡ Plan.delta
      → files t.dest ≡ some base
      → All (IsOp base) ops
      → length (apply base ops) ≡ t.size
      → t.size < 2 ^ 63
      → all_zero (sha256 (apply base ops)) ≡ false
      → a.create_ok ≡ true
      → a.open_ok ≡ true
      → a.disk.sync_ok ≡ true
      → a.disk.chmod_ok ≡ true
      → a.disk.rename_ok ≡ true
      → run_data sha256 job targets
          (file_events job a seq ops (sha256 (apply base ops)) ++ es)
          (record { current = none; files = files; tmp = false })
        ≡ run_data sha256 job targets es (record {
          current = none;
          files = put t.dest (some (apply base ops)) files;
          tmp = false;
        })
  run_data-delivers seq t base ops es listed number plan there inside sized small given c o s m n =
      run_data-file seq t ops (apply base ops) es listed number
        (write_all-ok base ops (create (base_of t a files) t.size) inside
          (unfold create in base_of-some t base plan o there)
          (unfold create in omega (arith, sized)) (unfold create in small))
        sized given c s m n
