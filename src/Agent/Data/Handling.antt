-- ===== src/Agent/Data/Handling.antt =====
-- What each payload of the data phase of `run_push` of src/agent.rs keeps.
use mathlib.Core.Path.{subst}
use apb.Prelude.{
  ℕ, ◌^◌, ◌<◌, ◌≡◌, refl, sym, ap, ◌∙◌, inl, inr, Bool-cases, Option, none, some, Bool, true, false,
  List, [], ◌∷◌, ◌==◌, get_elem?, if◌then◌else◌, Result, ok, err,
}
use apb.Proto.Types.{Blob, Payload, error, chunk, file_start, file_end, push_end}
use apb.Proto.Payload.{id}
use apb.Delta.Sink.{Op}
use apb.Delta.Writer.{WriteError, FileWriter, Files, FinishError, create, write_op, all_zero}
use apb.Delta.Writer.Bounds.{create-IsWriter, IsFrame, write_op-Keeps, Keeps}
use apb.Delta.Writer.Publish.{Finished, finish-Finished}
use apb.Agent.Types.{
  PushTarget, Refusal, unknown_seq, data_without_start, copy_without_start, create_failed, Reply,
  refused, Store, Answers, received,
}
use apb.Agent.Data.{
  Open, Receiving, Outcome, done, put, close, drop_current, fail, base_of, open_file, start_target,
  start_file, written_to, write_open, write_file, settle, end_open, end_file, end_all, end_push,
  on_payload,
}
use apb.Agent.Data.Stored.{
  Holds, Delivered, Sound, Safe, Ends, IsShort, Sound-refl, put-Sound, put-Delivered,
}

module _ (sha256 : List ℕ → List ℕ) (targets : List PushTarget) where
  close-Safe :
      (P : Blob → Type 0) (c : Option Open) (r : Receiving) (replies : List Reply)
      → r.current ≡ c
      → Holds targets c r.tmp
      → Safe sha256 targets P r.files (done (close c r) replies)
  unfolding close
  close-Safe P none r replies e h = (e, h, Sound-refl sha256 targets r.files)
  close-Safe P (some o) r replies e h = (refl, refl, Sound-refl sha256 targets r.files)

  pub drop_current-Safe :
      (P : Blob → Type 0) (r : Receiving) (replies : List Reply)
      → Holds targets r.current r.tmp
      → Safe sha256 targets P r.files (done (drop_current r) replies)
  unfolding drop_current
  drop_current-Safe P r replies h = close-Safe P r.current r replies refl h

  idle-Safe :
      (P : Blob → Type 0) (r : Receiving) (replies : List Reply)
      → r.current ≡ none
      → Holds targets r.current r.tmp
      → Safe sha256 targets P r.files (done r replies)
  idle-Safe P r replies e h =
      (e, subst (λ c. Holds targets c r.tmp) e h, Sound-refl sha256 targets r.files)

  Safe-if :
      (P : Blob → Type 0) (files : Store) (c : Bool) (x y : Outcome)
      → Safe sha256 targets P files x
      → Safe sha256 targets P files y
      → Safe sha256 targets P files (if c then x else y)
  Safe-if P files true x y h k = h
  Safe-if P files false x y h k = k

  open_file-Safe :
      (P : Blob → Type 0) (c : Option Open) (idx : ℕ) (t : PushTarget) (a : Answers) (r : Receiving)
      → get_elem? targets idx ≡ some t
      → t.size < 2 ^ 63
      → r.current ≡ c
      → Holds targets r.current r.tmp
      → Safe sha256 targets P r.files (open_file c idx t a r)
  unfolding open_file fail
  open_file-Safe P (some o) idx t a r e small q h = (refl, refl, Sound-refl sha256 targets r.files)
  open_file-Safe P none idx t a r e small q h =
      Safe-if P r.files a.create_ok _ _
        (
          (
            refl,
            create-IsWriter (base_of t a r.files) t.size small,
            (t, e, refl, (unfold create in refl)),
          ),
          Sound-refl sha256 targets r.files,
        )
        (idle-Safe P r (refused 500 (create_failed t.dest) ∷ []) q h)

  start_target-Safe :
      (P : Blob → Type 0) (c : Option PushTarget) (seq : ℕ) (a : Answers) (r : Receiving)
      → ((i : ℕ) (t : PushTarget) → get_elem? targets i ≡ some t → t.size < 2 ^ 63)
      → get_elem? targets seq ≡ c
      → Holds targets r.current r.tmp
      → Safe sha256 targets P r.files (start_target c seq a r)
  unfolding start_target fail
  start_target-Safe P none seq a r small q h =
      drop_current-Safe P r (refused 400 (unknown_seq seq) ∷ []) h
  start_target-Safe P (some t) seq a r small q h =
      Safe-if P r.files (t.seq == seq) _ _
        (open_file-Safe P r.current seq t a r q (small seq t q) refl h)
        (drop_current-Safe P r (refused 400 (unknown_seq seq) ∷ []) h)

  written_to-Safe :
      (P : Blob → Type 0) (o : Open) (w : Result WriteError FileWriter) (r : Receiving)
      → Keeps o.writer w
      → Holds targets (some o) r.tmp
      → Safe sha256 targets P r.files (written_to o w r)
  unfolding written_to fail
  written_to-Safe P o (err e) r k h = (refl, refl, Sound-refl sha256 targets r.files)
  written_to-Safe P o (ok w) r (kept, size, base) (there, writer, (t, e, d, z)) =
      ((there, kept, (t, e, d, size ∙ z)), Sound-refl sha256 targets r.files)

  write_open-Safe :
      (P : Blob → Type 0) (c : Option Open) (closed : Refusal) (op : Op) (r : Receiving)
      → IsFrame op
      → r.current ≡ c
      → Holds targets c r.tmp
      → Safe sha256 targets P r.files (write_open c closed op r)
  unfolding write_open fail
  write_open-Safe P none closed op r short q h = (q, h, Sound-refl sha256 targets r.files)
  write_open-Safe P (some o) closed op r short q h =
      written_to-Safe P o (write_op op o.writer) r (write_op-Keeps op o.writer short (h.1)) h

  end_all-Safe :
      (P : Blob → Type 0) (c : Option Open) (r : Receiving)
      → r.current ≡ c
      → Holds targets c r.tmp
      → Safe sha256 targets P r.files (end_all c targets r)
  unfolding end_all fail
  end_all-Safe P none r q h = (q, h, Sound-refl sha256 targets r.files)
  end_all-Safe P (some o) r q h = (refl, refl, Sound-refl sha256 targets r.files)

  settle-Safe :
      (P : Blob → Type 0) (sha : Blob) (o : Open) (r : Receiving) (f : Result FinishError ℕ × Files)
      → P sha
      → all_zero sha ≡ false
      → Finished sha256 sha o.writer (record { dest = r.files o.dest; tmp = r.tmp }) f
      → Holds targets (some o) r.tmp
      → Safe sha256 targets P r.files (settle o.dest f r)
  unfolding settle fail
  settle-Safe P sha o r (ok n, f) claimed given (left, got, size, hash)
        (there, writer, (t, e, d, z)) =
      let sent : sha256 o.writer.written ≡ sha = elim hash [ inl zero ↦ cc | inr same ↦ same ] in
      let delivered : Delivered sha256 targets P o.dest o.writer.written = record {
        target = t;
        idx = o.idx;
        listed = e;
        here = sym d;
        sized = size ∙ z;
        claimed = subst P (sym sent) claimed;
        given = subst (λ s. all_zero s ≡ false) (sym sent) given;
      } in
      (
        ap (λ x. x.tmp) left,
        subst (λ c. Sound sha256 targets P r.files (put o.dest c r.files))
            (sym (ap (λ x. x.dest) left))
            (put-Delivered sha256 targets P o.dest o.writer.written r.files delivered),
      )
  settle-Safe P sha o r (err x, f) claimed given left h = (
    refl,
    ap (λ x. x.tmp) left,
    put-Sound sha256 targets P o.dest f.dest r.files (ap (λ x. x.dest) left),
  )

  end_open-Safe :
      (P : Blob → Type 0) (c : Option Open) (sha : Blob) (a : Answers) (r : Receiving)
      → P sha
      → r.current ≡ c
      → Holds targets c r.tmp
      → Safe sha256 targets P r.files (end_open c sha256 sha a r)
  unfolding end_open fail
  end_open-Safe P none sha a r claimed q h = (q, h, Sound-refl sha256 targets r.files)
  end_open-Safe P (some o) sha a r claimed q h = elim (Bool-cases (all_zero sha)) [
    | inl z ↦ rw z (refl, refl, Sound-refl sha256 targets r.files)
    | inr z ↦ rw z (
        settle-Safe P sha o r _ claimed z
          (finish-Finished sha256 sha o.writer (record { dest = r.files o.dest; tmp = r.tmp })
            a.disk (h.1))
          h)
  ]

  pub on_payload-Safe :
      (p : Payload) (a : Answers) (r : Receiving)
      → IsShort (received p a)
      → ((i : ℕ) (t : PushTarget) → get_elem? targets i ≡ some t → t.size < 2 ^ 63)
      → Holds targets r.current r.tmp
      → Safe sha256 targets
          (λ sha. Ends (id p) sha (received p a))
          r.files
          (on_payload sha256 targets p a r)
  unfolding on_payload start_file write_file end_file end_push id
  on_payload-Safe (file_start i seq) a r short small h =
      start_target-Safe _ (get_elem? targets seq) seq a r small refl h
  on_payload-Safe (chunk i bytes) a r short small h =
      write_open-Safe _ r.current data_without_start (Op.literal bytes) r short refl h
  on_payload-Safe (Payload.copy i start len) a r short small h =
      write_open-Safe _ r.current copy_without_start (Op.copy start len) r tt refl h
  on_payload-Safe (file_end i sha) a r short small h =
      end_open-Safe _ r.current sha a r (a, refl) refl h
  on_payload-Safe (push_end i) a r short small h = end_all-Safe _ r.current r refl h
  on_payload-Safe (error i code message) a r short small h = drop_current-Safe _ r [] h
  on_payload-Safe p a r short small h = (h, Sound-refl sha256 targets r.files)
