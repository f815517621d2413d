-- ===== src/Ctrl/Pull/Data/Handling.antt =====
-- What each payload of the data loop of `pull` of src/ctrl.rs keeps.
use mathlib.Core.Path.{subst}
use apb.Prelude.{
  ℕ, zero, suc, ◌^◌, ◌<◌, ◌≡◌, refl, sym, ap, ◌∙◌, inl, inr, Bool-cases, Option, none, some, Bool,
  true, false, List, [], ◌∷◌, ◌==◌, length, get_elem?, map, if◌then◌else◌, Result, ok, err,
}
use apb.Proto.Types.{Blob, Payload, error, chunk, file_start, file_end, transfer_done}
use apb.Delta.Sink.{Op}
use apb.Delta.Writer.{WriteError, FileWriter, Files, FinishError, create, write_op, all_zero}
use apb.Delta.Writer.Bounds.{create-IsWriter, IsFrame, write_op-Keeps, Keeps as WriterKeeps}
use apb.Delta.Writer.Publish.{Finished, finish-Finished}
use apb.Agent.Types.{Store}
use apb.Agent.Data.{Open, put}
use apb.Agent.Data.Stored.{Holds, Delivered, Sound, Sound-refl, put-Sound, put-Delivered}
use apb.Ctrl.Pull.{PullTarget, PullError, data_without_start, copy_without_start, Answers, as_push}
use apb.Ctrl.Pull.Data.{
  Pulling, Outcome, more, done, fail, aborted, base_of, open_target, start_target, start_file,
  written_to, counted, write_file, settle, end_file, on_payload,
}

-- The hash that a payload announces.
abbrev pub Brings : Payload → Blob → Type 0
Brings (file_end i sent) sha = sent ≡ sha
Brings _ sha = ⊥

abbrev pub IsShortPayload : Payload → Type 0
IsShortPayload (chunk i bytes) = length bytes < 2 ^ 63
IsShortPayload _ = Unit {0}

-- Before what is open is aborted.
abbrev pub Keeps : (List ℕ → List ℕ) → List PullTarget → (Blob → Type 0) → Store → Outcome → Type 0
Keeps sha256 targets Claimed old (more s) =
    Holds (map as_push targets) s.current s.tmp
    × Sound sha256 (map as_push targets) Claimed old s.files
Keeps sha256 targets Claimed old (done s result) =
    Holds (map as_push targets) s.current s.tmp
    × Sound sha256 (map as_push targets) Claimed old s.files

pub get_elem?-as_push :
    (ts : List PullTarget) (i : ℕ) (t : PullTarget)
    → get_elem? ts i ≡ some t
    → get_elem? (map as_push ts) i ≡ some (as_push t)
get_elem?-as_push [] i t h = cc
get_elem?-as_push (x ∷ ts) zero t h = let same : x ≡ t = cc in ap (λ y. some (as_push y)) same
get_elem?-as_push (x ∷ ts) (suc i) t h = get_elem?-as_push ts i t h

module _ (sha256 : List ℕ → List ℕ) (targets : List PullTarget) where
  stays :
      (P : Blob → Type 0) (s : Pulling)
      → Holds (map as_push targets) s.current s.tmp
      → Holds (map as_push targets) s.current s.tmp
        × Sound sha256 (map as_push targets) P s.files s.files
  stays P s h = (h, Sound-refl sha256 (map as_push targets) s.files)

  gone :
      (P : Blob → Type 0) (s : Pulling)
      → Holds (map as_push targets) none false
        × Sound sha256 (map as_push targets) P s.files s.files
  gone P s = (refl, Sound-refl sha256 (map as_push targets) s.files)

  Keeps-if :
      (P : Blob → Type 0) (files : Store) (c : Bool) (x y : Outcome)
      → Keeps sha256 targets P files x
      → Keeps sha256 targets P files y
      → Keeps sha256 targets P files (if c then x else y)
  Keeps-if P files true x y h k = h
  Keeps-if P files false x y h k = k

  start_target-Keeps :
      (P : Blob → Type 0) (c : Option PullTarget) (seq : ℕ) (a : Answers) (s : Pulling)
      → ((i : ℕ) (t : PullTarget) → get_elem? targets i ≡ some t → t.size < 2 ^ 63)
      → get_elem? targets seq ≡ c
      → Holds (map as_push targets) s.current s.tmp
      → Keeps sha256 targets P s.files (start_target c seq a s)
  unfolding start_target open_target fail
  start_target-Keeps P none seq a s small q h = stays P s h
  start_target-Keeps P (some t) seq a s small q h =
      Keeps-if P s.files (t.seq == seq) _ _
        (Keeps-if P s.files a.create_ok _ _
          (
            (
              refl,
              create-IsWriter (base_of t a s.files) t.size (small seq t q),
              (as_push t, get_elem?-as_push targets seq t q, refl, (unfold create in refl)),
            ),
            Sound-refl sha256 (map as_push targets) s.files,
          )
          (stays P s h))
        (stays P s h)

  start_file-Keeps :
      (P : Blob → Type 0) (c : Option Open) (seq : ℕ) (a : Answers) (s : Pulling)
      → ((i : ℕ) (t : PullTarget) → get_elem? targets i ≡ some t → t.size < 2 ^ 63)
      → Holds (map as_push targets) s.current s.tmp
      → Keeps sha256 targets P s.files (start_file c targets seq a s)
  unfolding start_file fail
  start_file-Keeps P none seq a s small h =
      start_target-Keeps P (get_elem? targets seq) seq a s small refl h
  start_file-Keeps P (some o) seq a s small h = stays P s h

  -- Counting changes neither the open file nor the files.
  counted-files : (op : Op) (s : Pulling) → (counted op s).files ≡ s.files
  unfolding counted
  counted-files (Op.literal bytes) s = refl
  counted-files (Op.copy start len) s = refl

  counted-tmp : (op : Op) (s : Pulling) → (counted op s).tmp ≡ s.tmp
  unfolding counted
  counted-tmp (Op.literal bytes) s = refl
  counted-tmp (Op.copy start len) s = refl

  written_to-Keeps :
      (P : Blob → Type 0) (o : Open) (w : Result WriteError FileWriter) (s : Pulling)
      → WriterKeeps o.writer w
      → Holds (map as_push targets) (some o) s.tmp
      → Keeps sha256 targets P s.files (written_to o w s)
  unfolding written_to fail aborted
  written_to-Keeps P o (err e) s k h = gone P s
  written_to-Keeps P o (ok w) s (kept, size, base) (there, writer, (t, e, d, z)) =
      ((there, kept, (t, e, d, size ∙ z)), Sound-refl sha256 (map as_push targets) s.files)

  write_file-Keeps :
      (P : Blob → Type 0) (c : Option Open) (without : PullError) (op : Op) (s : Pulling)
      → IsFrame op
      → s.current ≡ c
      → Holds (map as_push targets) s.current s.tmp
      → Keeps sha256 targets P s.files (write_file c without op s)
  unfolding write_file fail
  write_file-Keeps P none without op s short q h = stays P s h
  write_file-Keeps P (some o) without op s short q h =
      let held : Holds (map as_push targets) (some o) s.tmp =
        subst (λ c. Holds (map as_push targets) c s.tmp) q h in
      subst
        (λ files. Keeps sha256 targets P files (written_to o (write_op op o.writer) (counted op s)))
        (counted-files op s)
        (written_to-Keeps P o (write_op op o.writer) (counted op s)
          (write_op-Keeps op o.writer short (held.1))
          (subst (Holds (map as_push targets) (some o)) (sym (counted-tmp op s)) held))

  settle-Keeps :
      (P : Blob → Type 0) (sha : Blob) (o : Open) (s : Pulling) (f : Result FinishError ℕ × Files)
      → P sha
      → all_zero sha ≡ false
      → Finished sha256 sha o.writer (record { dest = s.files o.dest; tmp = s.tmp }) f
      → Holds (map as_push targets) (some o) s.tmp
      → Keeps sha256 targets P s.files (settle o.dest f s)
  unfolding settle fail
  settle-Keeps P sha o s (ok n, f) claimed given (left, got, size, hash)
        (there, writer, (t, e, d, z)) =
      let sent : sha256 o.writer.written ≡ sha = elim hash [ inl blank ↦ cc | inr same ↦ same ] in
      let delivered : Delivered sha256 (map as_push targets) P o.dest o.writer.written = record {
        target = t;
        idx = o.idx;
        listed = e;
        here = sym d;
        sized = size ∙ z;
        claimed = subst P (sym sent) claimed;
        given = subst (λ s. all_zero s ≡ false) (sym sent) given;
      } in
      (
        ap (λ x. x.tmp) left,
        subst (λ c. Sound sha256 (map as_push targets) P s.files (put o.dest c s.files))
            (sym (ap (λ x. x.dest) left))
            (put-Delivered sha256 (map as_push targets) P o.dest o.writer.written s.files
              delivered),
      )
  settle-Keeps P sha o s (err x, f) claimed given left h = (
    ap (λ x. x.tmp) left,
    put-Sound sha256 (map as_push targets) P o.dest f.dest s.files (ap (λ x. x.dest) left),
  )

  end_file-Keeps :
      (P : Blob → Type 0) (c : Option Open) (sha : Blob) (a : Answers) (s : Pulling)
      → P sha
      → s.current ≡ c
      → Holds (map as_push targets) s.current s.tmp
      → Keeps sha256 targets P s.files (end_file c sha256 sha a s)
  unfolding end_file fail aborted
  end_file-Keeps P none sha a s claimed q h = stays P s h
  end_file-Keeps P (some o) sha a s claimed q h =
      let held : Holds (map as_push targets) (some o) s.tmp =
        subst (λ c. Holds (map as_push targets) c s.tmp) q h in
      elim (Bool-cases (all_zero sha)) [
        | inl z ↦ rw z (gone P s)
        | inr z ↦ rw z (
            settle-Keeps P sha o s _ claimed z
              (finish-Finished sha256 sha o.writer (record { dest = s.files o.dest; tmp = s.tmp })
                a.disk (held.1))
              held)
      ]

  pub on_payload-Keeps :
      (p : Payload) (a : Answers) (s : Pulling)
      → IsShortPayload p
      → ((i : ℕ) (t : PullTarget) → get_elem? targets i ≡ some t → t.size < 2 ^ 63)
      → Holds (map as_push targets) s.current s.tmp
      → Keeps sha256 targets (Brings p) s.files (on_payload sha256 targets p a s)
  unfolding on_payload fail
  on_payload-Keeps (file_start i seq) a s short small h =
      start_file-Keeps _ s.current seq a s small h
  on_payload-Keeps (chunk i bytes) a s short small h =
      write_file-Keeps _ s.current data_without_start (Op.literal bytes) s short refl h
  on_payload-Keeps (Payload.copy i start len) a s short small h =
      write_file-Keeps _ s.current copy_without_start (Op.copy start len) s tt refl h
  on_payload-Keeps (file_end i sha) a s short small h =
      end_file-Keeps _ s.current sha a s refl refl h
  on_payload-Keeps (transfer_done i success message path bytes sha) a s short small h =
      Keeps-if _ s.files success _ _ (stays _ s h) (stays _ s h)
  on_payload-Keeps (error i code message) a s short small h = stays _ s h
  on_payload-Keeps p a s short small h = stays _ s h
