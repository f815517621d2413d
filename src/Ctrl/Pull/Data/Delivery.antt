-- ===== src/Ctrl/Pull/Data/Delivery.antt =====
-- Files that the node sends arrive in the data loop of `pull` of src/ctrl.rs.
use apb.Prelude.{
  ℕ, ◌≡◌, refl, ap, ◌∙◌, none, some, true, false, List, [], ◌∷◌, ◌++◌, append_assoc, map,
  map-append, arith,
}
use apb.Proto.Types.{Blob, Payload, file_start, file_end}
use apb.Delta.Writer.{FileWriter, create}
use apb.Delta.Writer.Rebuild.{grown}
use apb.Agent.Types.{Store}
use apb.Agent.Data.{Open, put}
use apb.Agent.Pull.Sending.{op_frame}
use apb.Ctrl.Pull.{PullTarget, Answers, Arrival}
use apb.Ctrl.Pull.Data.{base_of, receive_files}
use apb.Ctrl.Pull.Data.Frames.{
  arrive, Shipment, file_frames, with_counters, count_each, IsReady, IsWilling, receive_files-step,
  ops-more, end-more, start-more,
}

unfoldable pub all_frames : (List ℕ → List ℕ) → ℕ → List Shipment → List Payload
all_frames sha256 job [] = []
all_frames sha256 job (x ∷ xs) = file_frames sha256 job x ++ all_frames sha256 job xs

-- Every shipment in its place, one after the other.
unfoldable pub place : List Shipment → Store → Store
place [] files = files
place (x ∷ xs) files = place xs (put x.target.dest (some x.content) files)

unfoldable pub count_all : List Shipment → ℕ × ℕ → ℕ × ℕ
count_all [] n = n
count_all (x ∷ xs) n = count_all xs (count_each x.ops n)

-- Each is ready when its turn comes.
abbrev pub AreReady :
    (List ℕ → List ℕ) → ℕ → List PullTarget → Answers → Store → List Shipment → Type 0
AreReady sha256 job targets a files [] = Unit {0}
AreReady sha256 job targets a files (x ∷ xs) =
    IsReady sha256 job targets a files x
    × AreReady sha256 job targets a (put x.target.dest (some x.content) files) xs

module _ (sha256 : List ℕ → List ℕ) (job : ℕ) (targets : List PullTarget) (a : Answers) where
  receive_files-file :
      (x : Shipment) (files : Store) (rest : List Arrival) (n : ℕ × ℕ)
      → IsReady sha256 job targets a files x
      → IsWilling a
      → receive_files sha256 job targets
          (map (arrive a) (file_frames sha256 job x) ++ rest)
          (with_counters none files false n)
        ≡ receive_files sha256 job targets rest (
            with_counters none
              (put x.target.dest (some x.content) files)
              false
              (count_each x.ops n))
  unfolding file_frames
  receive_files-file x files rest n ready willing =
      let t = x.target in
      let w : FileWriter = create (base_of t a files) t.size in
      let opened : Open = record { idx = t.seq; dest = t.dest; writer = w } in
      let full : Open = record { idx = t.seq; dest = t.dest; writer = grown x.content w } in
      let sha : Blob = sha256 x.content in
      let last : Arrival = arrive a (file_end job sha) in
      let ops : List Arrival = map (arrive a) (map (op_frame job) x.ops) in
      let split : map (arrive a) (map (op_frame job) x.ops ++ file_end job sha ∷ []) ++ rest
          ≡ ops ++ last ∷ rest =
        ap (λ l. l ++ rest)
          (map-append (arrive a) (map (op_frame job) x.ops) (file_end job sha ∷ []))
        ∙ append_assoc ops (last ∷ []) rest in
      receive_files-step sha256 job targets a (arrive a (file_start job t.seq)) _
        (with_counters none files false n) (with_counters (some opened) files true n)
        (start-more sha256 job targets a files t n ready.listed willing)
      ∙ ap (λ l. receive_files sha256 job targets l (with_counters (some opened) files true n))
          split
      ∙ ops-more sha256 job targets a files x.ops (last ∷ rest) opened (grown x.content w) n
          ready.written
      ∙ receive_files-step sha256 job targets a last rest _ _ (
          end-more sha256 job targets a files full sha (count_each x.ops n) willing ready.given
            (unfold grown create in omega (arith, ready.sized)) (unfold grown create in refl))
      ∙ (unfold grown create in refl)

  -- Where every file is ready when its turn comes and the controller's machine creates, syncs, sets
  -- permissions and renames: from a state with no open file, the loop takes the frames of all the files,
  -- goes on with what comes behind them, and has put each file in its place as a whole, in their order,
  -- with every other path as it was and every byte counted.
  pub receive_files-all_frames :
      (xs : List Shipment) (files : Store) (rest : List Arrival) (n : ℕ × ℕ)
      → AreReady sha256 job targets a files xs
      → IsWilling a
      → receive_files sha256 job targets
          (map (arrive a) (all_frames sha256 job xs) ++ rest)
          (with_counters none files false n)
        ≡ receive_files sha256 job targets rest
            (with_counters none (place xs files) false (count_all xs n))
  unfolding all_frames place count_all
  receive_files-all_frames [] files rest n ready willing = refl
  receive_files-all_frames (x ∷ xs) files rest n (here, ready) willing =
      ap (λ l. receive_files sha256 job targets l (with_counters none files false n))
        (ap (λ l. l ++ rest)
            (map-append (arrive a) (file_frames sha256 job x) (all_frames sha256 job xs))
          ∙ append_assoc (map (arrive a) (file_frames sha256 job x)) _ rest)
      ∙ receive_files-file x files (map (arrive a) (all_frames sha256 job xs) ++ rest) n here
          willing
      ∙ receive_files-all_frames xs _ rest (count_each x.ops n) ready willing
