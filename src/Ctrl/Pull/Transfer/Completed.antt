-- ===== src/Ctrl/Pull/Transfer/Completed.antt =====
-- A pull from end to end behind its plans.
use mathlib.Core.Path.{subst}
use apb.Prelude.{
  ℕ, ◌+◌, ◌≤◌, ◌≡◌, refl, ap, ◌∙◌, none, false, List, [], ◌∷◌, ◌++◌, length, map, map-append, All,
  ok,
}
use apb.Proto.Types.{Text, Payload, file_start, file_end}
use apb.Delta.Blocks.{strong_len}
use apb.Delta.Writer.{all_zero}
use apb.Agent.Types.{Plan, Store}
use apb.Agent.Pull.{PullSource}
use apb.Agent.Pull.Sending.{Look, op_frame, send_sources}
use apb.Agent.Pull.Sending.Frames.{source_ops, source_frames, sources_frames, HasOps, IsSmooth}
use apb.Agent.Pull.Sending.Completed.{done_frame, send_sources-Completes}
use apb.Ctrl.Pull.{PullTarget, Answers}
use apb.Ctrl.Pull.Data.{done, receive_files}
use apb.Ctrl.Pull.Data.Frames.{
  arrive, Shipment, file_frames, with_counters, IsReady, IsWilling, receive_files-done,
}
use apb.Ctrl.Pull.Data.Delivery.{all_frames, place, count_all, AreReady, receive_files-all_frames}
use apb.Ctrl.Pull.Transfer.{
  Pair, shipment, ship, shipments, Agrees, Agreed, AllAgree, IsUndisturbed,
}
use apb.Ctrl.Pull.Transfer.Written.{IsSent, found, delta-Delivers, source_ops_written}

module _ (sha256 : List ℕ → List ℕ) (look : PullSource → Look)
    (wide : (bytes : List ℕ) → strong_len ≤ length (sha256 bytes)) (a : Answers) (job : ℕ)
    (targets : List PullTarget) where
  Agrees-IsReady :
      (plan : Plan) (files : Store) (p : Pair)
      → IsSent plan
      → Agrees sha256 look plan targets a files p
      → IsReady sha256 job targets a files (shipment sha256 look plan p)
  unfolding shipment
  Agrees-IsReady plan files p sent g = record {
    listed = g.listed;
    sized = g.sized;
    given = subst (λ z. all_zero z ≡ false) g.hash g.given;
    written =
        source_ops_written sha256 look wide a plan files p sent g.same_plan g.sized g.small g.based;
  }

  Agrees-HasOps :
      (plan : Plan) (files : Store) (p : Pair)
      → Agrees sha256 look plan targets a files p
      → HasOps sha256 plan (look p.source) p.source
  Agrees-HasOps Plan.whole files p g = tt
  Agrees-HasOps Plan.skip files p g = tt
  Agrees-HasOps Plan.delta files p g =
      found (g.based).base (look p.source).reader.rest _
        (delta-Delivers sha256 look wide a files p g.based)

  smooth :
      (s : PullSource)
      → IsUndisturbed look s
      → HasOps sha256 s.plan (look s) s
      → IsSmooth sha256 (look s) s
  smooth s u h = record { going = u.going; opens = u.opens; reads_on = u.reads_on; has_ops = h }

  frames_same :
      (plan : Plan) (files : Store) (p : Pair)
      → IsSent plan
      → Agrees sha256 look plan targets a files p
      → source_frames sha256 job plan (look p.source) p.source
        ≡ file_frames sha256 job (shipment sha256 look plan p)
  unfolding source_frames file_frames shipment
  frames_same Plan.skip files p sent g = elim sent [ ]
  frames_same Plan.whole files p sent g = λ i.
      file_start job (g.number i)
      ∷ (map (op_frame job) (source_ops sha256 Plan.whole (look p.source) p.source)
          ++ file_end job (g.hash i) ∷ [])
  frames_same Plan.delta files p sent g = λ i.
      file_start job (g.number i)
      ∷ (map (op_frame job) (source_ops sha256 Plan.delta (look p.source) p.source)
          ++ file_end job (g.hash i) ∷ [])

  agreed_frames :
      (plan : Plan) (files : Store) (p : Pair) (next : Store → Type 0) (rest : List Payload)
      (xs : List Shipment)
      → Agreed sha256 look plan targets a files p next
      → ((files' : Store) → next files' → rest ≡ all_frames sha256 job xs)
      → source_frames sha256 job plan (look p.source) p.source ++ rest
        ≡ all_frames sha256 job (ship sha256 look plan p xs)
  unfolding ship all_frames source_frames
  agreed_frames Plan.skip files p next rest xs h k = k files h
  agreed_frames Plan.whole files p next rest xs (g, h) k =
      λ i. frames_same Plan.whole files p tt g i ++ k _ h i
  agreed_frames Plan.delta files p next rest xs (g, h) k =
      λ i. frames_same Plan.delta files p tt g i ++ k _ h i

  agreed-AreReady :
      (plan : Plan) (files : Store) (p : Pair) (next : Store → Type 0) (xs : List Shipment)
      → Agreed sha256 look plan targets a files p next
      → ((files' : Store) → next files' → AreReady sha256 job targets a files' xs)
      → AreReady sha256 job targets a files (ship sha256 look plan p xs)
  unfolding ship shipment
  agreed-AreReady Plan.skip files p next xs h k = k files h
  agreed-AreReady Plan.whole files p next xs (g, h) k =
      (unfold shipment in (Agrees-IsReady Plan.whole files p tt g, k _ h))
  agreed-AreReady Plan.delta files p next xs (g, h) k =
      (unfold shipment in (Agrees-IsReady Plan.delta files p tt g, k _ h))

  agreed-HasOps :
      (plan : Plan) (files : Store) (p : Pair) (next : Store → Type 0)
      → Agreed sha256 look plan targets a files p next
      → HasOps sha256 plan (look p.source) p.source × ((files' : Store) × next files')
  agreed-HasOps Plan.skip files p next h = (tt, (files, h))
  agreed-HasOps Plan.whole files p next (g, h) = (tt, (_, h))
  agreed-HasOps Plan.delta files p next (g, h) = (Agrees-HasOps Plan.delta files p g, (_, h))

  sources_same :
      (ps : List Pair) (files : Store)
      → AllAgree sha256 look targets a files ps
      → sources_frames sha256 job look (map (λ p. p.source) ps)
        ≡ all_frames sha256 job (shipments sha256 look ps)
  unfolding sources_frames shipments all_frames
  sources_same [] files h = refl
  sources_same (p ∷ ps) files h =
      agreed_frames p.source.plan files p (λ files'. AllAgree sha256 look targets a files' ps) _ _ h
        (sources_same ps)

  AllAgree-AreReady :
      (ps : List Pair) (files : Store)
      → AllAgree sha256 look targets a files ps
      → AreReady sha256 job targets a files (shipments sha256 look ps)
  unfolding shipments
  AllAgree-AreReady [] files h = tt
  AllAgree-AreReady (p ∷ ps) files h =
      agreed-AreReady p.source.plan files p (λ files'. AllAgree sha256 look targets a files' ps) _ h
        (AllAgree-AreReady ps)

  AllAgree-IsSmooth :
      (ps : List Pair) (files : Store)
      → AllAgree sha256 look targets a files ps
      → All (λ p. IsUndisturbed look p.source) ps
      → All (λ s. IsSmooth sha256 (look s) s) (map (λ p. p.source) ps)
  AllAgree-IsSmooth [] files h u = tt
  AllAgree-IsSmooth (p ∷ ps) files h (here, u) =
      let (ops, (files', rest)) =
        agreed-HasOps p.source.plan files p (λ files'. AllAgree sha256 look targets a files' ps)
          h in
      (smooth p.source here ops, AllAgree-IsSmooth ps files' rest u)

  -- Take files whose plans the two ends share: whole files, deltas against the signatures of the
  -- controller's own file (with a hash of at least 16 bytes, at most 2^32 blocks and no collision of the
  -- truncated hash with a block of it), and files that are skipped. If nothing stops the node, the
  -- connection has room for its frames, each file is what was announced and below 2^63 bytes with a hash
  -- that is not all zero, and the controller's machine creates, opens, syncs, sets permissions and
  -- renames, then the frames that the node sends take the loop of the controller to its end with the path
  -- that the node reports, with no file open and no temporary file left, and with exactly the bytes that
  -- the node has read in the place of each file that was sent, in their order, for every schedule of reads.
  pub pull_transfer :
      (ps : List Pair) (root : Text) (total room : ℕ) (files : Store) (n : ℕ × ℕ)
      → AllAgree sha256 look targets a files ps
      → All (λ p. IsUndisturbed look p.source) ps
      → IsWilling a
      → length (sources_frames sha256 job look (map (λ p. p.source) ps)) + 1 ≤ room
      → receive_files sha256 job targets
          (map
            (arrive a)
            (send_sources sha256 job root total look
              (map (λ p. p.source) ps)
              (record { room = room; sent = [] })).0.sent)
          (with_counters none files false n)
        ≡ done
            (with_counters none
              (place (shipments sha256 look ps) files)
              false
              (count_all (shipments sha256 look ps) n))
            (ok root)
  pull_transfer ps root total room files n agree still willing fits =
      let ss = map (λ (p : Pair). p.source) ps in
      let xs = shipments sha256 look ps in
      let last = done_frame job root total in
      let (sent, ended) =
        send_sources-Completes sha256 job root total look ss room []
          (AllAgree-IsSmooth ps files agree still) fits in
      let frames = sent ∙ ap (λ l. l ++ last ∷ []) (sources_same ps files agree) in
      ap
        (λ l.
          receive_files sha256 job targets (map (arrive a) l) (with_counters none files false n))
        frames
      ∙ ap (λ l. receive_files sha256 job targets l (with_counters none files false n))
          (map-append (arrive a) (all_frames sha256 job xs) (last ∷ []))
      ∙ receive_files-all_frames sha256 job targets a xs files (arrive a last ∷ []) n
          (AllAgree-AreReady ps files agree) willing
      ∙ receive_files-done sha256 job targets a root total (place xs files) (count_all xs n)
