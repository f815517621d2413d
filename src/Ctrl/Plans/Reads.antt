-- ===== src/Ctrl/Plans/Reads.antt =====
-- `read_push_plans` of src/ctrl.rs reads what `run_push` of src/agent.rs sends for a file.
use apb.Prelude.{
  ==_refl, ℕ, zero, suc, ◌*◌, ◌^◌, ◌≤◌, ◌<◌, ◌≡◌, refl, sym, ap, ◌∙◌, some, true, List, [], ◌∷◌,
  ◌++◌, append-nil, ◌==◌, ltb, length, get_elem?, map, arith,
}
use apb.Proto.Types.{Blob, Payload, file_plan, file_sigs}
use apb.Proto.Payload.{id}
use apb.Delta.Blocks.{sig_len, sig_batch}
use apb.Delta.Signatures.{SigSet, encode}
use apb.Agent.Types.{Plan, action, PushTarget}
use apb.Agent.Plans.{chunks_loop, chunks, sig_frames, set_frames, plan_frames}
use apb.Agent.Plans.Chunks.{sig_frames-taken}
use apb.Ctrl.Plans.{
  FilePlan, from_action, Slots, Event, relay_result, more, set_at, put_plan, in_order, extend_sigs,
  read_payload, read_event, go_on, read_push_plans,
}

module _ {ℓ} {A : Type ℓ} where
  pub get_elem?-set_at :
      (xs : List A) (i : ℕ) (x : A) → i < length xs → get_elem? (set_at xs i x) i ≡ some x
  unfolding set_at
  get_elem?-set_at [] i x h = absurd (omega arith)
  get_elem?-set_at (y ∷ ys) zero x h = refl
  get_elem?-set_at (y ∷ ys) (suc i) x h = get_elem?-set_at ys i x (omega arith)

  length-set_at : (xs : List A) (i : ℕ) (x : A) → length (set_at xs i x) ≡ length xs
  unfolding set_at
  length-set_at [] i x = refl
  length-set_at (y ∷ ys) zero x = refl
  length-set_at (y ∷ ys) (suc i) x = ap suc (length-set_at ys i x)

  pub set_at-set_at : (xs : List A) (i : ℕ) (x y : A) → set_at (set_at xs i x) i y ≡ set_at xs i y
  unfolding set_at
  set_at-set_at [] i x y = refl
  set_at-set_at (z ∷ zs) zero x y = refl
  set_at-set_at (z ∷ zs) (suc i) x y = ap (λ l. z ∷ l) (set_at-set_at zs i x y)

module _ (job : ℕ) (s : Slots) (seq : ℕ) (known : seq < length s.sigs) where
  -- The slots with this in the buffer of the file.
  holding : Blob → Slots
  holding buf = record s { sigs = set_at s.sigs seq buf }

  read_event-sigs :
      (buf blob : Blob) (first : ℕ)
      → length buf ≡ first * sig_len
      → first * sig_len < 2 ^ 64
      → read_event job (relay_result (file_sigs job seq first blob)) (holding buf)
        ≡ more (holding (buf ++ blob))
  unfolding read_event id read_payload extend_sigs in_order holding
  read_event-sigs buf blob first e fits =
      let place : get_elem? (set_at s.sigs seq buf) seq ≡ some buf =
        get_elem?-set_at s.sigs seq buf known in
      let small : ltb (first * sig_len) (2 ^ 64) ≡ true = ground arith in
      let equal : (length buf == first * sig_len) ≡ true = ground arith in
      rw (==_refl job, place)
        (rw (small, equal)
          (ap (λ l. more (record s { sigs = l })) (set_at-set_at s.sigs seq buf (buf ++ blob))))

  sig_frames-read :
      (fuel : ℕ) (xs : Blob) (rest : List Event)
      → length xs ≤ fuel
      → length xs < 2 ^ 63
      → read_push_plans job
          (map relay_result (sig_frames job seq 0 (chunks_loop fuel sig_batch xs)) ++ rest)
          (holding [])
        ≡ read_push_plans job rest (holding xs)
  unfolding read_push_plans go_on
  sig_frames-read fuel xs rest h fits =
      let run = λ (ps : List Payload) (buf : Blob).
        read_push_plans job (map relay_result ps ++ rest) (holding buf) in
      ap (λ l. read_push_plans job (map relay_result l ++ rest) (holding []))
        (sym (append-nil (sig_frames job seq 0 (chunks_loop fuel sig_batch xs))))
      ∙ sig_frames-taken job seq run
          (λ buf blob first ps e small.
            ap (go_on (read_push_plans job (map relay_result ps ++ rest)))
              (read_event-sigs buf blob first e small))
          fuel 0 xs [] [] h (λ _. refl) (omega (arith, fits))

-- What the frames of a file say: its plan, its block size, and the signatures that come with a delta.
abbrev pub plan_of : Plan → FilePlan
plan_of Plan.whole = FilePlan.whole
plan_of Plan.skip = FilePlan.skip
plan_of Plan.delta = FilePlan.delta

unfoldable pub answered : PushTarget → SigSet → Slots → Slots
answered t set s = record {
  plans = set_at s.plans t.seq FilePlan.delta;
  block_sizes = set_at s.block_sizes t.seq t.block_size;
  sigs = set_at s.sigs t.seq (encode set);
}

plan-read :
    (job seq block_size block_count : ℕ) (s : Slots)
    → seq < length s.plans
    → read_event job (relay_result (file_plan job seq (action Plan.delta) block_size block_count)) s
      ≡ more (record {
        plans = set_at s.plans seq FilePlan.delta;
        block_sizes = set_at s.block_sizes seq block_size;
        sigs = set_at s.sigs seq [];
      })
unfolding read_event id read_payload put_plan from_action action
plan-read job seq block_size block_count s known =
    let inside : ltb seq (length s.plans) ≡ true = ground arith in rw (==_refl job) (rw inside refl)

-- For a delta whose number is in range and whose signatures are below 2^63 bytes: the controller reads the
-- frames that the node sends for the file without an error, in however many frames the signatures go,
-- goes on with the events behind them, and has put the plan, the block size and exactly the node's
-- encoded signatures in the places of the file, with every other place as it was.
pub read_push_plans-plan_frames :
    (job : ℕ) (t : PushTarget) (set : SigSet) (s : Slots) (rest : List Event)
    → t.plan ≡ Plan.delta
    → t.seq < length s.plans
    → t.seq < length s.sigs
    → length (encode set) < 2 ^ 63
    → read_push_plans job (map relay_result (plan_frames job t (some set)) ++ rest) s
      ≡ read_push_plans job rest (answered t set s)
unfolding read_push_plans plan_frames set_frames chunks answered
read_push_plans-plan_frames job t set s rest delta known buffered fits =
    let fresh : Slots = record {
      plans = set_at s.plans t.seq FilePlan.delta;
      block_sizes = set_at s.block_sizes t.seq t.block_size;
      sigs = s.sigs;
    } in
    ap
      (go_on (
        read_push_plans job (
          map relay_result
            (sig_frames job t.seq 0 (chunks_loop (length (encode set)) sig_batch (encode set)))
          ++ rest)))
      (ap
          (λ p.
            read_event job
              (relay_result (file_plan job t.seq (action p) t.block_size t.block_count)) s)
          delta
        ∙ plan-read job t.seq t.block_size t.block_count s known)
    ∙ (unfold holding go_on in
        sig_frames-read job fresh t.seq buffered (length (encode set)) (encode set) rest
          (omega arith) fits)
