-- ===== src/Ctrl/Pull/Transfer/Written.antt =====
-- A file that the node sends as it was planned can be written by the controller.
use mathlib.Core.Path.{subst}
use apb.Prelude.{
  if_true, ℕ, ◌+◌, ◌^◌, ◌≤◌, ◌<◌, ◌≡◌, refl, sym, ap, ◌∙◌, Option, none, some, List, length, arith,
  ok,
}
use apb.Delta.Blocks.{strong_len}
use apb.Delta.Signatures.{new_index, scan}
use apb.Delta.Sink.{Sink}
use apb.Delta.Sync.{send, delta_sync}
use apb.Delta.Produce.Delivery.{Delivers}
use apb.Delta.Writer.{FileWriter, create, write_all}
use apb.Delta.Writer.Rebuild.{grown, write_all-ok, write_all-ok_literals}
use apb.Agent.Types.{Plan, Store}
use apb.Agent.Pull.{PullSource}
use apb.Agent.Pull.Sending.{Look, stream_ops}
use apb.Agent.Pull.Sending.Streamed.{stream_ops-apply}
use apb.Agent.Pull.Sending.Frames.{source_ops, ops_of}
use apb.Ctrl.Plans.{FilePlan}
use apb.Ctrl.Pull.{Answers, as_plan}
use apb.Ctrl.Pull.Data.{base_of}
use apb.Ctrl.Pull.Transfer.{Pair, HasBase, Based}

abbrev pub IsSent : Plan → Type 0
IsSent Plan.skip = ⊥
IsSent _ = Unit {0}

as_plan_delta : (q : FilePlan) → Plan.delta ≡ as_plan q → q ≡ FilePlan.delta
as_plan_delta FilePlan.whole e = cc
as_plan_delta FilePlan.skip e = cc
as_plan_delta FilePlan.delta e = refl

pub found :
    (base source : List ℕ) (o : Option Sink)
    → Delivers base source o
    → (sink : Sink) × (o ≡ some sink)
found base source none h = elim h [ ]
found base source (some sink) h = (sink, refl)

pub delivered :
    (base source : List ℕ) (o : Option Sink) (w : FileWriter)
    → Delivers base source o
    → w.base ≡ some base
    → w.received + length source ≤ w.expected
    → w.expected < 2 ^ 63
    → write_all (ops_of o) w ≡ ok (grown source w)
unfolding ops_of
delivered base source none w h b fits small = elim h [ ]
delivered base source (some sink) w h b fits small =
    write_all-ok base sink.ops w h.ops_ok b
      (subst (λ l. w.received + length l ≤ w.expected) (sym h.result) fits) small
    ∙ ap (λ l. ok (grown l w)) h.result

module _ (sha256 : List ℕ → List ℕ) (look : PullSource → Look)
    (wide : (bytes : List ℕ) → strong_len ≤ length (sha256 bytes)) (a : Answers) where
  -- The operations of a delta rebuild what the node reads.
  pub delta-Delivers :
      (files : Store) (p : Pair) (b : HasBase sha256 look a files p)
      → Delivers b.base (look p.source).reader.rest (
          send sha256
            (look p.source).reader
            (new_index p.source.block_size p.source.block_count p.source.sigs))
  delta-Delivers files p b =
      let r = (look p.source).reader in
      let bs = p.source.block_size in
      subst (λ n. Delivers b.base r.rest (send sha256 r (new_index bs n p.source.sigs)))
        (sym b.count)
        (subst
          (λ l.
            Delivers b.base r.rest
              (send sha256 r (new_index bs (scan sha256 b.base bs).block_count l)))
          (sym b.sigs) (delta_sync sha256 wide b.base bs b.block b.few b.distinct r))

  pub source_ops_written :
      (plan : Plan) (files : Store) (p : Pair)
      → IsSent plan
      → plan ≡ as_plan p.target.plan
      → length (look p.source).reader.rest ≡ p.target.size
      → p.target.size < 2 ^ 63
      → Based sha256 look plan a files p
      → write_all
          (source_ops sha256 plan (look p.source) p.source)
          (create (base_of p.target a files) p.target.size)
        ≡ ok (grown (look p.source).reader.rest (create (base_of p.target a files) p.target.size))
  unfolding source_ops
  source_ops_written Plan.skip files p sent q sized small b = elim sent [ ]
  source_ops_written Plan.whole files p sent q sized small b =
      let r = (look p.source).reader in
      let (literal, made) = stream_ops-apply r in
      write_all-ok_literals (stream_ops r) (create (base_of p.target a files) p.target.size) literal
        (unfold create in omega (arith, ap length made, sized)) (unfold create in small)
      ∙ ap (λ l. ok (grown l (create (base_of p.target a files) p.target.size))) made
  source_ops_written Plan.delta files p sent q sized small b =
      let planned : p.target.plan ≡ FilePlan.delta = as_plan_delta p.target.plan q in
      let based : base_of p.target a files ≡ some b.base =
        unfold base_of in rw planned (if_true a.open_ok _ _ b.opens ∙ b.there) in
      delivered b.base (look p.source).reader.rest _
        (create (base_of p.target a files) p.target.size) (delta-Delivers files p b)
        (unfold create in based) (unfold create in omega (arith, sized)) (unfold create in small)
