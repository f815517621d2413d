-- ===== src/Ctrl/Pull/Transfer.antt =====
-- A pull from end to end behind its plans: the third phases of `run_pull` of src/agent.rs, with the parts of
-- src/delta.rs that both sides use, and of `pull` of src/ctrl.rs.
pub mod Written
pub mod Completed
use mathlib.Core.Path.{subst}
use apb.Prelude.{
  ℕ, zero, suc, ◌+◌, ◌*◌, ◌/◌, ◌^◌, ◌≤◌, ◌<◌, ◌≡◌, refl, sym, ap, ◌∙◌, inl, inr, Option, none, some,
  Bool, true, false, List, [], ◌∷◌, ◌++◌, append_assoc, ◌==◌, length, get_elem?, map, map-append,
  arith, All, if◌then◌else◌, Result, ok, err,
}
use apb.Proto.Types.{Text, Blob, Payload, transfer_done}
use apb.Proto.Payload.{id}
use apb.Delta.Blocks.{strong_len}
use apb.Delta.Reader.{Reader}
use apb.Delta.Signatures.{new_index, scan, encode}
use apb.Delta.Sink.{Op, Sink, apply}
use apb.Delta.Sync.{Distinct, send, delta_sync}
use apb.Delta.Produce.Delivery.{Delivers, IsDelivery}
use apb.Delta.Writer.{FileWriter, create, write_all, all_zero}
use apb.Delta.Writer.Rebuild.{grown, write_all-ok, write_all-ok_literals}
use apb.Agent.Types.{Plan, Store}
use apb.Agent.Data.{put}
use apb.Agent.Plans.{Line}
use apb.Agent.Pull.{PullSource}
use apb.Agent.Pull.Sending.{Look, stream_ops, send_sources}
use apb.Agent.Pull.Sending.Streamed.{stream_ops-apply}
use apb.Agent.Pull.Sending.Frames.{
  source_ops, source_frames, sources_frames, HasOps, IsSmooth, ops_of,
}
use apb.Agent.Pull.Sending.Completed.{done_frame, send_sources-Completes}
use apb.Ctrl.Plans.{FilePlan}
use apb.Ctrl.Pull.{PullTarget, Answers, Arrival, as_plan}
use apb.Ctrl.Pull.Data.{done, base_of, receive_files}
use apb.Ctrl.Pull.Data.Frames.{arrive, Shipment, file_frames, with_counters, IsReady, IsWilling}
use apb.Ctrl.Pull.Data.Delivery.{all_frames, place, count_all, AreReady, receive_files-all_frames}

-- A file at both ends.
pub record Pair : Type 0 where
  pub source : PullSource
  pub target : PullTarget

module _ (sha256 : List ℕ → List ℕ) (look : PullSource → Look) where
  -- What arrives of a file: what the node reads of it.
  pub shipment : Plan → Pair → Shipment
  shipment plan p = record {
    target = p.target;
    ops = source_ops sha256 plan (look p.source) p.source;
    content = (look p.source).reader.rest;
  }

  pub ship : Plan → Pair → List Shipment → List Shipment
  unfolding shipment
  ship Plan.skip p xs = xs
  ship plan p xs = shipment plan p ∷ xs

  -- The files that are sent.
  unfoldable pub shipments : List Pair → List Shipment
  unfolding ship
  shipments [] = []
  shipments (p ∷ ps) = ship p.source.plan p (shipments ps)

  -- The controller's file, from whose signatures a delta is made.
  pub record HasBase (a : Answers) (files : Store) (p : Pair) : Type 0 where
    pub base : List ℕ
    pub there : files p.target.dest ≡ some base
    pub opens : a.open_ok ≡ true
    pub block : 1 ≤ p.source.block_size
    pub few : length base / p.source.block_size ≤ 2 ^ 32
    pub count : p.source.block_count ≡ (scan sha256 base p.source.block_size).block_count
    pub sigs : p.source.sigs ≡ encode (scan sha256 base p.source.block_size)
    pub distinct : Distinct sha256 base p.source.block_size

  -- What a delta needs besides.
  abbrev pub Based : Plan → Answers → Store → Pair → Type 0
  Based Plan.delta a files p = HasBase a files p
  Based _ a files p = Unit {0}

  -- The two ends agree on a file that is sent.
  pub record Agrees (plan : Plan) (targets : List PullTarget) (a : Answers) (files : Store)
      (p : Pair) : Type 0 where
    pub listed : get_elem? targets p.target.seq ≡ some p.target
    pub number : p.source.seq ≡ p.target.seq
    pub same_plan : plan ≡ as_plan p.target.plan
    pub sized : length (look p.source).reader.rest ≡ p.target.size
    pub small : p.target.size < 2 ^ 63
    pub hash : p.source.sha ≡ sha256 (look p.source).reader.rest
    pub given : all_zero p.source.sha ≡ false
    pub based : Based plan a files p

  -- Of a file that is skipped nothing is asked; the others agree when their turn comes.
  abbrev pub Agreed : Plan → List PullTarget → Answers → Store → Pair → (Store → Type 0) → Type 0
  Agreed Plan.skip targets a files p next = next files
  Agreed plan targets a files p next =
      Agrees plan targets a files p
      × next (put p.target.dest (some (look p.source).reader.rest) files)

  abbrev pub AllAgree : List PullTarget → Answers → Store → List Pair → Type 0
  AllAgree targets a files [] = Unit {0}
  AllAgree targets a files (p ∷ ps) =
      Agreed p.source.plan targets a files p (λ files'. AllAgree targets a files' ps)

-- Nothing stops the node.
pub record IsUndisturbed (look : PullSource → Look) (s : PullSource) : Type 0 where
  pub going : (look s).cancelled ≡ false
  pub opens : (look s).open_error ≡ none
  pub reads_on : (look s).stops ≡ none
