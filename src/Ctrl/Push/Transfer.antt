-- ===== src/Ctrl/Push/Transfer.antt =====
-- A push from end to end behind its plans: the third phases of `push` of src/ctrl.rs and of `run_push` of
-- src/agent.rs, with the parts of src/delta.rs that both sides use.
pub mod Completed
use apb.Prelude.{
  ℕ, ◌/◌, ◌^◌, ◌≤◌, ◌<◌, ◌≡◌, Option, none, some, true, false, List, [], ◌∷◌, length, get_elem?,
  map,
}
use apb.Proto.Types.{Blob, Payload}
use apb.Delta.Blocks.{sig_len}
use apb.Delta.Signatures.{scan, encode}
use apb.Delta.Sync.{Distinct}
use apb.Delta.Writer.{all_zero}
use apb.Agent.Types.{PushTarget, Store, Answers, Event, received}
use apb.Agent.Data.{put}
use apb.Ctrl.Plans.{FilePlan, Slots}
use apb.Ctrl.Pull.{as_plan}
use apb.Ctrl.Push.{ManifestFile}
use apb.Ctrl.Push.Sending.{Look, check_send_feedback}
use apb.Ctrl.Push.Sending.Completed.{Task}

-- A file at both ends.
pub record Pair : Type 0 where
  pub task : Task
  pub target : PushTarget

unfoldable pub arrives : Answers → Payload → Event
arrives a p = received p a

module _ (sha256 : List ℕ → List ℕ) (look : ManifestFile → Look) where
  abbrev pub source : Pair → List ℕ
  source p = (look p.task.file).reader.rest

  -- The node's file, from whose signatures a delta is made.
  pub record HasBase (a : Answers) (files : Store) (p : Pair) : Type 0 where
    pub base : List ℕ
    pub there : files p.target.dest ≡ some base
    pub opens : a.open_ok ≡ true
    pub block : 1 ≤ p.task.block_size
    pub few : length base / p.task.block_size ≤ 2 ^ 32
    pub count : length p.task.sigs / sig_len ≡ (scan sha256 base p.task.block_size).block_count
    pub sigs : p.task.sigs ≡ encode (scan sha256 base p.task.block_size)
    pub distinct : Distinct sha256 base p.task.block_size

  -- What a delta needs besides.
  abbrev pub Based : FilePlan → Answers → Store → Pair → Type 0
  Based FilePlan.delta a files p = HasBase a files p
  Based _ a files p = Unit {0}

  -- The two ends agree on a file that is sent.
  pub record Agrees (plan : FilePlan) (targets : List PushTarget) (a : Answers) (files : Store)
      (p : Pair) : Type 0 where
    pub listed : get_elem? targets p.target.seq ≡ some p.target
    pub number : p.task.file.seq ≡ p.target.seq
    pub same_plan : p.target.plan ≡ as_plan plan
    pub sized : length (source p) ≡ p.target.size
    pub small : p.target.size < 2 ^ 63
    pub hash : p.task.file.sha ≡ sha256 (source p)
    pub given : all_zero p.task.file.sha ≡ false
    pub based : Based plan a files p

  -- Of a file that is skipped nothing is asked.
  abbrev pub Agreed : FilePlan → List PushTarget → Answers → Store → Pair → Type 0
  Agreed FilePlan.skip targets a files p = Unit {0}
  Agreed plan targets a files p = Agrees plan targets a files p

  -- The node's files behind one file of the push.
  unfoldable pub stored : FilePlan → Pair → Store → Store
  stored FilePlan.skip p files = files
  stored plan p files = put p.target.dest (some (source p)) files

  unfoldable pub stored_all : List Pair → Store → Store
  unfolding stored
  stored_all [] files = files
  stored_all (p ∷ ps) files = stored_all ps (stored p.task.plan p files)

  -- The files agree when their turn comes.
  abbrev pub AllAgree : List PushTarget → Answers → Store → List Pair → Type 0
  AllAgree targets a files [] = Unit {0}
  AllAgree targets a files (p ∷ ps) =
      Agreed p.task.plan targets a files p × AllAgree targets a (stored p.task.plan p files) ps

-- The node's answers stand in their places, it reports no failure, and the file is opened and read to its end.
pub record IsUndisturbed (slots : Slots) (look : ManifestFile → Look) (t : Task) : Type 0 where
  pub planned : get_elem? slots.plans t.file.seq ≡ some t.plan
  pub sized : get_elem? slots.block_sizes t.file.seq ≡ some t.block_size
  pub signed : get_elem? slots.sigs t.file.seq ≡ some t.sigs
  pub quiet : check_send_feedback (look t.file).feedback ≡ none
  pub opens : (look t.file).open_error ≡ none
  pub reads_on : (look t.file).stops ≡ none

pub record IsWilling (a : Answers) : Type 0 where
  pub creates : a.create_ok ≡ true
  pub syncs : a.disk.sync_ok ≡ true
  pub sets : a.disk.chmod_ok ≡ true
  pub renames : a.disk.rename_ok ≡ true
