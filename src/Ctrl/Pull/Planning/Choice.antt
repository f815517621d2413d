-- ===== src/Ctrl/Pull/Planning/Choice.antt =====
-- What `plan_pull_files` of src/ctrl.rs decides for a file.
use apb.Prelude.{
  ℕ, ◌≡◌, refl, sym, ◌∙◌, ◌⊎◌, inl, inr, none, some, Bool, true, false, List, length, if◌then◌else◌,
}
use apb.Delta.Blocks.{choose_block_size, choose_block_size_bounds, worth_delta}
use apb.Delta.Produce.{bytes_eq}
use apb.Delta.Produce.Match.{bytes_eq-eq}
use apb.Delta.Signatures.{SigSet, scan}
use apb.Delta.Signatures.Scanned.{scan_lem}
use apb.Delta.Writer.{all_zero}
use apb.Agent.Plans.{Found, absent, special, regular}
use apb.Ctrl.Plans.{FilePlan}
use apb.Ctrl.Pull.{PullTarget}
use apb.Ctrl.Pull.Planning.{
  Local, Planned, planned, unreadable, plan_scanned, plan_found, plan_file,
}

-- Number, path, size, mode and hash of a file stay.
pub record SameFile (t t' : PullTarget) : Type 0 where
  pub seq : t'.seq ≡ t.seq
  pub dest : t'.dest ≡ t.dest
  pub size : t'.size ≡ t.size
  pub mode : t'.mode ≡ t.mode
  pub sha : t'.sha ≡ t.sha

-- A delta comes with the signatures of the file that stands at the destination.
pub record IsDelta (sha256 : List ℕ → List ℕ) (found : Found) (t t' : PullTarget) (set : SigSet)
    : Type 0 where
  pub plan : t'.plan ≡ FilePlan.delta
  pub block_size : t'.block_size ≡ set.block_size
  pub block_count : t'.block_count ≡ set.block_count
  pub base : List ℕ
  pub there : found ≡ regular base
  pub scanned : set ≡ scan sha256 base (choose_block_size (length base))
  pub worth : worth_delta (length base) t.size set.block_count ≡ true

pub record IsSkip (sha256 : List ℕ → List ℕ) (found : Found) (t t' : PullTarget) : Type 0 where
  pub plan : t'.plan ≡ FilePlan.skip
  pub given : all_zero t.sha ≡ false
  pub content : List ℕ
  pub there : found ≡ regular content
  pub hash : sha256 content ≡ t.sha

abbrev pub Chosen : (List ℕ → List ℕ) → Local → PullTarget → Planned → Type 0
Chosen sha256 here t (unreadable t') = here.scan_ok ≡ false
Chosen sha256 here t (planned t' none) =
    SameFile t t' × ((t'.plan ≡ FilePlan.whole) ⊎ IsSkip sha256 here.found t t')
Chosen sha256 here t (planned t' (some set)) = SameFile t t' × IsDelta sha256 here.found t t' set

both : (z q : Bool) → (if z then false else q) ≡ true → (z ≡ false) × (q ≡ true)
both true q h = cc
both false q h = (refl, h)

module _ (sha256 : List ℕ → List ℕ) (here : Local) (t : PullTarget) where
  Chosen-if :
      (c : Bool) (x y : Planned)
      → (c ≡ true → Chosen sha256 here t x)
      → (c ≡ false → Chosen sha256 here t y)
      → Chosen sha256 here t (if c then x else y)
  Chosen-if true x y h k = h refl
  Chosen-if false x y h k = k refl

  unchanged :
      (p : FilePlan) (bs bc : ℕ)
      → SameFile t (record t { plan = p; block_size = bs; block_count = bc })
  unchanged p bs bc = record { seq = refl; dest = refl; size = refl; mode = refl; sha = refl }

  plan_scanned-Chosen :
      (content : List ℕ)
      → here.found ≡ regular content
      → Chosen sha256 here t
          (plan_scanned t (scan sha256 content (choose_block_size (length content))))
  unfolding plan_scanned
  plan_scanned-Chosen content found =
      let set = scan sha256 content (choose_block_size (length content)) in
      let known =
        scan_lem sha256 content (choose_block_size (length content))
          (choose_block_size_bounds (length content)).0 in
      Chosen-if (if all_zero t.sha then false else bytes_eq set.file_sha t.sha) _ _
        (λ e.
          let (given, equal) = both (all_zero t.sha) (bytes_eq set.file_sha t.sha) e in
          (
            unchanged FilePlan.skip t.block_size t.block_count,
            inr (record {
              plan = refl;
              given = given;
              content = content;
              there = found;
              hash = sym known.3 ∙ bytes_eq-eq set.file_sha t.sha equal;
            }),
          ))
        (λ _.
          Chosen-if (worth_delta set.size t.size set.block_count) _ _
            (λ w. (
              unchanged FilePlan.delta set.block_size set.block_count,
              record {
                plan = refl;
                block_size = refl;
                block_count = refl;
                base = content;
                there = found;
                scanned = refl;
                worth = unfold scan in w;
              },
            ))
            (λ _. (unchanged FilePlan.whole t.block_size t.block_count, inl refl)))

  plan_found-Chosen :
      (found : Found)
      → here.found ≡ found
      → t.plan ≡ FilePlan.whole
      → Chosen sha256 here t (plan_found sha256 here.scan_ok found t)
  unfolding plan_found
  plan_found-Chosen absent e w = (unchanged t.plan t.block_size t.block_count, inl w)
  plan_found-Chosen special e w = (unchanged t.plan t.block_size t.block_count, inl w)
  plan_found-Chosen (regular content) e w =
      Chosen-if here.scan_ok _ _ (λ _. plan_scanned-Chosen content e) (λ q. q)

  -- For a file as the manifest lists it and whatever stands at its destination: the file keeps its number,
  -- path, size, mode and hash; it is skipped only where the local file has the announced hash, which is not
  -- all zero; a delta comes with the signatures of the local file, at the block size for its length, and
  -- with their block size and count, and is worth it; otherwise the whole file is asked for. An error
  -- comes only from a scan that fails.
  pub plan_file-Chosen : t.plan ≡ FilePlan.whole → Chosen sha256 here t (plan_file sha256 here t)
  unfolding plan_file
  plan_file-Chosen = plan_found-Chosen here.found refl
