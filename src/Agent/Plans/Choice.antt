-- ===== src/Agent/Plans/Choice.antt =====
-- What `plan_push_target` of src/agent.rs decides.
use apb.Prelude.{
  ℕ, ◌≡◌, refl, sym, ◌∙◌, ◌⊎◌, inl, inr, none, some, Bool, true, false, List, length, if◌then◌else◌,
}
use apb.Delta.Blocks.{choose_block_size, choose_block_size_bounds, worth_delta}
use apb.Delta.Produce.{bytes_eq}
use apb.Delta.Produce.Match.{bytes_eq-eq}
use apb.Delta.Signatures.{SigSet, scan}
use apb.Delta.Signatures.Scanned.{scan_lem}
use apb.Delta.Writer.{all_zero}
use apb.Agent.Types.{Plan, PushTarget}
use apb.Agent.Plans.{
  Found, absent, special, regular, Look, Planned, planned, unreadable, plan_scanned, plan_found,
  plan_push_target,
}

-- The file is the same one.
abbrev pub SameFile : PushTarget → PushTarget → Type 0
SameFile t t' =
    (t'.seq ≡ t.seq)
    × (t'.dest ≡ t.dest)
    × (t'.size ≡ t.size)
    × (t'.sha ≡ t.sha)
    × (t'.mode ≡ t.mode)

abbrev pub Chosen : (List ℕ → List ℕ) → Look → PushTarget → Planned → Type 0
Chosen sha256 look t (unreadable t') = look.scan_ok ≡ false
Chosen sha256 look t (planned t' none) =
    SameFile t t'
    × (t'.block_size ≡ 0)
    × (t'.block_count ≡ 0)
    × ((t'.plan ≡ Plan.whole)
        ⊎ ((t'.plan ≡ Plan.skip)
            × (all_zero t.sha ≡ false)
            × ((content : List ℕ) × (look.found ≡ regular content) × (sha256 content ≡ t.sha))))
Chosen sha256 look t (planned t' (some set)) =
    SameFile t t'
    × (t'.plan ≡ Plan.delta)
    × (t'.block_size ≡ set.block_size)
    × (t'.block_count ≡ set.block_count)
    × ((content : List ℕ) × (look.found ≡ regular content)
        × (set ≡ scan sha256 content (choose_block_size (length content)))
        × (worth_delta (length content) t.size set.block_count ≡ true))

both : (z q : Bool) → (if z then false else q) ≡ true → (z ≡ false) × (q ≡ true)
both true q h = cc
both false q h = (refl, h)

module _ (sha256 : List ℕ → List ℕ) (look : Look) (t : PushTarget) where
  Chosen-if :
      (c : Bool) (x y : Planned)
      → (c ≡ true → Chosen sha256 look t x)
      → (c ≡ false → Chosen sha256 look t y)
      → Chosen sha256 look t (if c then x else y)
  Chosen-if true x y h k = h refl
  Chosen-if false x y h k = k refl

  plan_scanned-Chosen :
      (content : List ℕ) (set : SigSet)
      → look.found ≡ regular content
      → set ≡ scan sha256 content (choose_block_size (length content))
      → set.file_sha ≡ sha256 content
      → Chosen sha256 look t (
          plan_scanned
            (record t { plan = Plan.whole; block_size = 0; block_count = 0 })
            content
            set)
  unfolding plan_scanned
  plan_scanned-Chosen content set found scanned hash =
      Chosen-if (if all_zero t.sha then false else bytes_eq set.file_sha t.sha) _ _
        (λ e.
          let (given, equal) = both (all_zero t.sha) (bytes_eq set.file_sha t.sha) e in
          (
            (refl, refl, refl, refl, refl),
            refl,
            refl,
            inr (refl, given, (content, found, sym hash ∙ bytes_eq-eq set.file_sha t.sha equal)),
          ))
        (λ _.
          Chosen-if (worth_delta (length content) t.size set.block_count) _ _
            (λ w. ((refl, refl, refl, refl, refl), refl, refl, refl, (content, found, scanned, w)))
            (λ _. ((refl, refl, refl, refl, refl), refl, refl, inl refl)))

  plan_found-Chosen :
      (found : Found)
      → look.found ≡ found
      → Chosen sha256 look t (
          plan_found sha256 look found
            (record t { plan = Plan.whole; block_size = 0; block_count = 0 }))
  unfolding plan_found
  plan_found-Chosen absent e = ((refl, refl, refl, refl, refl), refl, refl, inl refl)
  plan_found-Chosen special e = ((refl, refl, refl, refl, refl), refl, refl, inl refl)
  plan_found-Chosen (regular content) e =
      Chosen-if look.scan_ok _ _
        (λ _. plan_scanned-Chosen content _ e refl (
          (scan_lem sha256 content (choose_block_size (length content))
            (choose_block_size_bounds (length content)).0).3))
        (λ q. q)

  -- For every target and whatever stands at its path: the file keeps its number, path, size, hash and mode;
  -- `Skip` is chosen only where the node's file has the announced hash, which is not all zero; a delta
  -- comes with the signatures of the node's own file, at the block size for its length, and with their
  -- block size and count, and is worth it; otherwise the whole file is asked for. An error comes only
  -- from a scan that fails.
  pub plan_push_target-Chosen : Chosen sha256 look t (plan_push_target sha256 look t)
  unfolding plan_push_target
  plan_push_target-Chosen = plan_found-Chosen look.found refl
