-- ===== src/Ctrl/Pull/Listing/Inside.antt =====
-- What the manifest loop of `pull` of src/ctrl.rs keeps: the numbers of the files and the paths it touches.
use mathlib.Core.Path.{subst}
use apb.Prelude.{
  ℕ, ◌≡◌, sym, ap, ◌∙◌, inl, inr, Bool-cases, some, Bool, true, false, List, [], ◌∷◌, ◌++◌, ◌==◌,
  length, get_elem?, get_elem?-last, arith, All, All-append, if◌then◌else◌, Result, ok, err,
}
use apb.Proto.Tags.{entry_dir, entry_file, entry_symlink}
use apb.Proto.Types.{Text, Blob, Payload, error, entry, manifest_end, transfer_done}
use apb.Proto.Payload.{id}
use apb.Util.Paths.{PathError, safe_rel, push}
use apb.Agent.Manifest.{Effect, create_dir_all, create_parent, set_mode, remove_file, make_symlink}
use apb.Agent.Manifest.Inside.{IsInside, Touches, Rooted, safe_rel-Rooted}
use apb.Ctrl.Plans.{FilePlan}
use apb.Ctrl.Pull.{
  PullTarget, PullError, Answers, Arrival, Incoming, payload, hung_up, other, recv_before,
}
use apb.Ctrl.Pull.Listing.{
  Manifest, Walked, more, ended, failed, take_dir, take_link, take_file, take_kind, take_entry,
  take_payload, take_incoming, take_arrival, walk_on, take_manifest,
}

-- The files have their places as numbers, and no path leaves the root.
pub record IsManifest (root : Text) (s : Manifest) : Type 0 where
  pub ordered :
      (i : ℕ) (t : PullTarget)
      → get_elem? s.files i ≡ some t
      → (t.seq ≡ i) × (t.plan ≡ FilePlan.whole) × IsInside root t.dest
  pub inside : All (Touches root) s.effects

abbrev pub Walks : Text → Walked → Type 0
Walks root (more s) = IsManifest root s
Walks root (ended s) = IsManifest root s
Walks root (failed s e) = IsManifest root s

module _ (root : Text) where
  add_effect-IsManifest :
      (s : Manifest) (e : Effect)
      → Touches root e
      → IsManifest root s
      → IsManifest root (record s { effects = s.effects ++ e ∷ [] })
  add_effect-IsManifest s e h k = record {
    ordered = k.ordered;
    inside = All-append (Touches root) s.effects (e ∷ []) k.inside (h, tt);
  }

  Walks-if :
      (c : Bool) (x y : Walked) → Walks root x → Walks root y → Walks root (if c then x else y)
  Walks-if true x y h k = h
  Walks-if false x y h k = k

  take_file-Walks :
      (dest : Text) (seq size mode : ℕ) (sha : Blob) (s : Manifest)
      → IsInside root dest
      → IsManifest root s
      → Walks root (take_file dest seq size mode sha s)
  unfolding take_file
  take_file-Walks dest seq size mode sha s j h = elim (Bool-cases (seq == length s.files)) [
    | inr e ↦ rw e h
    | inl e ↦
        let n : seq ≡ length s.files = ground arith in
        rw e (record {
          ordered = λ i t q. elim (get_elem?-last s.files _ i t q) [
            | inl old ↦ h.ordered i t old
            | inr (k, p) ↦ (
              ap (λ y. y.seq) p ∙ n ∙ sym k,
              ap (λ y. y.plan) p,
              subst (λ y. IsInside root y.dest) (sym p) j,
            )
          ];
          inside = h.inside;
        })
  ]

  take_dir-Walks :
      (dest : Text) (mode : ℕ) (a : Answers) (s : Manifest)
      → IsInside root dest
      → IsManifest root s
      → Walks root (take_dir dest mode a s)
  unfolding take_dir
  take_dir-Walks dest mode a s j h =
      let made = add_effect-IsManifest s (create_dir_all dest) j h in
      Walks-if a.mkdir_ok _ _ (add_effect-IsManifest _ (set_mode dest mode) j made) made

  take_link-Walks :
      (dest target : Text) (a : Answers) (s : Manifest)
      → IsInside root dest
      → IsManifest root s
      → Walks root (take_link dest target a s)
  unfolding take_link
  take_link-Walks dest target a s j h =
      let cleared = add_effect-IsManifest s (remove_file dest a.remove_ok) j h in
      Walks-if a.symlink_ok _ _ (add_effect-IsManifest _ (make_symlink dest target) j cleared)
        cleared

  take_kind-Walks :
      (dest : Text) (seq kind size mode : ℕ) (target : Text) (sha : Blob) (a : Answers)
      (s : Manifest)
      → IsInside root dest
      → IsManifest root s
      → Walks root (take_kind dest seq kind size mode target sha a s)
  unfolding take_kind
  take_kind-Walks dest seq kind size mode target sha a s j h =
      Walks-if (kind == entry_dir) _ _ (take_dir-Walks dest mode a s j h) (
        Walks-if (kind == entry_symlink) _ _ (take_link-Walks dest target a s j h)
          (Walks-if (kind == entry_file) _ _ (take_file-Walks dest seq size mode sha s j h) h))

  take_entry-Walks :
      (rel : Result PathError Text) (seq kind size mode : ℕ) (target : Text) (sha : Blob)
      (a : Answers) (s : Manifest)
      → Rooted root rel
      → IsManifest root s
      → Walks root (take_entry root rel seq kind size mode target sha a s)
  unfolding take_entry
  take_entry-Walks (err e) seq kind size mode target sha a s j h = h
  take_entry-Walks (ok rel) seq kind size mode target sha a s j h =
      let placed : IsManifest root _ =
        add_effect-IsManifest (record s { final_path = _ }) (create_parent (push root rel)) j
          (record { ordered = h.ordered; inside = h.inside }) in
      Walks-if a.parent_ok _ _
        (take_kind-Walks (push root rel) seq kind size mode target sha a _ (inr j) placed) placed

  take_payload-Walks :
      (p : Payload) (a : Answers) (s : Manifest)
      → IsManifest root s
      → Walks root (take_payload root p a s)
  unfolding take_payload
  take_payload-Walks (entry i seq rel kind size mode target sha) a s h =
      take_entry-Walks (safe_rel rel) seq kind size mode target sha a s (safe_rel-Rooted root rel) h
  take_payload-Walks (manifest_end i files) a s h = h
  take_payload-Walks (transfer_done i success message path bytes sha) a s h = h
  take_payload-Walks (error i code message) a s h = h
  take_payload-Walks p a s h = h

  take_incoming-Walks :
      (job : ℕ) (i : Result PullError Incoming) (a : Answers) (s : Manifest)
      → IsManifest root s
      → Walks root (take_incoming job root i a s)
  unfolding take_incoming
  take_incoming-Walks job (err e) a s h = h
  take_incoming-Walks job (ok (payload p)) a s h =
      Walks-if (id p == job) _ _ (take_payload-Walks p a s h) h
  take_incoming-Walks job (ok hung_up) a s h = h
  take_incoming-Walks job (ok other) a s h = h

  walk_on-Walks :
      (f : Manifest → Walked × List Arrival) (xs : List Arrival) (x : Walked)
      → Walks root x
      → ((s : Manifest) → IsManifest root s → Walks root (f s).0)
      → Walks root (walk_on f xs x).0
  unfolding walk_on
  walk_on-Walks f xs (more s) h k = k s h
  walk_on-Walks f xs (ended s) h k = h
  walk_on-Walks f xs (failed s e) h k = h

  -- Whatever the node sends and whatever the machine answers, from a manifest of which this holds: every
  -- file has its place in the list as its number and is planned as a whole, and its destination, like every
  -- path that the loop makes, removes or changes, is, as a text, the destination of the pull or lies below
  -- it by entries that are neither empty nor `.` nor `..`.
  pub take_manifest-Walks :
      (job : ℕ) (xs : List Arrival) (s : Manifest)
      → IsManifest root s
      → Walks root (take_manifest job root xs s).0
  unfolding take_manifest take_arrival
  take_manifest-Walks job [] s h = h
  take_manifest-Walks job (x ∷ xs) s h =
      walk_on-Walks (take_manifest job root xs) xs (take_arrival job root x s)
        (take_incoming-Walks job (recv_before x.event) x.answers s h) (take_manifest-Walks job xs)
