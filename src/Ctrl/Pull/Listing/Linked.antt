-- ===== src/Ctrl/Pull/Listing/Linked.antt =====
-- The manifest loop of `pull` of src/ctrl.rs removes files at the paths of links only.
use apb.Prelude.{
  ℕ, ◌≡◌, refl, ◌⊎◌, inl, inr, Bool-cases, Bool, true, false, List, [], ◌∷◌, ◌++◌, ◌==◌, length,
  arith, All, All-append, if◌then◌else◌, Result, ok, err,
}
use apb.Proto.Tags.{entry_dir, entry_file, entry_symlink}
use apb.Proto.Types.{Text, Blob, Payload, error, entry, manifest_end, transfer_done}
use apb.Proto.Payload.{id}
use apb.Util.Paths.{PathError, safe_rel, push}
use apb.Agent.Manifest.{Effect, create_dir_all, create_parent, set_mode, remove_file, make_symlink}
use apb.Agent.Manifest.Linked.{Clears}
use apb.Ctrl.Pull.{PullError, Answers, Arrival, Incoming, payload, hung_up, other, recv_before}
use apb.Ctrl.Pull.Listing.{
  Manifest, Walked, more, ended, failed, take_dir, take_link, take_file, take_kind, take_entry,
  take_payload, take_incoming, take_arrival, walk_on, take_manifest,
}

-- The payload is an `Entry` of the job for a link at this path.
abbrev pub LinksAt : ℕ → Text → Text → Result PullError Incoming → Type 0
LinksAt job root path (ok (payload (entry i seq rel kind size mode target sha))) =
    (i ≡ job) × (kind ≡ entry_symlink) × ((r : Text) × (safe_rel rel ≡ ok r) × (push root r ≡ path))
LinksAt job root path _ = ⊥

abbrev pub Links : ℕ → Text → Text → Arrival → Type 0
Links job root path x = LinksAt job root path (recv_before x.event)

abbrev pub IsLinked : ℕ → Text → List Arrival → Text → Type 0
IsLinked job root [] path = ⊥
IsLinked job root (x ∷ xs) path = Links job root path x ⊎ IsLinked job root xs path

abbrev pub Cleared : (Text → Type 0) → Walked → Type 0
Cleared L (more s) = All (Clears L) s.effects
Cleared L (ended s) = All (Clears L) s.effects
Cleared L (failed s e) = All (Clears L) s.effects

module _ (L : Text → Type 0) (job : ℕ) (root : Text) where
  Cleared-if :
      (c : Bool) (x y : Walked) → Cleared L x → Cleared L y → Cleared L (if c then x else y)
  Cleared-if true x y h k = h
  Cleared-if false x y h k = k

  add_effect-Clears :
      (s : Manifest) (e : Effect)
      → Clears L e
      → All (Clears L) s.effects
      → All (Clears L) (s.effects ++ e ∷ [])
  add_effect-Clears s e c h = All-append (Clears L) s.effects (e ∷ []) h (c, tt)

  take_dir-Cleared :
      (dest : Text) (mode : ℕ) (a : Answers) (s : Manifest)
      → All (Clears L) s.effects
      → Cleared L (take_dir dest mode a s)
  unfolding take_dir
  take_dir-Cleared dest mode a s h =
      let made = add_effect-Clears s (create_dir_all dest) tt h in
      Cleared-if a.mkdir_ok _ _
        (add_effect-Clears (record s { effects = s.effects ++ create_dir_all dest ∷ [] })
          (set_mode dest mode) tt made)
        made

  take_link-Cleared :
      (dest target : Text) (a : Answers) (s : Manifest)
      → L dest
      → All (Clears L) s.effects
      → Cleared L (take_link dest target a s)
  unfolding take_link
  take_link-Cleared dest target a s l h =
      let cleared = add_effect-Clears s (remove_file dest a.remove_ok) l h in
      Cleared-if a.symlink_ok _ _
        (add_effect-Clears (record s { effects = s.effects ++ remove_file dest a.remove_ok ∷ [] })
          (make_symlink dest target) tt cleared)
        cleared

  take_kind-Cleared :
      (dest : Text) (seq kind size mode : ℕ) (target : Text) (sha : Blob) (a : Answers)
      (s : Manifest)
      → (kind ≡ entry_symlink → L dest)
      → All (Clears L) s.effects
      → Cleared L (take_kind dest seq kind size mode target sha a s)
  unfolding take_kind take_file
  take_kind-Cleared dest seq kind size mode target sha a s l h =
      Cleared-if (kind == entry_dir) _ _ (take_dir-Cleared dest mode a s h)
        (elim (Bool-cases (kind == entry_symlink)) [
          | inl q ↦
              let link : kind ≡ entry_symlink = ground arith in
              rw q (take_link-Cleared dest target a s (l link) h)
          | inr q ↦
              rw q
                (Cleared-if (kind == entry_file) _ _ (Cleared-if (seq == length s.files) _ _ h h) h)
        ])

  take_entry-Cleared :
      (rel : Result PathError Text) (seq kind size mode : ℕ) (target : Text) (sha : Blob)
      (a : Answers) (s : Manifest)
      → ((r : Text) → rel ≡ ok r → kind ≡ entry_symlink → L (push root r))
      → All (Clears L) s.effects
      → Cleared L (take_entry root rel seq kind size mode target sha a s)
  unfolding take_entry
  take_entry-Cleared (err e) seq kind size mode target sha a s l h = h
  take_entry-Cleared (ok rel) seq kind size mode target sha a s l h =
      let placed = add_effect-Clears s (create_parent (push root rel)) tt h in
      Cleared-if a.parent_ok _ _
        (take_kind-Cleared (push root rel) seq kind size mode target sha a _ (l rel refl) placed)
        placed

  take_payload-Cleared :
      (p : Payload) (a : Answers) (s : Manifest)
      → id p ≡ job
      → ((path : Text) → LinksAt job root path (ok (payload p)) → L path)
      → All (Clears L) s.effects
      → Cleared L (take_payload root p a s)
  unfolding take_payload id
  take_payload-Cleared (entry i seq rel kind size mode target sha) a s mine l h =
      take_entry-Cleared (safe_rel rel) seq kind size mode target sha a s
        (λ r q k. l (push root r) (mine, k, (r, q, refl))) h
  take_payload-Cleared (manifest_end i files) a s mine l h = h
  take_payload-Cleared (transfer_done i success message path bytes sha) a s mine l h = h
  take_payload-Cleared (error i code message) a s mine l h = h
  take_payload-Cleared p a s mine l h = h

  take_incoming-Cleared :
      (i : Result PullError Incoming) (a : Answers) (s : Manifest)
      → ((path : Text) → LinksAt job root path i → L path)
      → All (Clears L) s.effects
      → Cleared L (take_incoming job root i a s)
  unfolding take_incoming
  take_incoming-Cleared (err e) a s l h = h
  take_incoming-Cleared (ok (payload p)) a s l h = elim (Bool-cases (id p == job)) [
    | inl q ↦ let mine : id p ≡ job = ground arith in rw q (take_payload-Cleared p a s mine l h)
    | inr q ↦ rw q h
  ]
  take_incoming-Cleared (ok hung_up) a s l h = h
  take_incoming-Cleared (ok other) a s l h = h

  walk_on-Cleared :
      (f : Manifest → Walked × List Arrival) (xs : List Arrival) (x : Walked)
      → Cleared L x
      → ((s : Manifest) → All (Clears L) s.effects → Cleared L (f s).0)
      → Cleared L (walk_on f xs x).0
  unfolding walk_on
  walk_on-Cleared f xs (more s) h k = k s h
  walk_on-Cleared f xs (ended s) h k = h
  walk_on-Cleared f xs (failed s e) h k = h

  links-Cleared :
      (xs : List Arrival) (s : Manifest)
      → ((path : Text) → IsLinked job root xs path → L path)
      → All (Clears L) s.effects
      → Cleared L (take_manifest job root xs s).0
  unfolding take_manifest take_arrival
  links-Cleared [] s l h = h
  links-Cleared (x ∷ xs) s l h =
      walk_on-Cleared (take_manifest job root xs) xs (take_arrival job root x s)
        (take_incoming-Cleared (recv_before x.event) x.answers s (λ path y. l path (inl y)) h)
        (λ s' h'. links-Cleared xs s' (λ path y. l path (inr y)) h')

-- Each file that the loop removes is at the path of a link of the job.
pub take_manifest-Cleared :
    (job : ℕ) (root : Text) (xs : List Arrival) (s : Manifest)
    → All (Clears (IsLinked job root xs)) s.effects
    → Cleared (IsLinked job root xs) (take_manifest job root xs s).0
take_manifest-Cleared job root xs s h =
    links-Cleared (IsLinked job root xs) job root xs s (λ path y. y) h
