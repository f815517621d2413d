-- ===== src/Ctrl/Push/Listed.antt =====
-- The manifest of `push` of src/ctrl.rs in the loop of `run_push` of src/agent.rs.
use mathlib.Core.Path.{subst}
use apb.Prelude.{
  ℕ, suc, ◌+◌, ◌≡◌, refl, sym, ap, ◌∙◌, true, List, [], ◌∷◌, ◌++◌, append-nil, append_assoc, ◌==◌,
  length, length-append, map, map-append, arith, All, Result, ok, err,
}
use apb.Proto.Types.{Text, Payload, manifest_end}
use apb.Util.Paths.{PathError}
use apb.Agent.Types.{Plan, PushTarget, Answers, Event, received}
use apb.Agent.Manifest.{Effect, Listing, Listed, ended, join_rel, run_list, check_count}
use apb.Agent.Manifest.Steps.{
  IsWilling, run_list-step, list_event-mkdir, list_event-symlink, list_event-file, run_list-end,
}
use apb.Agent.Push.{nothing_listed}
use apb.Ctrl.Push.{
  ManifestFile, Link, Manifest, dir_frame, link_frame, begin_frame, manifest_frames,
}

dest_of : Result PathError Text → Text
dest_of (ok dest) = dest
dest_of (err e) = []

-- What the node makes of a file of the manifest.
unfoldable pub target_of : Text → ManifestFile → PushTarget
unfolding dest_of
target_of root f = record {
  seq = f.seq;
  dest = dest_of (join_rel root f.rel);
  size = f.size;
  mode = f.mode;
  sha = f.sha;
  plan = Plan.whole;
  block_size = 0;
  block_count = 0;
}

-- The node takes the path.
abbrev pub IsJoined : Text → Text → Type 0
IsJoined root rel = (dest : Text) × (join_rel root rel ≡ ok dest)

-- `build_manifest` numbers the files in their order.
abbrev pub AreNumbered : ℕ → List ManifestFile → Type 0
AreNumbered n [] = Unit {0}
AreNumbered n (f ∷ fs) = (f.seq ≡ n) × AreNumbered (n + 1) fs

pub record IsAccepted (root : Text) (m : Manifest) : Type 0 where
  pub dirs : All (λ (d : Text × ℕ). IsJoined root d.0) m.dirs
  pub links : All (λ (l : Link). IsJoined root l.rel) m.links
  pub files : All (λ (f : ManifestFile). IsJoined root f.rel) m.files
  pub numbered : AreNumbered 0 m.files

-- The frames as the node receives them.
abbrev pub events : Answers → List Payload → List Event
events a ps = map (λ p. received p a) ps

module _ (job : ℕ) (root : Text) (a : Answers) (willing : IsWilling a) where
  -- The rest of the loop, with other effects.
  abbrev Goes : List Event → List Event → Listing → Type 0
  Goes es rest s =
      (effects : List Effect) × (run_list job root es s
        ≡ run_list job root rest (record s { effects = effects }))

  dirs-Goes :
      (ds : List (Text × ℕ)) (rest : List Event) (s : Listing)
      → All (λ (d : Text × ℕ). IsJoined root d.0) ds
      → Goes (events a (map (dir_frame job) ds) ++ rest) rest s
  unfolding dir_frame
  dirs-Goes [] rest s h = (s.effects, refl)
  dirs-Goes ((rel, mode) ∷ ds) rest s ((dir, e), h) =
      let (effects, q) = dirs-Goes ds rest _ h in
      (
        effects,
        run_list-step job root a willing _ _ s _
              (list_event-mkdir job root a willing rel dir mode s e)
            ∙ q,
      )

  links-Goes :
      (ls : List Link) (rest : List Event) (s : Listing)
      → All (λ (l : Link). IsJoined root l.rel) ls
      → Goes (events a (map (link_frame job) ls) ++ rest) rest s
  unfolding link_frame
  links-Goes [] rest s h = (s.effects, refl)
  links-Goes (l ∷ ls) rest s ((path, e), h) =
      let (effects, q) = links-Goes ls rest _ h in
      (
        effects,
        run_list-step job root a willing _ _ s _
              (list_event-symlink job root a willing l.rel path l.target l.mode s e)
            ∙ q,
      )

  files_listed :
      (fs : List ManifestFile) (rest : List Event) (s : Listing)
      → All (λ (f : ManifestFile). IsJoined root f.rel) fs
      → AreNumbered (length s.targets) fs
      → run_list job root (events a (map (begin_frame job) fs) ++ rest) s
        ≡ run_list job root rest (record s { targets = s.targets ++ map (target_of root) fs })
  unfolding begin_frame
  files_listed [] rest s h n =
      ap (λ ts. run_list job root rest (record { targets = ts; effects = s.effects }))
        (sym (append-nil s.targets))
  files_listed (f ∷ fs) rest s ((dest, e), h) (here, n) =
      let t : PushTarget = record {
        seq = f.seq;
        dest = dest;
        size = f.size;
        mode = f.mode;
        sha = f.sha;
        plan = Plan.whole;
        block_size = 0;
        block_count = 0;
      } in
      let grown : length (s.targets ++ t ∷ []) ≡ length s.targets + 1 =
        length-append s.targets (t ∷ []) in
      let it : t ≡ target_of root f =
        unfold target_of in (unfold dest_of in ap (λ d. record t { dest = dest_of d }) (sym e)) in
      run_list-step job root a willing _ _ s (record s { targets = s.targets ++ t ∷ [] })
        (list_event-file job root a willing f.rel dest f.seq f.size f.mode f.sha s e here)
      ∙ files_listed fs rest (record s { targets = s.targets ++ t ∷ [] }) h
          (subst (λ k. AreNumbered k fs) (sym grown) n)
      ∙ ap (λ ts. run_list job root rest (record { targets = ts; effects = s.effects }))
          (append_assoc s.targets (t ∷ []) (map (target_of root) fs)
            ∙ ap (λ x. s.targets ++ x ∷ map (target_of root) fs) it)

  check_count-equal :
      (n : ℕ) (s : Listing) → n ≡ length s.targets → check_count (ended n s) ≡ ended n s
  unfolding check_count
  check_count-equal n s e = let here : (n == length s.targets) ≡ true = ground arith in rw here refl

  length-map : {A B : Type 0} (f : A → B) (xs : List A) → length (map f xs) ≡ length xs
  length-map f [] = refl
  length-map f (x ∷ xs) = ap suc (length-map f xs)

  -- If the node takes the paths of the manifest, its machine makes the directories and links and no
  -- directory stands at the path of a file, and the files are numbered in their order, then the frames that
  -- the controller sends for its manifest end the loop of the node with exactly the files of the
  -- manifest as targets, in their order, each with its number, its path below the root, its size, mode and
  -- hash, and planned as a whole; and the node accepts their number.
  pub manifest_frames-ended :
      (m : Manifest)
      → IsAccepted root m
      → (effects : List Effect) × (check_count
            (run_list job root (events a (manifest_frames job m)) nothing_listed).0
          ≡ ended
              (length m.files)
              (record { targets = map (target_of root) m.files; effects = effects }))
  unfolding manifest_frames
  manifest_frames-ended m h =
      let get = λ (p : Payload). received p a in
      let last : List Payload = manifest_end job (length m.files) ∷ [] in
      let begins = map (begin_frame job) m.files in
      let links = map (link_frame job) m.links in
      let dirs = map (dir_frame job) m.dirs in
      let parts : events a (dirs ++ (links ++ (begins ++ last)))
          ≡ events a dirs ++ (events a links ++ (events a begins ++ events a last)) =
        map-append get dirs (links ++ (begins ++ last))
        ∙ ap (λ l. events a dirs ++ l)
            (map-append get links (begins ++ last)
              ∙ ap (λ l. events a links ++ l) (map-append get begins last)) in
      let (made, p) =
        dirs-Goes m.dirs (events a links ++ (events a begins ++ events a last)) nothing_listed
          h.dirs in
      let (linked, q) =
        links-Goes m.links (events a begins ++ events a last)
          (record { targets = []; effects = made }) h.links in
      let listed : Listing = record { targets = map (target_of root) m.files; effects = linked } in
      (
        linked,
        ap (λ l. check_count (run_list job root l nothing_listed).0) parts
            ∙ ap (λ (x : Listed × List Event). check_count x.0)
                (p
                  ∙ q
                  ∙ files_listed m.files (events a last) (record { targets = []; effects = linked })
                      h.files h.numbered)
            ∙ ap check_count (run_list-end job root a willing (length m.files) listed)
            ∙ check_count-equal (length m.files) listed (sym (length-map (target_of root) m.files)),
      )
