-- ===== src/Agent/Manifest/Linked.antt =====
-- The manifest loop of `run_push` of src/agent.rs removes files at the paths of links only.
use apb.Prelude.{
  ℕ, ◌≡◌, refl, ◌⊎◌, inl, inr, Bool-cases, Bool, true, false, List, [], ◌∷◌, ◌++◌, ◌==◌, length,
  arith, All, All-append, if◌then◌else◌, Result, ok, err,
}
use apb.Proto.Types.{Text, Blob, Payload, error, mkdir, file_begin, symlink, manifest_end}
use apb.Proto.Payload.{id}
use apb.Util.Paths.{PathError}
use apb.Agent.Types.{Answers, Event, received, cancelled, broken}
use apb.Agent.Manifest.{
  Effect, create_dir_all, create_parent, set_mode, remove_file, make_symlink, Listing, Listed, more,
  ended, stopped, join_rel, refuse, add_dir, add_link, add_file, list_payload, list_event, list_on,
  run_list,
}

-- The event is a `Symlink` of the job at this path.
abbrev pub Links : ℕ → Text → Text → Event → Type 0
Links job root path (received (symlink i rel target mode) a) =
    (i ≡ job) × (join_rel root rel ≡ ok path)
Links job root path _ = ⊥

abbrev pub IsLinked : ℕ → Text → List Event → Text → Type 0
IsLinked job root [] path = ⊥
IsLinked job root (e ∷ es) path = Links job root path e ⊎ IsLinked job root es path

-- What holds of the paths of the removed files.
abbrev pub Clears : (Text → Type 0) → Effect → Type 0
Clears L (remove_file path removed) = L path
Clears L _ = Unit {0}

abbrev pub Cleared : (Text → Type 0) → Listed → Type 0
Cleared L (more s) = All (Clears L) s.effects
Cleared L (ended declared s) = All (Clears L) s.effects
Cleared L (stopped s replies) = All (Clears L) s.effects

module _ (L : Text → Type 0) (job : ℕ) (root : Text) where
  Cleared-if :
      (c : Bool) (x y : Listed) → Cleared L x → Cleared L y → Cleared L (if c then x else y)
  Cleared-if true x y h k = h
  Cleared-if false x y h k = k

  add_dir-Cleared :
      (p : Result PathError Text) (mode : ℕ) (a : Answers) (s : Listing)
      → All (Clears L) s.effects
      → Cleared L (add_dir p mode a s)
  unfolding add_dir refuse
  add_dir-Cleared (err e) mode a s h = h
  add_dir-Cleared (ok dir) mode a s h =
      let made = All-append (Clears L) s.effects (create_dir_all dir ∷ []) h (tt, tt) in
      Cleared-if a.mkdir_ok _ _
        (All-append (Clears L) (s.effects ++ create_dir_all dir ∷ []) (set_mode dir mode ∷ []) made
          (tt, tt))
        made

  add_link-Cleared :
      (p : Result PathError Text) (target : Text) (a : Answers) (s : Listing)
      → ((path : Text) → p ≡ ok path → L path)
      → All (Clears L) s.effects
      → Cleared L (add_link p target a s)
  unfolding add_link refuse
  add_link-Cleared (err e) target a s l h = h
  add_link-Cleared (ok path) target a s l h =
      let clear : List Effect = create_parent path ∷ remove_file path a.remove_ok ∷ [] in
      let cleared = All-append (Clears L) s.effects clear h (tt, (l path refl, tt)) in
      Cleared-if a.symlink_ok _ _
        (All-append (Clears L) (s.effects ++ clear) (make_symlink path target ∷ []) cleared
          (tt, tt))
        cleared

  add_file-Cleared :
      (p : Result PathError Text) (seq size mode : ℕ) (sha : Blob) (a : Answers) (s : Listing)
      → All (Clears L) s.effects
      → Cleared L (add_file p seq size mode sha a s)
  unfolding add_file refuse
  add_file-Cleared (err e) seq size mode sha a s h = h
  add_file-Cleared (ok dest) seq size mode sha a s h =
      Cleared-if a.is_dir _ _ h (Cleared-if (seq == length s.targets) _ _ h h)

  list_payload-Cleared :
      (p : Payload) (a : Answers) (s : Listing)
      → id p ≡ job
      → ((path : Text) → Links job root path (received p a) → L path)
      → All (Clears L) s.effects
      → Cleared L (list_payload root p a s)
  unfolding list_payload id
  list_payload-Cleared (mkdir i rel mode) a s mine l h =
      add_dir-Cleared (join_rel root rel) mode a s h
  list_payload-Cleared (symlink i rel target mode) a s mine l h =
      add_link-Cleared (join_rel root rel) target a s (λ path q. l path (mine, q)) h
  list_payload-Cleared (file_begin i seq rel size mode sha) a s mine l h =
      add_file-Cleared (join_rel root rel) seq size mode sha a s h
  list_payload-Cleared (manifest_end i files) a s mine l h = h
  list_payload-Cleared (error i code message) a s mine l h = h
  list_payload-Cleared p a s mine l h = h

  list_event-Cleared :
      (e : Event) (s : Listing)
      → ((path : Text) → Links job root path e → L path)
      → All (Clears L) s.effects
      → Cleared L (list_event job root e s)
  unfolding list_event
  list_event-Cleared (received p a) s l h = elim (Bool-cases (id p == job)) [
    | inl q ↦ let mine : id p ≡ job = ground arith in rw q (list_payload-Cleared p a s mine l h)
    | inr q ↦ rw q h
  ]
  list_event-Cleared cancelled s l h = h
  list_event-Cleared broken s l h = h

  list_on-Cleared :
      (f : Listing → Listed × List Event) (es : List Event) (x : Listed)
      → Cleared L x
      → ((s : Listing) → All (Clears L) s.effects → Cleared L (f s).0)
      → Cleared L (list_on f es x).0
  unfolding list_on
  list_on-Cleared f es (more s) h k = k s h
  list_on-Cleared f es (ended n s) h k = h
  list_on-Cleared f es (stopped s r) h k = h

  links-Cleared :
      (es : List Event) (s : Listing)
      → ((path : Text) → IsLinked job root es path → L path)
      → All (Clears L) s.effects
      → Cleared L (run_list job root es s).0
  unfolding run_list
  links-Cleared [] s l h = h
  links-Cleared (e ∷ es) s l h =
      list_on-Cleared (run_list job root es) es (list_event job root e s)
        (list_event-Cleared e s (λ path x. l path (inl x)) h)
        (λ s' h'. links-Cleared es s' (λ path x. l path (inr x)) h')

-- Each file that the loop removes is at the path of a `Symlink` of the job.
pub run_list-Cleared :
    (job : ℕ) (root : Text) (es : List Event) (s : Listing)
    → All (Clears (IsLinked job root es)) s.effects
    → Cleared (IsLinked job root es) (run_list job root es s).0
run_list-Cleared job root es s h =
    links-Cleared (IsLinked job root es) job root es s (λ path x. x) h
