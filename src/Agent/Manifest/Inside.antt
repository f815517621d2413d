-- ===== src/Agent/Manifest/Inside.antt =====
-- What the manifest loop of `run_push` of src/agent.rs keeps: the numbers of the files and the paths it touches.
use mathlib.Core.Path.{subst}
use apb.Prelude.{
  ℕ, ◌≡◌, refl, sym, ap, ◌∙◌, ◌⊎◌, inl, inr, Bool-cases, some, Bool, true, false, List, [], ◌∷◌,
  ◌++◌, ◌==◌, length, get_elem?, get_elem?-last, arith, All, All-append, if◌then◌else◌, Result, ok,
  err, and_then,
}
use apb.Proto.Types.{Text, Blob, Payload, error, mkdir, file_begin, symlink, manifest_end}
use apb.Proto.Payload.{id}
use apb.Util.Paths.{PathError, safe_rel, Answer, push, split, is_entry, entries}
use apb.Util.Paths.Entries.{safe_rel-Answer}
use apb.Agent.Types.{PushTarget, Answers, Event, received, cancelled, broken}
use apb.Agent.Manifest.{
  Effect, create_dir_all, create_parent, set_mode, remove_file, make_symlink, Listing, Listed, more,
  ended, stopped, join_rel, refuse, add_dir, add_link, add_file, list_payload, list_event, list_on,
  run_list,
}

-- A path below the root that is reached by one entry or more, and by entries only.
abbrev pub IsBelow : Text → Text → Type 0
IsBelow root path = (r : Text) × (path ≡ push root r) × All (λ s. is_entry s ≡ true) (split r)

abbrev pub IsInside : Text → Text → Type 0
IsInside root path = (path ≡ root) ⊎ IsBelow root path

-- The parent of a path is the root or below it if the path is below the root.

abbrev pub Touches : Text → Effect → Type 0
Touches root (create_dir_all path) = IsInside root path
Touches root (create_parent path) = IsBelow root path
Touches root (set_mode path mode) = IsInside root path
Touches root (remove_file path removed) = IsInside root path
Touches root (make_symlink path target) = IsInside root path

-- A link at the root itself makes the directory of the root.
abbrev pub Reaches : Text → Effect → Type 0
Reaches root e = Touches root e ⊎ (e ≡ create_parent root)

-- The targets have their places as numbers, and no path leaves the root.
pub record IsListing (root : Text) (s : Listing) : Type 0 where
  pub ordered :
      (i : ℕ) (t : PushTarget) → get_elem? s.targets i ≡ some t → (t.seq ≡ i) × IsInside root t.dest
  pub inside : All (Reaches root) s.effects

abbrev pub Lists : Text → Listed → Type 0
Lists root (more s) = IsListing root s
Lists root (ended declared s) = IsListing root s
Lists root (stopped s replies) = IsListing root s

entries-All : (ss : List Text) → All (λ s. is_entry s ≡ true) (entries ss)
unfolding entries
entries-All [] = tt
entries-All (s ∷ ss) = elim (Bool-cases (is_entry s)) [
  | inl e ↦ rw e (e, entries-All ss)
  | inr e ↦ rw e (entries-All ss)
]

-- What holds of the path below the root, if there is one.
abbrev pub Rooted : Text → Result PathError Text → Type 0
Rooted root (ok rel) = IsBelow root (push root rel)
Rooted root (err e) = Unit {0}

Answer-Rooted : (root rel : Text) (r : Result PathError Text) → Answer rel r → Rooted root r
Answer-Rooted root rel (err e) h = tt
Answer-Rooted root rel (ok out) (a, p, n, q) =
    (out, refl, subst (All (λ s. is_entry s ≡ true)) (sym q) (entries-All (split rel)))

-- A path that `safe_rel` lets through does not leave the root.
pub safe_rel-Rooted : (root rel : Text) → Rooted root (safe_rel rel)
safe_rel-Rooted root rel = Answer-Rooted root rel (safe_rel rel) (safe_rel-Answer rel)

-- What holds of the path, if there is one.
Joined : Text → Result PathError Text → Type 0
Joined root (ok path) = IsInside root path
Joined root (err e) = Unit {0}

push-Joined :
    (root : Text) (r : Result PathError Text)
    → Rooted root r
    → Joined root (and_then r λ x. ok (push root x))
unfolding Joined
push-Joined root (err e) h = tt
push-Joined root (ok out) h = inr h

join_rel-Joined : (root rel : Text) → Joined root (join_rel root rel)
unfolding join_rel Joined
join_rel-Joined root [] = inl refl
join_rel-Joined root (c ∷ rel) =
    push-Joined root (safe_rel (c ∷ rel)) (safe_rel-Rooted root (c ∷ rel))

module _ (root : Text) where
  add_effects-IsListing :
      (s : Listing) (es : List Effect)
      → All (Reaches root) es
      → IsListing root s
      → IsListing root (record s { effects = s.effects ++ es })
  add_effects-IsListing s es h k = record {
    ordered = k.ordered;
    inside = All-append (Reaches root) s.effects es k.inside h;
  }

  Lists-if :
      (c : Bool) (x y : Listed) → Lists root x → Lists root y → Lists root (if c then x else y)
  Lists-if true x y h k = h
  Lists-if false x y h k = k

  add_dir-Lists :
      (p : Result PathError Text) (mode : ℕ) (a : Answers) (s : Listing)
      → Joined root p
      → IsListing root s
      → Lists root (add_dir p mode a s)
  unfolding add_dir refuse Joined
  add_dir-Lists (err e) mode a s j h = h
  add_dir-Lists (ok dir) mode a s j h =
      let made = add_effects-IsListing s (create_dir_all dir ∷ []) (inl j, tt) h in
      Lists-if a.mkdir_ok _ _ (add_effects-IsListing _ (set_mode dir mode ∷ []) (inl j, tt) made)
        made

  IsInside-parent : (path : Text) → IsInside root path → Reaches root (create_parent path)
  IsInside-parent path (inl q) = inr (ap create_parent q)
  IsInside-parent path (inr below) = inl below

  add_link-Lists :
      (p : Result PathError Text) (target : Text) (a : Answers) (s : Listing)
      → Joined root p
      → IsListing root s
      → Lists root (add_link p target a s)
  unfolding add_link refuse Joined
  add_link-Lists (err e) target a s j h = h
  add_link-Lists (ok path) target a s j h =
      let cleared =
        add_effects-IsListing s (create_parent path ∷ remove_file path a.remove_ok ∷ [])
          (IsInside-parent path j, (inl j, tt)) h in
      Lists-if a.symlink_ok _ _
        (add_effects-IsListing _ (make_symlink path target ∷ []) (inl j, tt) cleared) cleared

  add_target-IsListing :
      (s : Listing) (x : PushTarget)
      → x.seq ≡ length s.targets
      → IsInside root x.dest
      → IsListing root s
      → IsListing root (record s { targets = s.targets ++ x ∷ [] })
  add_target-IsListing s x n j h = record {
    ordered = λ i t e. elim (get_elem?-last s.targets x i t e) [
      | inl old ↦ h.ordered i t old
      | inr (k, q) ↦ (ap (λ y. y.seq) q ∙ n ∙ sym k, subst (λ y. IsInside root y.dest) (sym q) j)
    ];
    inside = h.inside;
  }

  add_file-Lists :
      (p : Result PathError Text) (seq size mode : ℕ) (sha : Blob) (a : Answers) (s : Listing)
      → Joined root p
      → IsListing root s
      → Lists root (add_file p seq size mode sha a s)
  unfolding add_file refuse Joined
  add_file-Lists (err e) seq size mode sha a s j h = h
  add_file-Lists (ok dest) seq size mode sha a s j h =
      Lists-if a.is_dir _ _ h (elim (Bool-cases (seq == length s.targets)) [
        | inl e ↦
            let n : seq ≡ length s.targets = ground arith in rw e (add_target-IsListing s _ n j h)
        | inr e ↦ rw e h
      ])

  list_payload-Lists :
      (p : Payload) (a : Answers) (s : Listing)
      → IsListing root s
      → Lists root (list_payload root p a s)
  unfolding list_payload
  list_payload-Lists (mkdir i rel mode) a s h =
      add_dir-Lists (join_rel root rel) mode a s (join_rel-Joined root rel) h
  list_payload-Lists (symlink i rel target mode) a s h =
      add_link-Lists (join_rel root rel) target a s (join_rel-Joined root rel) h
  list_payload-Lists (file_begin i seq rel size mode sha) a s h =
      add_file-Lists (join_rel root rel) seq size mode sha a s (join_rel-Joined root rel) h
  list_payload-Lists (manifest_end i files) a s h = h
  list_payload-Lists (error i code message) a s h = h
  list_payload-Lists p a s h = h

  list_event-Lists :
      (job : ℕ) (e : Event) (s : Listing) → IsListing root s → Lists root (list_event job root e s)
  unfolding list_event
  list_event-Lists job (received p a) s h =
      Lists-if (id p == job) _ _ (list_payload-Lists p a s h) h
  list_event-Lists job cancelled s h = h
  list_event-Lists job broken s h = h

  list_on-Lists :
      (f : Listing → Listed × List Event) (es : List Event) (x : Listed)
      → Lists root x
      → ((s : Listing) → IsListing root s → Lists root (f s).0)
      → Lists root (list_on f es x).0
  unfolding list_on
  list_on-Lists f es (more s) h k = k s h
  list_on-Lists f es (ended n s) h k = h
  list_on-Lists f es (stopped s r) h k = h

  -- Whatever payloads come and whatever the machine answers, from a listing of which this holds: every
  -- target has its place in the list as its number, and the destination of every target, like every path
  -- that the loop makes, removes or changes, is, as a text, the root or lies below it by entries that are
  -- neither empty nor `.` nor `..`; where it makes the directory that a path is in, the path lies below
  -- the root, except that the directory of the root is made for a link at the root itself.
  pub run_list-Lists :
      (job : ℕ) (es : List Event) (s : Listing)
      → IsListing root s
      → Lists root (run_list job root es s).0
  unfolding run_list
  run_list-Lists job [] s h = h
  run_list-Lists job (e ∷ es) s h =
      list_on-Lists (run_list job root es) es (list_event job root e s) (list_event-Lists job e s h)
        (run_list-Lists job es)
