-- ===== src/Agent/Manifest/Steps.antt =====
-- What the single payloads of a manifest do in the loop of `run_push` of src/agent.rs, where nothing fails.
use apb.Prelude.{
  ==_refl, if_true, if_false, ℕ, ◌≡◌, refl, ap, ◌∙◌, true, false, List, [], ◌∷◌, ◌++◌, ◌==◌, length,
  arith, ok,
}
use apb.Proto.Types.{Text, Blob, mkdir, file_begin, symlink, manifest_end}
use apb.Proto.Payload.{id}
use apb.Agent.Types.{Plan, Answers, Event, received}
use apb.Agent.Manifest.{
  create_dir_all, create_parent, set_mode, remove_file, make_symlink, Listing, more, ended,
  join_rel, add_dir, add_link, add_file, list_payload, list_event, list_on, run_list,
}

-- The machine makes what the manifest asks for, and no file stands where a directory does.
pub record IsWilling (a : Answers) : Type 0 where
  pub no_dir : a.is_dir ≡ false
  pub makes : a.mkdir_ok ≡ true
  pub links : a.symlink_ok ≡ true

module _ (job : ℕ) (root : Text) (a : Answers) (willing : IsWilling a) where
  pub run_list-step :
      (e : Event) (es : List Event) (s s' : Listing)
      → list_event job root e s ≡ more s'
      → run_list job root (e ∷ es) s ≡ run_list job root es s'
  unfolding run_list list_on
  run_list-step e es s s' h = ap (list_on (run_list job root es) es) h

  pub list_event-mkdir :
      (rel dir : Text) (mode : ℕ) (s : Listing)
      → join_rel root rel ≡ ok dir
      → list_event job root (received (mkdir job rel mode) a) s
        ≡ more (record s {
          effects = (s.effects ++ create_dir_all dir ∷ []) ++ set_mode dir mode ∷ [];
        })
  unfolding list_event id list_payload add_dir
  list_event-mkdir rel dir mode s e = rw (==_refl job, e) (if_true a.mkdir_ok _ _ willing.makes)

  pub list_event-symlink :
      (rel path target : Text) (mode : ℕ) (s : Listing)
      → join_rel root rel ≡ ok path
      → list_event job root (received (symlink job rel target mode) a) s
        ≡ more (record s {
          effects =
              (s.effects ++ create_parent path ∷ remove_file path a.remove_ok ∷ [])
              ++ make_symlink path target ∷ [];
        })
  unfolding list_event id list_payload add_link
  list_event-symlink rel path target mode s e =
      rw (==_refl job, e) (if_true a.symlink_ok _ _ willing.links)

  pub list_event-file :
      (rel dest : Text) (seq size mode : ℕ) (sha : Blob) (s : Listing)
      → join_rel root rel ≡ ok dest
      → seq ≡ length s.targets
      → list_event job root (received (file_begin job seq rel size mode sha) a) s
        ≡ more (record s {
          targets =
              s.targets
              ++ record {
                seq = seq;
                dest = dest;
                size = size;
                mode = mode;
                sha = sha;
                plan = Plan.whole;
                block_size = 0;
                block_count = 0;
              }
                ∷ [];
        })
  unfolding list_event id list_payload add_file
  list_event-file rel dest seq size mode sha s e n =
      let here : (seq == length s.targets) ≡ true = ground arith in
      rw (==_refl job, e)
        (if_false a.is_dir _ _ willing.no_dir ∙ if_true (seq == length s.targets) _ _ here)

  pub run_list-end :
      (files : ℕ) (s : Listing)
      → (run_list job root (received (manifest_end job files) a ∷ []) s).0 ≡ ended files s
  unfolding run_list list_event id list_payload list_on
  run_list-end files s = rw (==_refl job) refl
