-- ===== src/Agent/Manifest/Cleared.antt =====
-- The files that make room for links, in the manifest loops of src/agent.rs and src/ctrl.rs.
use mathlib.Core.Path.{subst}
use apb.Prelude.{
  ◌≡◌, refl, sym, ap, ◌∙◌, ◌⊎◌, inl, inr, Bool-cases, none, true, false, List, [], ◌∷◌, All,
}
use apb.Proto.Types.{Text}
use apb.Delta.Produce.{bytes_eq}
use apb.Delta.Produce.Match.{bytes_eq-eq}
use apb.Agent.Types.{Store}
use apb.Agent.Data.{put}
use apb.Agent.Manifest.{
  Effect, create_dir_all, create_parent, set_mode, remove_file, make_symlink, effect_on, effects_on,
}

abbrev pub IsRemoved : List Effect → Text → Type 0
IsRemoved [] path = ⊥
IsRemoved (e ∷ es) path = (e ≡ remove_file path true) ⊎ IsRemoved es path

-- What holds of the removals holds of the one of this path.
pub All-IsRemoved :
    (P : Effect → Type 0) (es : List Effect) (path : Text)
    → All P es
    → IsRemoved es path
    → P (remove_file path true)
All-IsRemoved P [] path h r = elim r [ ]
All-IsRemoved P (e ∷ es) path (here, h) (inl q) = subst P q here
All-IsRemoved P (e ∷ es) path (here, h) (inr r) = All-IsRemoved P es path h r

effect_on-IsRemoved :
    (e : Effect) (files : Store) (path : Text)
    → (effect_on e files path ≡ files path)
      ⊎ ((effect_on e files path ≡ none) × (e ≡ remove_file path true))
unfolding effect_on put
effect_on-IsRemoved (create_dir_all p) files path = inl refl
effect_on-IsRemoved (create_parent p) files path = inl refl
effect_on-IsRemoved (set_mode p mode) files path = inl refl
effect_on-IsRemoved (make_symlink p target) files path = inl refl
effect_on-IsRemoved (remove_file p false) files path = inl refl
effect_on-IsRemoved (remove_file p true) files path = elim (Bool-cases (bytes_eq path p)) [
  | inl q ↦ rw q (inr (refl, ap (λ x. remove_file x true) (sym (bytes_eq-eq path p q))))
  | inr q ↦ rw q (inl refl)
]

-- A path has its old file, or none where it was removed.
pub effects_on-IsRemoved :
    (es : List Effect) (files : Store) (path : Text)
    → (effects_on es files path ≡ files path)
      ⊎ ((effects_on es files path ≡ none) × IsRemoved es path)
unfolding effects_on
effects_on-IsRemoved [] files path = inl refl
effects_on-IsRemoved (e ∷ es) files path = elim (effects_on-IsRemoved es (effect_on e files) path) [
  | inr (gone, r) ↦ inr (gone, inr r)
  | inl same ↦ elim (effect_on-IsRemoved e files path) [
    | inl kept ↦ inl (same ∙ kept)
    | inr (gone, q) ↦ inr (same ∙ gone, inl q)
  ]
]
