-- ===== src/Ctrl/Pull/Listing/Rest.antt =====
-- What comes behind the manifest of `pull` of src/ctrl.rs.
use apb.Prelude.{ℕ, ◌≡◌, refl, ap, List, [], ◌∷◌, ◌++◌}
use apb.Proto.Types.{Text}
use apb.Ctrl.Pull.{Arrival}
use apb.Ctrl.Pull.Listing.{
  Manifest, Walked, more, ended, failed, take_arrival, walk_on, take_manifest,
}

-- What the manifest leaves is the rest of what comes.
abbrev pub IsRest : List Arrival → List Arrival → Type 0
IsRest xs rest = (before : List Arrival) × (xs ≡ before ++ rest)

walk_on-IsRest :
    (f : Manifest → Walked × List Arrival) (x : Arrival) (xs : List Arrival) (w : Walked)
    → ((s : Manifest) → IsRest xs (f s).1)
    → IsRest (x ∷ xs) (walk_on f xs w).1
unfolding walk_on
walk_on-IsRest f x xs (more s) h = let (before, q) = h s in (x ∷ before, ap (λ l. x ∷ l) q)
walk_on-IsRest f x xs (ended s) h = (x ∷ [], refl)
walk_on-IsRest f x xs (failed s e) h = (x ∷ [], refl)

pub take_manifest-IsRest :
    (job : ℕ) (root : Text) (xs : List Arrival) (s : Manifest)
    → IsRest xs (take_manifest job root xs s).1
unfolding take_manifest
take_manifest-IsRest job root [] s = ([], refl)
take_manifest-IsRest job root (x ∷ xs) s =
    walk_on-IsRest (take_manifest job root xs) x xs (take_arrival job root x s)
      (take_manifest-IsRest job root xs)
