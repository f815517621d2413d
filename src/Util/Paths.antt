-- ===== src/Util/Paths.antt =====
-- `safe_rel` of src/util.rs, with what it uses of `std::path` on Unix: `Path::components` and `PathBuf::push`.
pub mod Entries
use mathlib.Core.Path.{subst}
use apb.Prelude.{
  ℕ, ◌≡◌, ◌≢◌, refl, ap, ◌∙◌, Bool, true, false, ◌||◌, List, [], ◌∷◌, ◌++◌, append-nil,
  append_assoc, arith, All, ◌==◌, if◌then◌else◌, Bool-cases, inl, inr, Result, ok, err, and_then,
  codes,
}
use apb.Proto.Types.{Text}
use apb.Delta.Produce.{bytes_eq}

pub data PathError : Type 0 where
  absolute_path : PathError
  unsafe_path : PathError
  empty_path : PathError

pub data Component : Type 0 where
  root_dir : Component
  cur_dir : Component
  parent_dir : Component
  normal : Text → Component

cons_first : ℕ → List Text → List Text
cons_first c [] = (c ∷ []) ∷ []
cons_first c (s ∷ ss) = (c ∷ s) ∷ ss

-- The text between the separators.
unfoldable pub split : Text → List Text
unfolding cons_first
split [] = [] ∷ []
split (c ∷ s) = let rest = split s in if c == b'/' then [] ∷ rest else cons_first c rest

abbrev pub is_absolute : Text → Bool
is_absolute [] = false
is_absolute (c ∷ s) = c == b'/'

-- Empty parts and `.` are left out, except for a `.` at the beginning of a relative path.
component : (first : Bool) → Text → List Component
component first s =
    if bytes_eq s []
    then []
    else if bytes_eq s (codes ".")
    then (if first then cur_dir ∷ [] else [])
    else if bytes_eq s (codes "..")
    then parent_dir ∷ []
    else normal s ∷ []

components_from : Bool → List Text → List Component
unfolding component
components_from first [] = []
components_from first (s ∷ ss) = component first s ++ components_from false ss

unfoldable pub components : Text → List Component
unfolding components_from
components p =
    if is_absolute p
    then root_dir ∷ components_from false (split p)
    else components_from true (split p)

ends_with_separator : Text → Bool
ends_with_separator [] = false
ends_with_separator (c ∷ []) = c == b'/'
ends_with_separator (c ∷ (d ∷ s)) = ends_with_separator (d ∷ s)

-- `PathBuf::push` of a path that is not absolute.
unfoldable pub push : Text → Text → Text
unfolding ends_with_separator
push [] x = x
push (c ∷ s) x = if ends_with_separator (c ∷ s) then (c ∷ s) ++ x else (c ∷ s) ++ b'/' ∷ x

unfoldable pub push_components : Text → List Component → Result PathError Text
unfolding push
push_components out [] = ok out
push_components out (normal x ∷ cs) = push_components (push out x) cs
push_components out (cur_dir ∷ cs) = push_components out cs
push_components out (parent_dir ∷ cs) = err unsafe_path
push_components out (root_dir ∷ cs) = err unsafe_path

nonempty : Text → Result PathError Text
nonempty out = if bytes_eq out [] then err empty_path else ok out

unfoldable pub safe_rel : Text → Result PathError Text
unfolding components push_components nonempty
safe_rel rel =
    if is_absolute rel
    then err absolute_path
    else and_then (push_components [] (components rel)) nonempty

-- The specification: the parts that name an entry of the directory they are in, and the part `..`.
unfoldable pub is_entry : Text → Bool
is_entry s =
    if bytes_eq s []
    then false
    else if bytes_eq s (codes ".")
    then false
    else if bytes_eq s (codes "..")
    then false
    else true

unfoldable pub entries : List Text → List Text
entries [] = []
entries (s ∷ ss) = if is_entry s then s ∷ entries ss else entries ss

unfoldable pub has_parent : List Text → Bool
has_parent [] = false
has_parent (s ∷ ss) = bytes_eq s (codes "..") || has_parent ss

abbrev pub Answer : Text → Result PathError Text → Type 0
Answer rel (ok out) =
    (is_absolute rel ≡ false)
    × (has_parent (split rel) ≡ false)
    × (entries (split rel) ≢ [])
    × (split out ≡ entries (split rel))
Answer rel (err absolute_path) = is_absolute rel ≡ true
Answer rel (err unsafe_path) = has_parent (split rel) ≡ true
Answer rel (err empty_path) = entries (split rel) ≡ []
