-- ===== src/Util/Paths/Entries.antt =====
-- What `safe_rel` of src/util.rs makes of the parts of a path.
use mathlib.Core.Path.{subst}
use apb.Prelude.{
  ℕ, ◌≡◌, refl, ap, ◌∙◌, Bool, true, false, List, [], ◌∷◌, ◌++◌, append-nil, append_assoc, arith,
  All, ◌==◌, if◌then◌else◌, Bool-cases, inl, inr, Result, ok, err, and_then, codes,
}
use apb.Proto.Types.{Text}
use apb.Delta.Produce.{bytes_eq}
use apb.Util.Paths.{
  PathError, unsafe_path, cur_dir, cons_first, split, is_absolute, component, components_from,
  components, ends_with_separator, push, push_components, nonempty, safe_rel, is_entry, entries,
  has_parent, Answer,
}

-- A text with no separator.
free : Text → Bool
free [] = true
free (c ∷ s) = if c == b'/' then false else free s

split_cons : (s : Text) → (h : Text) × (t : List Text) × (split s ≡ h ∷ t)
unfolding split cons_first
split_cons [] = ([], [], refl)
split_cons (c ∷ s) = elim (Bool-cases (c == b'/')) [
  | inl e ↦ ([], split s, rw e refl)
  | inr e ↦ let (h, t, q) = split_cons s in (c ∷ h, t, rw (e, q) refl)
]

split-append : (a b : Text) → split (a ++ b'/' ∷ b) ≡ split a ++ split b
unfolding split cons_first
split-append [] b = refl
split-append (c ∷ a) b = elim (Bool-cases (c == b'/')) [
  | inl e ↦ rw e (ap (λ t. [] ∷ t) (split-append a b))
  | inr e ↦ let (h, t, q) = split_cons a in rw (e, split-append a b, q) refl
]

split-free : (x : Text) → free x ≡ true → split x ≡ x ∷ []
unfolding split cons_first free
split-free [] h = refl
split-free (c ∷ x) h = elim (Bool-cases (c == b'/')) [
  | inl e ↦ absurd (ground arith)
  | inr e ↦ rw (e, split-free x (ground arith)) refl
]

All-free : (s : Text) → All (λ x. free x ≡ true) (split s)
unfolding split cons_first free
All-free [] = (refl, tt)
All-free (c ∷ s) = elim (Bool-cases (c == b'/')) [
  | inl e ↦ rw e (refl, All-free s)
  | inr e ↦
      let (h, t, q) = split_cons s in
      let (fh, ft) = subst (All (λ x. free x ≡ true)) q (All-free s) in rw (e, q) (rw e fh, ft)
]

ends-free : (x : Text) → free x ≡ true → ends_with_separator x ≡ false
unfolding ends_with_separator free
ends-free [] h = refl
ends-free (c ∷ []) h = ground arith
ends-free (c ∷ (d ∷ x)) h = ends-free (d ∷ x) (ground arith)

ends-append :
    (a : Text) (c d : ℕ) (x : Text)
    → ends_with_separator (a ++ c ∷ d ∷ x) ≡ ends_with_separator (d ∷ x)
unfolding ends_with_separator
ends-append [] c d x = refl
ends-append (e ∷ []) c d x = refl
ends-append (e ∷ (f ∷ a)) c d x = ends-append (f ∷ a) c d x

-- The parts of the path that is built.
Shows : Text → List Text → Type 0
Shows [] es = es ≡ []
Shows (c ∷ s) es = (split (c ∷ s) ≡ es) × (ends_with_separator (c ∷ s) ≡ false)

push-Shows :
    (out x : Text) (es : List Text)
    → is_entry x ≡ true
    → free x ≡ true
    → Shows out es
    → Shows (push out x) (es ++ x ∷ [])
unfolding push Shows is_entry
push-Shows out [] es n f h = cc
push-Shows [] (d ∷ x) es n f h = rw h (split-free (d ∷ x) f, ends-free (d ∷ x) f)
push-Shows (c ∷ s) (d ∷ x) es n f (parts, ends) =
    rw (ends, push)
      (
        split-append (c ∷ s) (d ∷ x) ∙ rw (parts, split-free (d ∷ x) f) refl,
        ends-append (c ∷ s) b'/' d x ∙ ends-free (d ∷ x) f,
      )

empty_not_parent : (s : Text) → bytes_eq s [] ≡ true → bytes_eq s (codes "..") ≡ false
empty_not_parent [] h = refl
empty_not_parent (c ∷ s) h = cc

dot_not_parent : (s : Text) → bytes_eq s (codes ".") ≡ true → bytes_eq s (codes "..") ≡ false
dot_not_parent [] h = cc
dot_not_parent (c ∷ []) h = ground arith
dot_not_parent (c ∷ (d ∷ s)) h = ground arith

Pushed : List Text → List Text → Result PathError Text → Type 0
Pushed es ss (ok out) = (has_parent ss ≡ false) × Shows out (es ++ entries ss)
Pushed es ss (err e) = (e ≡ unsafe_path) × (has_parent ss ≡ true)

add_entry :
    (es : List Text) (s : Text) (ss : List Text) (r : Result PathError Text)
    → is_entry s ≡ true
    → bytes_eq s (codes "..") ≡ false
    → Pushed (es ++ s ∷ []) ss r
    → Pushed es (s ∷ ss) r
unfolding Pushed has_parent entries
add_entry es s ss (ok out) n p (h, k) =
    (rw p h, rw n (subst (Shows out) (append_assoc es (s ∷ []) (entries ss)) k))
add_entry es s ss (err e) n p (h, k) = (h, rw p k)

add_other :
    (es : List Text) (s : Text) (ss : List Text) (r : Result PathError Text)
    → is_entry s ≡ false
    → bytes_eq s (codes "..") ≡ false
    → Pushed es ss r
    → Pushed es (s ∷ ss) r
unfolding Pushed has_parent entries
add_other es s ss (ok out) n p (h, k) = (rw p h, rw n k)
add_other es s ss (err e) n p (h, k) = (h, rw p k)

push_components-Pushed :
    (first : Bool) (ss : List Text) (out : Text) (es : List Text)
    → All (λ x. free x ≡ true) ss
    → Shows out es
    → Pushed es ss (push_components out (components_from first ss))
unfolding push_components components_from component Pushed has_parent entries is_entry
push_components-Pushed first [] out es f h = (refl, rw (append-nil es) h)
push_components-Pushed first (s ∷ ss) out es (f, fs) h = elim (Bool-cases (bytes_eq s [])) [
  | inl e ↦
      let other : is_entry s ≡ false = rw e refl in
      rw (e, push_components, components_from)
        (add_other es s ss _ other (empty_not_parent s e)
          (push_components-Pushed false ss out es fs h))
  | inr e ↦ elim (Bool-cases (bytes_eq s (codes "."))) [
    | inl d ↦
        let other : is_entry s ≡ false = rw (e, d) refl in
        let rest =
          add_other es s ss _ other (dot_not_parent s d)
            (push_components-Pushed false ss out es fs h) in
        rw (e, d, push_components, components_from)
          (elim first
            as (λ k. Pushed es (s ∷ ss) (
              push_components out ((if k then cur_dir ∷ [] else []) ++ components_from false ss))) [
                | true ↦ rest
                | false ↦ rest
              ])
    | inr d ↦ elim (Bool-cases (bytes_eq s (codes ".."))) [
      | inl p ↦ rw (e, d, p, push_components) (refl, rw (p, has_parent) refl)
      | inr p ↦
          let entry : is_entry s ≡ true = rw (e, d, p) refl in
          let rest =
            push_components-Pushed false ss (push out s) (es ++ s ∷ []) fs
              (push-Shows out s es entry f h) in
          rw (e, d, p, push_components, components_from) (add_entry es s ss _ entry p rest)
    ]
  ]
]

answer :
    (rel : Text) (r : Result PathError Text)
    → is_absolute rel ≡ false
    → Pushed [] (split rel) r
    → Answer rel (and_then r nonempty)
unfolding Pushed nonempty Shows
answer rel (ok []) a (p, h) = h
answer rel (ok (c ∷ out)) a (p, (h, k)) =
    let (part, parts, q) = split_cons (c ∷ out) in (a, p, (λ empty. cc), h)
answer rel (err e) a (q, p) = rw q p

-- For every text, `safe_rel` refuses an absolute path, a path with a part `..` and a path with no entry,
-- and from any other path it makes the one with the same entries in the same order and no other part.
pub safe_rel-Answer : (rel : Text) → Answer rel (safe_rel rel)
unfolding safe_rel components
safe_rel-Answer rel = elim (Bool-cases (is_absolute rel)) [
  | inl a ↦ rw a a
  | inr a ↦ rw a (
      answer rel _ a
        (push_components-Pushed true (split rel) [] [] (All-free rel) (unfold Shows in refl)))
]
