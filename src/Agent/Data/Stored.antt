-- ===== src/Agent/Data/Stored.antt =====
-- What the files of the node and the open file may be, between two payloads of `run_push` of src/agent.rs.
use mathlib.Core.Path.{subst}
use apb.Prelude.{
  ℕ, ◌^◌, ◌<◌, ◌≡◌, refl, sym, ap, ◌∙◌, ◌⊎◌, inl, inr, Bool-cases, Option, none, some, Bool, true,
  false, List, [], ◌∷◌, length, get_elem?,
}
use apb.Proto.Types.{Text, Blob, chunk, file_end}
use apb.Delta.Produce.{bytes_eq}
use apb.Delta.Produce.Match.{bytes_eq-eq}
use apb.Delta.Writer.{all_zero}
use apb.Delta.Writer.Bounds.{IsWriter}
use apb.Agent.Types.{PushTarget, Store, Answers, Event, received}
use apb.Agent.Data.{Open, Outcome, more, done, put}

-- The open file belongs to a target, and a temporary file is pending just while a file is open.
abbrev pub Holds : List PushTarget → Option Open → Bool → Type 0
Holds targets none tmp = tmp ≡ false
Holds targets (some o) tmp =
    (tmp ≡ true)
    × IsWriter o.writer
    × ((t : PushTarget) × (get_elem? targets o.idx ≡ some t)
        × (o.dest ≡ t.dest)
        × (o.writer.expected ≡ t.size))

-- A whole file of a target, with a hash that is not all zero and of which `Claimed` holds.
pub record Delivered (sha256 : List ℕ → List ℕ) (targets : List PushTarget)
    (Claimed : Blob → Type 0) (path : Text) (content : List ℕ) : Type 0 where
  pub target : PushTarget
  pub idx : ℕ
  pub listed : get_elem? targets idx ≡ some target
  pub here : target.dest ≡ path
  pub sized : length content ≡ target.size
  pub claimed : Claimed (sha256 content)
  pub given : all_zero (sha256 content) ≡ false

-- Every path has its old file, or one that was delivered.
abbrev pub Sound : (List ℕ → List ℕ) → List PushTarget → (Blob → Type 0) → Store → Store → Type 0
Sound sha256 targets Claimed old new =
    (path : Text)
    → (new path ≡ old path)
      ⊎ ((content : List ℕ) × (new path ≡ some content)
          × Delivered sha256 targets Claimed path content)

abbrev pub Safe : (List ℕ → List ℕ) → List PushTarget → (Blob → Type 0) → Store → Outcome → Type 0
Safe sha256 targets Claimed old (more r) =
    Holds targets r.current r.tmp × Sound sha256 targets Claimed old r.files
Safe sha256 targets Claimed old (done r replies) =
    (r.current ≡ none) × (r.tmp ≡ false) × Sound sha256 targets Claimed old r.files

-- The event is a `FileEnd` of the job with this hash.
abbrev pub Ends : ℕ → Blob → Event → Type 0
Ends job sha e = (a : Answers) × (e ≡ received (file_end job sha) a)

abbrev pub IsAnnounced : ℕ → List Event → Blob → Type 0
IsAnnounced job [] sha = ⊥
IsAnnounced job (e ∷ es) sha = Ends job sha e ⊎ IsAnnounced job es sha

-- The data of a frame fit in the memory.
abbrev pub IsShort : Event → Type 0
IsShort (received (chunk i bytes) a) = length bytes < 2 ^ 63
IsShort _ = Unit {0}

module _ (sha256 : List ℕ → List ℕ) (targets : List PushTarget) where
  pub Sound-refl :
      {Claimed : Blob → Type 0} (files : Store) → Sound sha256 targets Claimed files files
  Sound-refl files path = inl refl

  Delivered-map :
      (P Q : Blob → Type 0) (path : Text) (content : List ℕ)
      → ((sha : Blob) → P sha → Q sha)
      → Delivered sha256 targets P path content
      → Delivered sha256 targets Q path content
  Delivered-map P Q path content f d = record {
    target = d.target;
    idx = d.idx;
    listed = d.listed;
    here = d.here;
    sized = d.sized;
    claimed = f (sha256 content) d.claimed;
    given = d.given;
  }

  pub Sound-map :
      (P Q : Blob → Type 0) (old new : Store)
      → ((sha : Blob) → P sha → Q sha)
      → Sound sha256 targets P old new
      → Sound sha256 targets Q old new
  Sound-map P Q old new f h path = elim (h path) [
    | inl same ↦ inl same
    | inr (content, e, d) ↦ inr (content, e, Delivered-map P Q path content f d)
  ]

  pub Sound-trans :
      (P Q : Blob → Type 0) (a b c : Store)
      → Sound sha256 targets P a b
      → Sound sha256 targets Q b c
      → Sound sha256 targets (λ sha. P sha ⊎ Q sha) a c
  Sound-trans P Q a b c h k path = elim (k path) [
    | inr (content, e, d) ↦
        inr (content, e, Delivered-map Q (λ sha. P sha ⊎ Q sha) path content (λ s x. inr x) d)
    | inl same ↦ elim (h path) [
      | inl before ↦ inl (same ∙ before)
      | inr (content, e, d) ↦
          inr (
            content,
            same ∙ e,
            Delivered-map P (λ sha. P sha ⊎ Q sha) path content (λ s x. inl x) d,
          )
    ]
  ]

  -- `put` of what stood there changes nothing.
  pub put-Sound :
      (P : Blob → Type 0) (dest : Text) (content : Option (List ℕ)) (files : Store)
      → content ≡ files dest
      → Sound sha256 targets P files (put dest content files)
  unfolding put
  put-Sound P dest content files e path = elim (Bool-cases (bytes_eq path dest)) [
    | inl q ↦ rw q (inl (e ∙ ap files (sym (bytes_eq-eq path dest q))))
    | inr q ↦ rw q (inl refl)
  ]

  pub put-Delivered :
      (P : Blob → Type 0) (dest : Text) (content : List ℕ) (files : Store)
      → Delivered sha256 targets P dest content
      → Sound sha256 targets P files (put dest (some content) files)
  unfolding put
  put-Delivered P dest content files d path = elim (Bool-cases (bytes_eq path dest)) [
    | inl q ↦ rw q (
        inr (
          content,
          refl,
          subst (λ p. Delivered sha256 targets P p content) (sym (bytes_eq-eq path dest q)) d,
        ))
    | inr q ↦ rw q (inl refl)
  ]
