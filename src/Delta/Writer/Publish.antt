-- ===== src/Delta/Writer/Publish.antt =====
-- The end of a `FileWriter` of src/delta.rs: the file appears as a whole, or the destination stays.
use apb.Prelude.{
  ℕ, ◌≡◌, refl, ◌∙◌, ◌⊎◌, inl, inr, some, true, false, Bool-cases, ◌||◌, List, [], ◌∷◌, arith,
  length, ◌==◌, Result, ok, err,
}
use apb.Delta.Produce.{bytes_eq}
use apb.Delta.Produce.Match.{bytes_eq-eq}
use apb.Delta.Writer.{FileWriter, Disk, Files, FinishError, abort, all_zero, publish, finish}
use apb.Delta.Writer.Bounds.{IsWriter}

bytes_eq_refl : (xs : List ℕ) → bytes_eq xs xs ≡ true
bytes_eq_refl [] = refl
bytes_eq_refl (x ∷ xs) = ground (arith, bytes_eq_refl xs)

-- A success has put the file in its place, with the expected size and, if one was given, the expected
-- hash; a failure has left the destination as it was. In both cases no temporary file is pending.
abbrev pub Finished :
    (List ℕ → List ℕ) → List ℕ → FileWriter → Files → Result FinishError ℕ × Files → Type 0
Finished sha256 expected_sha w f (ok n, f') =
    (f' ≡ record { dest = some w.written; tmp = false })
    × (n ≡ w.expected)
    × (length w.written ≡ w.expected)
    × ((all_zero expected_sha ≡ true) ⊎ (sha256 w.written ≡ expected_sha))
Finished sha256 expected_sha w f (err e, f') = f' ≡ record { dest = f.dest; tmp = false }

module _ (sha256 : List ℕ → List ℕ) (expected_sha : List ℕ) (w : FileWriter) (f : Files) where
  hash_ok :
      w.hashed ≡ w.written
      → (all_zero expected_sha || bytes_eq (sha256 w.hashed) expected_sha) ≡ true
      → (all_zero expected_sha ≡ true) ⊎ (sha256 w.written ≡ expected_sha)
  hash_ok same e = elim (Bool-cases (all_zero expected_sha)) [
    | inl z ↦ inl z
    | inr z ↦ inr (bytes_eq-eq (sha256 w.written) expected_sha (rw (← same) (rw z at e)))
  ]

  publish-Finished :
      (disk : Disk)
      → length w.written ≡ w.expected
      → w.received ≡ w.expected
      → (all_zero expected_sha ≡ true) ⊎ (sha256 w.written ≡ expected_sha)
      → Finished sha256 expected_sha w f (publish disk w f)
  unfolding publish abort
  publish-Finished disk size got hash = elim (Bool-cases disk.sync_ok) [
    | inr e ↦ rw e refl
    | inl e ↦ elim (Bool-cases disk.chmod_ok) [
      | inr e' ↦ rw (e, e') refl
      | inl e' ↦ elim (Bool-cases disk.rename_ok) [
        | inr e'' ↦ rw (e, e', e'') refl
        | inl e'' ↦ rw (e, e', e'') (refl, got, size, hash)
      ]
    ]
  ]

  -- Whatever the system answers, `finish` of such a writer either puts the whole file in its place,
  -- with the expected size and, unless the given hash is all zero, that hash, or it leaves the
  -- destination as it was; no temporary file is pending (made, and neither renamed nor given to
  -- `remove_file`).
  pub finish-Finished :
      (disk : Disk)
      → IsWriter w
      → Finished sha256 expected_sha w f (finish sha256 disk expected_sha w f)
  unfolding finish abort
  finish-Finished disk h = elim (Bool-cases (w.received == w.expected)) [
    | inr e ↦ rw e refl
    | inl e ↦
        let got : w.received ≡ w.expected = ground arith in
        elim (Bool-cases (all_zero expected_sha || bytes_eq (sha256 w.hashed) expected_sha)) [
          | inr d ↦ rw (e, d) refl
          | inl d ↦ rw (e, d) (publish-Finished disk (h.counted ∙ got) got (hash_ok h.same d))
        ]
  ]

  -- A file of the expected size and hash is published if the system does its part.
  pub finish_published :
      (disk : Disk)
      → disk.sync_ok ≡ true
      → disk.chmod_ok ≡ true
      → disk.rename_ok ≡ true
      → w.received ≡ w.expected
      → sha256 w.hashed ≡ expected_sha
      → finish sha256 disk expected_sha w f
        ≡ (ok w.received, record { dest = some w.written; tmp = false })
  unfolding finish publish
  finish_published disk s c r got hash =
      let sized : (w.received == w.expected) ≡ true = ground arith in
      let equal : bytes_eq (sha256 w.hashed) expected_sha ≡ true =
        rw hash (bytes_eq_refl expected_sha) in
      elim (Bool-cases (all_zero expected_sha)) [
        | inl z ↦ rw (sized, z, s, c, r) refl
        | inr z ↦ rw (sized, z, equal, s, c, r) refl
      ]
