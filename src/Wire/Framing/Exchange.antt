-- ===== src/Wire/Framing/Exchange.antt =====
-- What `Inner::send` of src/wire.rs puts on the wire is what `Inner::recv` reads.
use mathlib.Core.Path.{subst}
use apb.Prelude.{
  ℕ, suc, ◌+◌, ◌%◌, ◌^◌, ◌≤◌, ◌≡◌, refl, ap, ◌∙◌, some, false, List, [], ◌∷◌, ◌++◌, arith, All,
  length, length-append, take-append, drop-append, append_assoc, ltb, ◌==◌, ok, and_then,
}
use apb.Bytes.{be_bytes, from_be, length-be_bytes, from_be-be_bytes}
use apb.Wire.Framing.{
  max_wire, max_plain, Noise, IsNoise, write_u16, read_exact, check_length, read_u16, framed, send,
  opened, recv, send_each, recv_each,
}

read_exact-append : (xs ys : List ℕ) → read_exact (length xs) (xs ++ ys) ≡ ok (xs, ys)
unfolding read_exact
read_exact-append xs ys =
    let enough : ltb (length (xs ++ ys)) (length xs) ≡ false =
      ground (arith, length-append xs ys) in
    rw (enough, take-append xs ys, drop-append xs ys) refl

read_u16-write_u16 :
    (n : ℕ) (rest : List ℕ) → 1 ≤ n → n ≤ max_wire → read_u16 (write_u16 n ++ rest) ≡ ok (n, rest)
unfolding read_u16 write_u16 check_length be_bytes
read_u16-write_u16 n rest low high =
    let two = length-be_bytes 2 (n % 2 ^ 16) in
    let value : from_be (be_bytes 2 (n % 2 ^ 16)) ≡ n =
      from_be-be_bytes 2 (n % 2 ^ 16) ∙ omega arith in
    let whole : (n == 0) ≡ false = ground arith in
    let fits : ltb max_wire n ≡ false = ground arith in
    ap (λ x. and_then x λ (b, left). check_length (from_be b) left)
      (read_exact-append (be_bytes 2 (n % 2 ^ 16)) rest)
    ∙ rw (value, check_length, whole, fits) refl

module _ (N : Noise) (Paired : ℕ → N.Session → N.Session → Type 0) (noise : IsNoise N Paired) where
  recv-framed :
      (ct plain rest : List ℕ) (r r' : N.Session)
      → 1 ≤ length ct
      → length ct ≤ max_wire
      → N.read_message r ct ≡ some (plain, r')
      → recv N r (write_u16 (length ct) ++ (ct ++ rest)) ≡ ok (plain, (r', rest))
  unfolding recv opened
  recv-framed ct plain rest r r' low high got =
      ap
        (λ x. and_then x λ (n, after).
          and_then (read_exact n after) λ (c, left). opened N left (N.read_message r c))
        (read_u16-write_u16 (length ct) (ct ++ rest) low high)
      ∙ ap (λ x. and_then x λ (c, left). opened N left (N.read_message r c))
          (read_exact-append ct rest)
      ∙ ap (opened N rest) got

  -- One frame goes over.
  abbrev pub Passed : ℕ → N.Session → N.Session → List ℕ → Type 0
  Passed left s r plain =
      (bytes : List ℕ) × (s' : N.Session) × (r' : N.Session) × (send N s plain ≡ ok (bytes, s'))
      × ((rest : List ℕ) → recv N r (bytes ++ rest) ≡ ok (plain, (r', rest)))
      × Paired left s' r'

  send-Passed :
      (left : ℕ) (s r : N.Session) (plain : List ℕ)
      → Paired (suc left) s r
      → length plain ≤ max_plain
      → Passed left s r plain
  unfolding send framed recv opened
  send-Passed left s r plain paired short =
      let (ct, s', r', wrote, grown, got, paired') =
        noise.transport left s r plain paired (omega (arith, short)) in
      let fits : ltb max_plain (length plain) ≡ false = ground arith in
      (
        write_u16 (length ct) ++ ct,
        s',
        r',
        rw (fits, wrote) refl,
        (λ rest.
            ap (recv N r) (append_assoc (write_u16 (length ct)) ct rest)
            ∙ recv-framed ct plain rest r r' (omega (arith, grown)) (omega (arith, grown, short))
                got),
        paired',
      )

  -- All frames go over, whatever follows them.
  abbrev pub Exchanged : ℕ → N.Session → N.Session → List (List ℕ) → Type 0
  Exchanged left s r ps =
      (bytes : List ℕ) × (s' : N.Session) × (send_each N s ps ≡ ok (bytes, s'))
      × ((rest : List ℕ) → recv_each N (length ps) r (bytes ++ rest) ≡ ok (ps, rest))

  -- For two sessions that `snow` pairs, with a nonce left for every frame, and frames of at most `MAX_PLAIN`
  -- bytes: all are sent without an error, and whatever follows their bytes, the other side receives
  -- exactly these frames in their order and leaves what follows.
  pub send_each-Exchanged :
      (ps : List (List ℕ)) (left : ℕ) (s r : N.Session)
      → Paired (length ps + left) s r
      → All (λ p. length p ≤ max_plain) ps
      → Exchanged left s r ps
  unfolding send_each recv_each
  send_each-Exchanged [] left s r paired short = ([], s, refl, (λ rest. refl))
  send_each-Exchanged (p ∷ ps) left s r paired (here, short) =
      let one : length (p ∷ ps) + left ≡ suc (length ps + left) = omega arith in
      let (bytes, s', r', sent, got, paired') =
        send-Passed (length ps + left) s r p (subst (λ n. Paired n s r) one paired) here in
      let (more, s'', sent_all, got_all) = send_each-Exchanged ps left s' r' paired' short in
      (
        bytes ++ more,
        s'',
        rw (sent, sent_all) refl,
        (λ rest.
            ap
              (λ x. and_then x λ (q, (r2, rest2)).
                and_then (recv_each N (length ps) r2 rest2) λ (qs, left2). ok (q ∷ qs, left2))
              (ap (recv N r) (append_assoc bytes more rest) ∙ got (more ++ rest))
            ∙ ap (λ x. and_then x λ (qs, left2). ok (p ∷ qs, left2)) (got_all rest)),
      )
