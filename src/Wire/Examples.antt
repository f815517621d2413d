-- ===== src/Wire/Examples.antt =====
-- Runs of the connections of src/wire.rs on concrete inputs.
use apb.Prelude.{
  ℕ, suc, ◌-◌, ◌^◌, ◌<◌, ◌≡◌, refl, ap, some, true, false, List, [], ◌∷◌, ◌++◌, arith, length,
  length-append, take, take-append_of_eq,
}
use apb.Wire.Framing.{Noise, IsNoise}
use apb.Wire.Framing.Exchange.{Exchanged, send_each-Exchanged}
use apb.Wire.Queue.{
  Conn, new, announce, accept, take_message, try_send, settle, announces, accepts, takes, tries,
  settles, Reachable, start, next, flush, fetch_add, fetch_sub, is_open,
}
use apb.Wire.Queue.Drained.{IsConn, Reachable-IsConn, Flushed, Some, under_way, flush-Flushed}

abbrev tag : List ℕ
tag = 0 ∷ 0 ∷ 0 ∷ 0 ∷ 0 ∷ 0 ∷ 0 ∷ 0 ∷ 0 ∷ 0 ∷ 0 ∷ 0 ∷ 0 ∷ 0 ∷ 0 ∷ 0 ∷ []

-- Sessions that count their messages and add a tag.
abbrev tagging : Noise
tagging = record {
  Session = ℕ;
  write_message = λ s plain. some (plain ++ tag, suc s);
  read_message = λ r ct. some (take (length ct - 16) ct, suc r);
}

tagging-IsNoise : IsNoise tagging (λ left s r. s ≡ r)
tagging-IsNoise = record {
  transport = λ left s r plain paired fits.
      let size = length-append plain tag in
      let back : take (length (plain ++ tag) - 16) (plain ++ tag) ≡ plain =
        take-append_of_eq (length (plain ++ tag) - 16) plain tag (omega (arith, size)) in
      (
        plain ++ tag,
        suc s,
        suc r,
        refl,
        omega (arith, size),
        ap (λ x. some (x, suc r)) back,
        ap suc paired,
      );
}

abbrev frames : List (List ℕ)
frames = (1 ∷ 2 ∷ []) ∷ [] ∷ (3 ∷ []) ∷ []

send_each-Exchanged_example : Exchanged tagging (λ left s r. s ≡ r) tagging-IsNoise 5 0 0 frames
send_each-Exchanged_example =
    send_each-Exchanged tagging (λ left s r. s ≡ r) tagging-IsNoise frames 5 0 0 refl
      (omega arith, (omega arith, (omega arith, tt)))

-- One message is taken, and the socket refuses it.
abbrev queued : Conn
queued = accept (7 ∷ []) (announce new)

abbrev lost : Conn
lost = settle (7 ∷ []) false (try_send (7 ∷ []) false (take_message (7 ∷ []) [] queued))

lost-Reachable : Reachable lost
unfolding new announce accept take_message try_send settle is_open
lost-Reachable =
    next _ _
      (next _ _
        (next _ _
          (next _ _ (next _ _ start (announces new))
            (accepts (announce new) (7 ∷ []) 0 refl refl (omega arith)))
          (takes queued (7 ∷ []) [] refl refl))
        (tries (take_message (7 ∷ []) [] queued) (7 ∷ []) false refl))
      (settles (try_send (7 ∷ []) false (take_message (7 ∷ []) [] queued)) (7 ∷ []) false refl)

Reachable-IsConn_example : IsConn lost
Reachable-IsConn_example = Reachable-IsConn lost lost-Reachable

lost_is_flushed : flush (lost ∷ []) ≡ true
unfolding flush new announce accept take_message try_send settle fetch_add fetch_sub
lost_is_flushed = refl

lost_small : under_way lost < 2 ^ 64
unfolding under_way new announce accept take_message try_send settle
lost_small = omega arith

flush-Flushed_example : Some Flushed (lost ∷ [])
unfolding settle try_send take_message accept announce new
flush-Flushed_example =
    flush-Flushed (lost ∷ []) (lost-Reachable, tt) (refl, tt) (lost_small, tt) lost_is_flushed
