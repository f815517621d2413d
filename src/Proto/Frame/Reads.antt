-- ===== src/Proto/Frame/Reads.antt =====
-- `read_frame` of a tag reads the fields that the wire format gives it.
use mathlib.Core.List.{flatten}
use mathlib.Core.Path.{subst}
use native.Mathlib.Nat.{mod-eq_of_lt}
use apb.Prelude.{ℕ, ◌%◌, ◌^◌, ◌<◌, List, [], ◌∷◌, length, All, append-nil}
use apb.Bytes.{be_bytes}
use apb.Proto.Types.{
  PeerInfo, Frame, hello, hello_ok, error, ping, pong, relay_req, relay_deliver, relay_result,
  route_cancel, list_req, list_res,
}
use apb.Proto.Fields.{Reads-byte, Reads-text, Reads-blob}
use apb.Proto.Decoder.{◌>>=◌, pure, u16}
use apb.Proto.Decoder.Reads.{Reads, Reads-bind, Reads-pure, Reads-u16, Reads-u32, Reads-u64}
use apb.Proto.Frame.{read_peer, read_peers, read_frame}
use apb.Proto.Frame.WellFormed.{IsPeer, IsWellFormed}
use apb.Proto.Frame.Layout.{tag, layout, peer_layout, peers_bytes}

Reads-peer : (p : PeerInfo) → IsPeer p → Reads read_peer (flatten (peer_layout p)) p
unfolding read_peer peer_layout flatten
Reads-peer p h = Reads-bind _ (Reads-byte p.role h.role) (
    Reads-bind _ (Reads-text p.name h.name) (
      Reads-bind _ (Reads-text p.version h.version) (
        Reads-bind _ (Reads-text p.os h.os) (
          Reads-bind _ (Reads-text p.arch h.arch) (
            Reads-bind _ (Reads-u64 p.connected_at_ms h.connected_at_ms)
              (Reads-bind _ (Reads-u64 p.last_seen_ms h.last_seen_ms) (Reads-pure p)))))))

Reads-peers :
    (ps : List PeerInfo) → All IsPeer ps → Reads (read_peers (length ps)) (peers_bytes ps) ps
unfolding read_peers peers_bytes
Reads-peers [] h = Reads-pure []
Reads-peers (p ∷ ps) (hp, hps) = Reads-bind _ (Reads-peer p hp) (
    subst (λ l. Reads (read_peers (length ps) >>= λ qs. pure (p ∷ qs)) l (p ∷ ps)) (append-nil _)
      (Reads-bind _ (Reads-peers ps hps) (Reads-pure (p ∷ ps))))

Reads-count : (n : ℕ) → n < 2 ^ 16 → Reads u16 (be_bytes 2 (n % 2 ^ 16)) n
Reads-count n h = rw (mod-eq_of_lt {n = n} {m = 2 ^ 16} h) (Reads-u16 n h)

pub Reads-frame : (f : Frame) → IsWellFormed f → Reads (read_frame (tag f)) (flatten (layout f)) f
unfolding read_frame tag layout flatten
Reads-frame (hello role name version os arch pid) (h1, h2, h3, h4, h5, h6) =
    Reads-bind _ (Reads-byte role h1) (
      Reads-bind _ (Reads-text name h2) (
        Reads-bind _ (Reads-text version h3) (
          Reads-bind _ (Reads-text os h4)
            (Reads-bind _ (Reads-text arch h5) (Reads-bind _ (Reads-u32 pid h6) (Reads-pure _))))))
Reads-frame (hello_ok version) h1 = Reads-bind _ (Reads-text version h1) (Reads-pure _)
Reads-frame (error code message) (h1, h2) =
    Reads-bind _ (Reads-u16 code h1) (Reads-bind _ (Reads-text message h2) (Reads-pure _))
Reads-frame (ping nonce) h1 = Reads-bind _ (Reads-u64 nonce h1) (Reads-pure _)
Reads-frame (pong nonce) h1 = Reads-bind _ (Reads-u64 nonce h1) (Reads-pure _)
Reads-frame (relay_req target payload) (h1, h2) =
    Reads-bind _ (Reads-text target h1) (Reads-bind _ (Reads-blob payload h2) (Reads-pure _))
Reads-frame (relay_deliver route payload) (h1, h2) =
    Reads-bind _ (Reads-u64 route h1) (Reads-bind _ (Reads-blob payload h2) (Reads-pure _))
Reads-frame (relay_result route payload) (h1, h2) =
    Reads-bind _ (Reads-u64 route h1) (Reads-bind _ (Reads-blob payload h2) (Reads-pure _))
Reads-frame (route_cancel route) h1 = Reads-bind _ (Reads-u64 route h1) (Reads-pure _)
Reads-frame list_req h = Reads-pure _
Reads-frame (list_res ps) (h1, h2) =
    Reads-bind _ (Reads-count (length ps) h2) (Reads-bind _ (Reads-peers ps h1) (Reads-pure _))
