-- ===== src/Proto/Frame/Layout.antt =====
-- The wire format of a frame, apart from the encoder: the tag, then the fields one after another.
use mathlib.Core.List.{flatten}
use apb.Prelude.{
  ℕ, ◌%◌, ◌^◌, ◌≡◌, refl, sym, ◌∙◌, List, [], ◌∷◌, ◌++◌, length, append_assoc, append-nil,
}
use apb.Bytes.{be_bytes}
use apb.Proto.Tags.{
  f_hello, f_hello_ok, f_error, f_ping, f_pong, f_relay_req, f_relay_deliver, f_relay_result,
  f_route_cancel, f_list_req, f_list_res,
}
use apb.Proto.Fields.{u8_bytes, len_bytes}
use apb.Proto.Types.{
  PeerInfo, Frame, hello, hello_ok, error, ping, pong, relay_req, relay_deliver, relay_result,
  route_cancel, list_req, list_res,
}
use apb.Proto.Encoder
use apb.Proto.Encoder.{Encoder, ◌▷◌}
use apb.Proto.Frame.{put_peer, put_peers, encode}

unfoldable pub tag : Frame → ℕ
tag (hello _ _ _ _ _ _) = f_hello
tag (hello_ok _) = f_hello_ok
tag (error _ _) = f_error
tag (ping _) = f_ping
tag (pong _) = f_pong
tag (relay_req _ _) = f_relay_req
tag (relay_deliver _ _) = f_relay_deliver
tag (relay_result _ _) = f_relay_result
tag (route_cancel _) = f_route_cancel
tag list_req = f_list_req
tag (list_res _) = f_list_res

unfoldable pub peer_layout : PeerInfo → List (List ℕ)
peer_layout p =
    u8_bytes p.role
    ∷ len_bytes p.name
    ∷ len_bytes p.version
    ∷ len_bytes p.os
    ∷ len_bytes p.arch
    ∷ be_bytes 8 p.connected_at_ms
    ∷ be_bytes 8 p.last_seen_ms
    ∷ []

unfoldable pub peers_bytes : List PeerInfo → List ℕ
peers_bytes [] = []
peers_bytes (p ∷ ps) = flatten (peer_layout p) ++ peers_bytes ps

unfoldable pub layout : Frame → List (List ℕ)
layout (hello role name version os arch pid) =
    (u8_bytes role)
    ∷ (len_bytes name)
    ∷ (len_bytes version)
    ∷ (len_bytes os)
    ∷ (len_bytes arch)
    ∷ (be_bytes 4 pid)
    ∷ []
layout (hello_ok version) = (len_bytes version) ∷ []
layout (error code message) = (be_bytes 2 code) ∷ (len_bytes message) ∷ []
layout (ping nonce) = (be_bytes 8 nonce) ∷ []
layout (pong nonce) = (be_bytes 8 nonce) ∷ []
layout (relay_req target payload) = (len_bytes target) ∷ (len_bytes payload) ∷ []
layout (relay_deliver route payload) = (be_bytes 8 route) ∷ (len_bytes payload) ∷ []
layout (relay_result route payload) = (be_bytes 8 route) ∷ (len_bytes payload) ∷ []
layout (route_cancel route) = (be_bytes 8 route) ∷ []
layout list_req = []
layout (list_res peers) = be_bytes 2 (length peers % 2 ^ 16) ∷ peers_bytes peers ∷ []

put_peers-buf : (ps : List PeerInfo) (e : Encoder) → (put_peers ps e).buf ≡ e.buf ++ peers_bytes ps
unfolding put_peers peers_bytes peer_layout Encoder.u8 Encoder.u64 Encoder.bytes Encoder.str
    u8_bytes len_bytes flatten
put_peers-buf [] e = sym (append-nil e.buf)
put_peers-buf (p ∷ ps) e = put_peers-buf ps (put_peer p e) ∙ simp (append_assoc, append-nil)

-- `encode` writes the tag and then the fields of the frame, each in its own form.
pub encode-layout : (f : Frame) → encode f ≡ tag f ∷ flatten (layout f)
unfolding encode tag layout Encoder.finish Encoder.new Encoder.u8 Encoder.u16 Encoder.u32
    Encoder.u64 Encoder.bytes Encoder.str u8_bytes len_bytes flatten
encode-layout list_req = refl
encode-layout (list_res ps) = put_peers-buf ps _ ∙ simp (append_assoc, append-nil)
encode-layout _ = simp (append_assoc, append-nil)
