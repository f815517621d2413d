-- ===== src/Proto/Frame.antt =====
-- `Frame` of src/proto.rs: `encode` and `decode`.
pub mod WellFormed
pub mod Layout
pub mod Reads
pub mod RoundTrip
use apb.Prelude.{ℕ, zero, suc, ◌%◌, ◌^◌, List, [], ◌∷◌, length, ◌==◌, if◌then◌else◌, Result}
use apb.Proto.Tags.{
  f_hello, f_hello_ok, f_error, f_ping, f_pong, f_relay_req, f_relay_deliver, f_relay_result,
  f_route_cancel, f_list_req, f_list_res,
}
use apb.Proto.Types.{
  ProtoError, unknown_frame_tag, PeerInfo, Frame, hello, hello_ok, error, ping, pong, relay_req,
  relay_deliver, relay_result, route_cancel, list_req, list_res,
}
use apb.Proto.Encoder
use apb.Proto.Encoder.{
  Encoder, ◌▷◌, u8 as put_u8, u16 as put_u16, u32 as put_u32, u64 as put_u64, bytes as put_bytes,
  str as put_str,
}
use apb.Proto.Decoder.{
  M, ◌>>=◌, pure, fail, run, u8 as get_u8, u16 as get_u16, u32 as get_u32, u64 as get_u64,
  bytes as get_bytes, str as get_str,
}

-- The body of `for p in peers`.
put_peer : PeerInfo → Encoder → Encoder
put_peer p e =
    e
    ▷ put_u8 p.role
    ▷ put_str p.name
    ▷ put_str p.version
    ▷ put_str p.os
    ▷ put_str p.arch
    ▷ put_u64 p.connected_at_ms
    ▷ put_u64 p.last_seen_ms

unfoldable pub put_peers : List PeerInfo → Encoder → Encoder
unfolding put_peer
put_peers [] e = e
put_peers (p ∷ ps) e = put_peers ps (put_peer p e)

unfoldable pub put_frame : Frame → Encoder → Encoder
unfolding put_peers
put_frame (hello role name version os arch pid) e =
    e
    ▷ put_u8 f_hello
    ▷ put_u8 role
    ▷ put_str name
    ▷ put_str version
    ▷ put_str os
    ▷ put_str arch
    ▷ put_u32 pid
put_frame (hello_ok version) e = e ▷ put_u8 f_hello_ok ▷ put_str version
put_frame (error code message) e = e ▷ put_u8 f_error ▷ put_u16 code ▷ put_str message
put_frame (ping nonce) e = e ▷ put_u8 f_ping ▷ put_u64 nonce
put_frame (pong nonce) e = e ▷ put_u8 f_pong ▷ put_u64 nonce
put_frame (relay_req target payload) e = e ▷ put_u8 f_relay_req ▷ put_str target ▷ put_bytes payload
put_frame (relay_deliver route payload) e =
    e ▷ put_u8 f_relay_deliver ▷ put_u64 route ▷ put_bytes payload
put_frame (relay_result route payload) e =
    e ▷ put_u8 f_relay_result ▷ put_u64 route ▷ put_bytes payload
put_frame (route_cancel route) e = e ▷ put_u8 f_route_cancel ▷ put_u64 route
put_frame list_req e = e ▷ put_u8 f_list_req
put_frame (list_res peers) e =
    e ▷ put_u8 f_list_res ▷ put_u16 (length peers % 2 ^ 16) ▷ put_peers peers

unfoldable pub encode : Frame → List ℕ
unfolding put_frame
encode f = Encoder.finish (put_frame f Encoder.new)

unfoldable pub read_peer : M PeerInfo
read_peer = do
  role ← get_u8
  name ← get_str
  version ← get_str
  os ← get_str
  arch ← get_str
  connected_at_ms ← get_u64
  last_seen_ms ← get_u64
  pure (record {
    role = role;
    name = name;
    version = version;
    os = os;
    arch = arch;
    connected_at_ms = connected_at_ms;
    last_seen_ms = last_seen_ms;
  })

-- `for _ in 0..n`, the peers in the order in which they are pushed.
unfoldable pub read_peers : ℕ → M (List PeerInfo)
read_peers zero = pure []
read_peers (suc n) = do p ← read_peer; ps ← read_peers n; pure (p ∷ ps)

unfoldable pub read_frame : ℕ → M Frame
read_frame tag =
    if tag == f_hello
    then (do
      role ← get_u8
      name ← get_str
      version ← get_str
      os ← get_str
      arch ← get_str
      pid ← get_u32
      pure (hello role name version os arch pid))
    else if tag == f_hello_ok
    then (do version ← get_str; pure (hello_ok version))
    else if tag == f_error
    then (do code ← get_u16; message ← get_str; pure (error code message))
    else if tag == f_ping
    then (do nonce ← get_u64; pure (ping nonce))
    else if tag == f_pong
    then (do nonce ← get_u64; pure (pong nonce))
    else if tag == f_relay_req
    then (do target ← get_str; payload ← get_bytes; pure (relay_req target payload))
    else if tag == f_relay_deliver
    then (do route ← get_u64; payload ← get_bytes; pure (relay_deliver route payload))
    else if tag == f_relay_result
    then (do route ← get_u64; payload ← get_bytes; pure (relay_result route payload))
    else if tag == f_route_cancel
    then (do route ← get_u64; pure (route_cancel route))
    else if tag == f_list_req
    then (do pure list_req)
    else if tag == f_list_res
    then (do n ← get_u16; peers ← read_peers n; pure (list_res peers))
    else fail (unknown_frame_tag tag)

unfoldable pub decode : List ℕ → Result ProtoError Frame
unfolding read_frame read_peers read_peer
decode buf = run (do tag ← get_u8; read_frame tag) buf
