-- ===== src/Proto/Frame/WellFormed.antt =====
-- The frames that the field types and the limits of the decoder admit.
use apb.Prelude.{◌^◌, ◌<◌, All, length}
use apb.Proto.Fields.{IsU8, IsU16, IsU32, IsU64, IsText, IsBlob}
use apb.Proto.Types.{
  PeerInfo, Frame, hello, hello_ok, error, ping, pong, relay_req, relay_deliver, relay_result,
  route_cancel, list_req, list_res,
}

pub record IsPeer (p : PeerInfo) : Type 0 where
  pub role : IsU8 p.role
  pub name : IsText p.name
  pub version : IsText p.version
  pub os : IsText p.os
  pub arch : IsText p.arch
  pub connected_at_ms : IsU64 p.connected_at_ms
  pub last_seen_ms : IsU64 p.last_seen_ms

abbrev pub IsWellFormed : Frame → Type 0
IsWellFormed (hello role name version os arch pid) =
    IsU8 role × IsText name × IsText version × IsText os × IsText arch × IsU32 pid
IsWellFormed (hello_ok version) = IsText version
IsWellFormed (error code message) = IsU16 code × IsText message
IsWellFormed (ping nonce) = IsU64 nonce
IsWellFormed (pong nonce) = IsU64 nonce
IsWellFormed (relay_req target payload) = IsText target × IsBlob payload
IsWellFormed (relay_deliver route payload) = IsU64 route × IsBlob payload
IsWellFormed (relay_result route payload) = IsU64 route × IsBlob payload
IsWellFormed (route_cancel route) = IsU64 route
IsWellFormed list_req = Unit {0}
IsWellFormed (list_res peers) = All IsPeer peers × (length peers < 2 ^ 16)
