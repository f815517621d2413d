-- ===== src/Proto/Types.antt =====
-- The messages of src/proto.rs. A `String` is its UTF-8 bytes, a `Vec<u8>` its bytes.
use apb.Prelude.{ℕ, Bool, List}
use apb.Prelude.Signed.{ℤ}

-- Each message of a `ProtoError`, with the values that it prints.
pub data ProtoError : Type 0 where
  truncated : (at need have : ℕ) → ProtoError
  blob_too_large : ℕ → ProtoError
  string_too_large : ℕ → ProtoError
  invalid_utf8 : ProtoError
  trailing : ℕ → ProtoError
  unknown_frame_tag : ℕ → ProtoError
  unknown_payload_op : ℕ → ProtoError

abbrev pub Text : Type 0
Text = List ℕ

abbrev pub Blob : Type 0
Blob = List ℕ

pub record PeerInfo : Type 0 where
  pub role : ℕ
  pub name : Text
  pub version : Text
  pub os : Text
  pub arch : Text
  pub connected_at_ms : ℕ
  pub last_seen_ms : ℕ

pub data Frame : Type 0 where
  hello : (role : ℕ) (name version os arch : Text) (pid : ℕ) → Frame
  hello_ok : (version : Text) → Frame
  error : (code : ℕ) (message : Text) → Frame
  ping : (nonce : ℕ) → Frame
  pong : (nonce : ℕ) → Frame
  relay_req : (target : Text) (payload : Blob) → Frame
  relay_deliver : (route : ℕ) (payload : Blob) → Frame
  relay_result : (route : ℕ) (payload : Blob) → Frame
  route_cancel : (route : ℕ) → Frame
  list_req : Frame
  list_res : (peers : List PeerInfo) → Frame

pub data Payload : Type 0 where
  exec : (id timeout_secs : ℕ) (cwd : Text) (raw : Bool) (command : Text) → Payload
  exec_out : (id stream : ℕ) (bytes : Blob) → Payload
  exec_end : (id : ℕ) (rc : ℤ) (timed_out : Bool) (reason : Text) → Payload
  error : (id code : ℕ) (message : Text) → Payload
  push_begin :
      (id : ℕ) (remote_path source_name : Text) (source_is_dir : Bool)
      (source_files source_bytes : ℕ)
      → Payload
  push_ready : (id : ℕ) (remote_root : Text) → Payload
  mkdir : (id : ℕ) (rel : Text) (mode : ℕ) → Payload
  file_begin : (id seq : ℕ) (rel : Text) (size mode : ℕ) (sha256 : Blob) → Payload
  chunk : (id : ℕ) (bytes : Blob) → Payload
  file_end : (id : ℕ) (sha256 : Blob) → Payload
  symlink : (id : ℕ) (rel target : Text) (mode : ℕ) → Payload
  push_end : (id : ℕ) → Payload
  transfer_done :
      (id : ℕ) (success : Bool) (message remote_path : Text) (bytes : ℕ) (sha256 : Blob) → Payload
  manifest_end : (id files : ℕ) → Payload
  pull_begin : (id : ℕ) (remote_path : Text) → Payload
  entry :
      (id seq : ℕ) (rel : Text) (kind size mode : ℕ) (link_target : Text) (sha256 : Blob) → Payload
  file_plan : (id seq action block_size block_count : ℕ) → Payload
  file_sigs : (id seq first : ℕ) (sigs : Blob) → Payload
  plan_end : (id : ℕ) → Payload
  file_start : (id seq : ℕ) → Payload
  copy : (id start len : ℕ) → Payload
  shutdown : (id : ℕ) (reason : Text) → Payload
  bye : (id : ℕ) (code : ℤ) (reason : Text) → Payload
