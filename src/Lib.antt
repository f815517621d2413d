-- ===== src/Lib.antt =====
-- apb: a relay between agents and controllers that runs commands and transfers files.
--
-- A controller and the agents connect to a server (src/server.rs), which relays opaque payloads between
-- them on numbered routes. The messages are those of src/proto.rs: a frame between a peer and the
-- server, and inside it a payload between a controller and an agent. A file that the receiver has in
-- an older version goes over as a delta (src/delta.rs): the receiver signs the blocks of its base file,
-- the sender slides a window over the source, looks the window up in the index of the signatures and
-- sends copies of base ranges and literal bytes.
--
-- Files:
--   Prelude, Bytes: shared names, tests into Bool, lists, results, 32-bit signed words, big-endian bytes.
--   Proto: src/proto.rs. `Encoder` and `Decoder` are records with a buffer; a read is a function from a
--     decoder to a result, `>>=` is `?`. `Frame.encode`, `Frame.decode`, `Payload.encode`,
--     `Payload.decode`, `Payload.peek_id` and `Payload.is_final` are the functions of these names. The
--     children hold the proofs: Layout (the fields of a message as bytes), Reads (a read takes exactly
--     those bytes), Ensures (what holds of every value that is read), Extends (a read does not look
--     behind what it takes).
--   Delta: src/delta.rs. Blocks (constants, `choose_block_size`, `worth_delta`), Rolling, Sink (the output
--     side of `produce_delta`: `pending`, `copy`, the statistics, and the operations that the callback
--     gets), Signatures (`SigSet::scan` and `encode`, `SigIndex::new`), Produce (the loop of
--     `produce_delta`, with its invariant in Produce/Invariant and Produce/Advance), Sync (the sender's part as
--     a whole), Writer (`FileWriter`), Transfer (a delta up to the receiver's file).
--   Util: src/util.rs. Text and Paths have what the source uses of `str` and `std::path`, on the UTF-8
--     bytes of a text; Hex, Base64, Key and Json are the functions of these names.
--   Agent: `run_push` of src/agent.rs in its phases. Manifest lists the files, and what is done to
--     directories, to links and to files that make room for links; Plans answers what is wanted of each
--     file, Data takes the files into a `FileWriter`, Push is the whole handler. Arrivals is
--     `next_payload`; an event is what it returns, with what the machine answers while it is handled.
--     Pull is `run_pull` behind its manifest: Pull/Reads the plans that it reads, Pull/Sending the files
--     that it sends. Workers is `reader_loop`, with the threads of its jobs as steps.
--   Wire: src/wire.rs. Framing has `Inner::send` and `Inner::recv`, Queue the threads of a `Conn` as steps.
--   Ctrl: src/ctrl.rs. Push has the manifest and the files that `push` sends and how it waits for the node, Plans
--     is `read_push_plans`, which reads the frames of Agent/Plans. Pull is `pull` in its phases: Listing
--     takes the manifest, Planning is `plan_pull_files`, Data takes the files into a `FileWriter`, Whole
--     is the function as a whole. Pull/Transfer puts the sending node and the receiving controller together,
--     Push/Transfer the sending controller and the receiving node.
--   Server: src/server.rs. `State` has the maps and counters of the source and the bytes that each
--     connection took; a handler is a function from a state to a state, called with one frame.
--     Server/Relay is `relay_to_agent`, Server/Handlers the loops of `handle_connection` and what cleans
--     up after them, Server/Routes the agreement of the two maps and the server as a step relation.
--   Examples, and those of Server, Util, Agent, Ctrl and Wire: the models on concrete inputs.
--
-- Bounds: words wrap where they are written `% 2 ^ w`. `produce_delta` runs on `2 * n + 2` rounds for a
-- source of `n` bytes, which is enough since every round lowers a measure that starts at `2 * n + 1`.
-- `scan` runs on one round more than the file has bytes, `append` on as many rounds as it has bytes.
-- `copy_from_base`, `trim` and `chunks` take a byte at least in a round, so they run on the length.
--
-- Not modelled: the sockets, the handshake and the cipher of src/wire.rs; in src/agent.rs the commands
-- and the walk over a directory; in src/ctrl.rs the session, the walk over local files and the printing;
-- the command line; threads that interleave inside one handler. A connection that has refused a frame is
-- taken to refuse those behind it. SHA-256 is a parameter. Errors of reads, of writes to a temporary file
-- and of the callback of `produce_delta` end a run and are left out. A temporary file's name is taken to
-- be no destination's; it is pending until the code renames it or calls `remove_file` on it,
-- whatever that call returns. Paths are texts: links are not followed. The texts of error messages
-- are values that name their kind.
pub mod Prelude
pub mod Bytes
pub mod Proto
pub mod Delta
pub mod Server
pub mod Examples
pub mod Agent
pub mod Ctrl
pub mod Util
pub mod Wire
