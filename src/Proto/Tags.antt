-- ===== src/Proto/Tags.antt =====
-- The tags and limits of src/proto.rs.
use apb.Prelude.{ℕ, ◌*◌, ◌^◌}

abbrev pub f_hello : ℕ
f_hello = 1

abbrev pub f_hello_ok : ℕ
f_hello_ok = 2

abbrev pub f_error : ℕ
f_error = 3

abbrev pub f_ping : ℕ
f_ping = 4

abbrev pub f_pong : ℕ
f_pong = 5

abbrev pub f_relay_req : ℕ
f_relay_req = 6

abbrev pub f_relay_deliver : ℕ
f_relay_deliver = 7

abbrev pub f_relay_result : ℕ
f_relay_result = 8

abbrev pub f_route_cancel : ℕ
f_route_cancel = 9

abbrev pub f_list_req : ℕ
f_list_req = 10

abbrev pub f_list_res : ℕ
f_list_res = 11

abbrev pub role_agent : ℕ
role_agent = 1

abbrev pub role_ctrl : ℕ
role_ctrl = 2

abbrev pub op_exec : ℕ
op_exec = 1

abbrev pub op_exec_out : ℕ
op_exec_out = 2

abbrev pub op_exec_end : ℕ
op_exec_end = 3

abbrev pub op_error : ℕ
op_error = 4

abbrev pub op_push_begin : ℕ
op_push_begin = 10

abbrev pub op_push_ready : ℕ
op_push_ready = 11

abbrev pub op_mkdir : ℕ
op_mkdir = 12

abbrev pub op_file_begin : ℕ
op_file_begin = 13

abbrev pub op_data : ℕ
op_data = 14

abbrev pub op_file_end : ℕ
op_file_end = 15

abbrev pub op_symlink : ℕ
op_symlink = 16

abbrev pub op_push_end : ℕ
op_push_end = 17

abbrev pub op_transfer_done : ℕ
op_transfer_done = 18

abbrev pub op_manifest_end : ℕ
op_manifest_end = 19

abbrev pub op_pull_begin : ℕ
op_pull_begin = 20

abbrev pub op_entry : ℕ
op_entry = 21

abbrev pub op_file_plan : ℕ
op_file_plan = 22

abbrev pub op_file_sigs : ℕ
op_file_sigs = 23

abbrev pub op_copy : ℕ
op_copy = 24

abbrev pub op_file_start : ℕ
op_file_start = 25

abbrev pub op_plan_end : ℕ
op_plan_end = 26

abbrev pub plan_send : ℕ
plan_send = 0

abbrev pub plan_skip : ℕ
plan_skip = 1

abbrev pub plan_delta : ℕ
plan_delta = 2

abbrev pub op_shutdown : ℕ
op_shutdown = 30

abbrev pub op_bye : ℕ
op_bye = 31

abbrev pub entry_dir : ℕ
entry_dir = 0

abbrev pub entry_file : ℕ
entry_file = 1

abbrev pub entry_symlink : ℕ
entry_symlink = 2

abbrev pub max_str : ℕ
max_str = 2 ^ 20

abbrev pub max_blob : ℕ
max_blob = 16 * 2 ^ 20
