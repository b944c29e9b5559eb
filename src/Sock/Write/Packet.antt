-- ===== src/Sock/Write/Packet.antt =====
-- The header and the message of a response of src/server/server_sock.c.
use bsle.Prelude.{◌<◌, ◌≤◌, ◌+◌, arith, length}
use bsle.Server.{RetCode, max_msg_size}
use bsle.Wire.{get_err_msg}
use bsle.Sock.Write.{get_base_resp_size}

-- The length of every message fits into the one byte that the header has for it, and the header and
-- the message together fit into one call of `write`.
pub get_err_msg_fits :
    (code : RetCode)
    → (length (get_err_msg code) < 256)
      × (get_base_resp_size + length (get_err_msg code) ≤ max_msg_size)
unfolding get_err_msg get_base_resp_size
get_err_msg_fits RetCode.op_success = (omega arith, omega arith)
get_err_msg_fits RetCode.op_session_error = (omega arith, omega arith)
get_err_msg_fits RetCode.op_permission_error = (omega arith, omega arith)
get_err_msg_fits RetCode.op_user_exists = (omega arith, omega arith)
get_err_msg_fits RetCode.op_file_exists = (omega arith, omega arith)
get_err_msg_fits RetCode.op_cred_rule_error = (omega arith, omega arith)
get_err_msg_fits RetCode.op_user_auth = (omega arith, omega arith)
get_err_msg_fits RetCode.op_dir_not_empty = (omega arith, omega arith)
get_err_msg_fits RetCode.op_resolve_error = (omega arith, omega arith)
get_err_msg_fits RetCode.op_path_not_dir = (omega arith, omega arith)
get_err_msg_fits RetCode.op_path_not_file = (omega arith, omega arith)
get_err_msg_fits RetCode.op_dir_exists = (omega arith, omega arith)
get_err_msg_fits RetCode.op_sock_closed = (omega arith, omega arith)
get_err_msg_fits RetCode.op_user_no_exist = (omega arith, omega arith)
get_err_msg_fits RetCode.op_file_empty = (omega arith, omega arith)
get_err_msg_fits RetCode.op_dir_empty = (omega arith, omega arith)
get_err_msg_fits RetCode.op_io_error = (omega arith, omega arith)
get_err_msg_fits RetCode.op_failure = (omega arith, omega arith)
