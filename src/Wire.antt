-- ===== src/Wire.antt =====
-- include/server_ctrl.h and include/server_db.h: a request as it was read, and a response.
-- A pointer that may be NULL is an `Option`; the union of the payloads is a data type.
use bsle.Prelude.{ℕ, Option, none, Bytes, codes}
use bsle.Server.{RetCode}
use bsle.FileApi.{FileContent}

-- `std_payload_t`
pub record StdPayload : Type 0 where
  pub path_len : ℕ
  pub path : Option Bytes
  pub byte_stream : Option Bytes
  pub hash_stream : Option Bytes
  pub byte_stream_len : ℕ

-- `user_payload_t`
pub record UserPayload : Type 0 where
  pub user_flag : ℕ
  pub user_perm : ℕ
  pub username_len : ℕ
  pub username : Option Bytes
  pub passwd_len : ℕ
  pub passwd : Option Bytes

pub data Payload : Type 0 where
  no_payload : Payload
  std_payload : StdPayload → Payload
  user_payload : UserPayload → Payload

-- `wire_payload_t`
pub record WirePayload : Type 0 where
  pub opt_code : ℕ
  pub user_flag : ℕ
  pub username_len : ℕ
  pub passwd_len : ℕ
  pub session_id : ℕ
  pub username : Option Bytes
  pub passwd : Option Bytes
  pub payload_len : ℕ
  pub payload : Payload

-- `act_resp_t`
pub record ActResp : Type 0 where
  pub msg : Bytes
  pub result : RetCode
  pub content : Option FileContent

-- The messages of src/server/server_ctrl.c.
unfoldable pub get_err_msg : RetCode → Bytes
get_err_msg RetCode.op_success = codes "Server action was successful"
get_err_msg RetCode.op_session_error = codes "Provided Session ID was invalid or expired"
get_err_msg RetCode.op_permission_error =
    codes
      "User associated with provided Session ID has insufficient permissions to perform the action"
get_err_msg RetCode.op_user_exists = codes "User could not be created because it already exists"
get_err_msg RetCode.op_file_exists = codes "File could not be created because it already exists"
get_err_msg RetCode.op_cred_rule_error =
    codes
      "Username must be between 3 and 20 characters and password must be between 6 and 32 characters"
get_err_msg RetCode.op_user_auth = codes "Either username or password is incorrect"
get_err_msg RetCode.op_dir_not_empty = codes "Directory is not empty, cannot remove"
get_err_msg RetCode.op_resolve_error =
    codes
      "Path could not be resolved. This could be because it does not exist, or the path does not resolve within the home directory of the server"
get_err_msg RetCode.op_path_not_dir = codes "Path provided is not of type directory."
get_err_msg RetCode.op_path_not_file = codes "Path provided is not of type regular file."
get_err_msg RetCode.op_dir_exists = codes "Directory could not be created because it already exists"
get_err_msg RetCode.op_sock_closed =
    codes "Network socket is closed, cannot read or send anymore data"
get_err_msg RetCode.op_user_no_exist = codes "User could not be removed because they do not exist"
get_err_msg RetCode.op_file_empty = codes "File requested exists but it is empty"
get_err_msg RetCode.op_dir_empty = codes "Directory requested exists but it is empty"
get_err_msg RetCode.op_io_error =
    codes
      "I/O error occurred during the action. This could be due to permissions, file not existing, or error while writing and reading."
get_err_msg RetCode.op_failure = codes "Server action failed"

-- `set_resp`: the message and the code, and no content.
abbrev pub set_resp : RetCode → ActResp
set_resp code = record { msg = get_err_msg code; result = code; content = none }
