-- ===== src/Server.antt =====
-- include/server.h: the limits, the field sizes of the wire headers, the codes and the account.
-- An enum that is read from the wire holds whatever byte arrived, so operations, user actions and
-- permissions are numbers; a return code is made by the server alone and is a data type.
use bsle.Prelude.{ℕ, Bytes}

abbrev pub max_username_len : ℕ
max_username_len = 20

abbrev pub sha256_digest_len : ℕ
sha256_digest_len = 64

-- The enum `server_defaults_t`.
abbrev pub min_port : ℕ
min_port = 1025

abbrev pub max_port : ℕ
max_port = 0xFFFF

abbrev pub min_username_len : ℕ
min_username_len = 3

abbrev pub min_passwd_len : ℕ
min_passwd_len = 6

abbrev pub max_passwd_len : ℕ
max_passwd_len = 32

abbrev pub max_msg_size : ℕ
max_msg_size = 2048

abbrev pub max_file_size : ℕ
max_file_size = 1016

abbrev pub default_port : ℕ
default_port = 31337

abbrev pub default_timeout : ℕ
default_timeout = 60

abbrev pub max_timeout : ℕ
max_timeout = 300

-- The digest size of OpenSSL's SHA-256, in bytes.
abbrev pub sha256_digest_length : ℕ
sha256_digest_length = 32

-- The enum `ret_codes_t`.
pub data RetCode : Type 0 where
  op_success op_session_error op_permission_error op_user_exists op_file_exists : RetCode
  op_cred_rule_error op_user_auth op_dir_not_empty op_resolve_error op_path_not_dir : RetCode
  op_path_not_file op_dir_exists op_sock_closed op_user_no_exist op_file_empty : RetCode
  op_dir_empty op_io_error op_failure : RetCode

pub ret_code : RetCode → ℕ
ret_code op_success = 1
ret_code op_session_error = 2
ret_code op_permission_error = 3
ret_code op_user_exists = 4
ret_code op_file_exists = 5
ret_code op_cred_rule_error = 6
ret_code op_user_auth = 7
ret_code op_dir_not_empty = 8
ret_code op_resolve_error = 9
ret_code op_path_not_dir = 10
ret_code op_path_not_file = 11
ret_code op_dir_exists = 12
ret_code op_sock_closed = 13
ret_code op_user_no_exist = 14
ret_code op_file_empty = 15
ret_code op_dir_empty = 16
ret_code op_io_error = 254
ret_code op_failure = 255

-- The enum `act_t`.
abbrev pub act_user_operation : ℕ
act_user_operation = 1

abbrev pub act_delete_remote_file : ℕ
act_delete_remote_file = 2

abbrev pub act_list_remote_directory : ℕ
act_list_remote_directory = 3

abbrev pub act_get_remote_file : ℕ
act_get_remote_file = 4

abbrev pub act_make_remote_directory : ℕ
act_make_remote_directory = 5

abbrev pub act_put_remote_file : ℕ
act_put_remote_file = 6

abbrev pub act_local_operation : ℕ
act_local_operation = 7

-- The enum `usr_act_t`.
abbrev pub usr_act_create_user : ℕ
usr_act_create_user = 10

abbrev pub usr_act_delete_user : ℕ
usr_act_delete_user = 20

-- The enum `perms_t`.
abbrev pub perm_read : ℕ
perm_read = 1

abbrev pub perm_read_write : ℕ
perm_read_write = 2

abbrev pub perm_admin : ℕ
perm_admin = 3

-- `hash_t`: a size and the array that it describes.
pub record Hash : Type 0 where
  pub size : ℕ
  pub array : Bytes

pub record UserAccount : Type 0 where
  pub username : Bytes
  pub permission : ℕ
  pub hash : Hash
