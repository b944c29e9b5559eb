-- ===== src/Sock/Read.antt =====
-- `read_client_req` of src/server/server_sock.c, field by field.
pub mod Takes
pub mod Encode
pub mod Payloads
pub mod RoundTrip
use bsle.Prelude.{
  ℕ, Bool, true, false, Option, none, Bytes, Run, ok, fault, stuck, Mem, later, ◌==◌, if◌then◌else◌,
}
use bsle.Server.{RetCode, sha256_digest_length, act_user_operation, act_local_operation}
use bsle.Utils.{le_value, be_value, ntohll}
use bsle.Wire.{StdPayload, UserPayload, Payload, no_payload, std_payload, user_payload, WirePayload}
use bsle.Sock.{
  Conn, read_stream, make_byte_array, user_payload_has_password, std_payload_has_file,
  get_file_stream_size,
}

-- How a part of a request is read: with its value, or with the code that ends the reading.
pub data Reading (A : Type 0) : Type 0 where
  value : A → Conn → Reading A
  failed : RetCode → Conn → Reading A

abbrev pub Reader : Type 0 → Type 0
Reader A = Conn → Run (Reading A)

abbrev pub pure : {A : Type 0} → A → Reader A
pure a conn = ok (value a conn)

infixl 5 ◌>>=◌
abbrev pub ◌>>=◌ : {A B : Type 0} → Reader A → (A → Reader B) → Reader B
◌>>=◌ m f conn = elim (m conn) [
  | ok r ↦ elim r [ value a conn' ↦ f a conn' | failed code conn' ↦ ok (failed code conn') ]
  | fault ↦ fault
  | stuck ↦ stuck
]

abbrev pub fail : {A : Type 0} → RetCode → Reader A
fail code conn = ok (failed code conn)

abbrev of_stream : RetCode × Bytes × Conn → Reading Bytes
of_stream (RetCode.op_success, bytes, conn) = value bytes conn
of_stream (code, bytes, conn) = failed code conn

-- A field of `n` bytes.
pub field : Mem → ℕ → Reader Bytes
field mem n conn = ok (of_stream (read_stream mem conn n))

abbrev of_array : Run (RetCode × Option Bytes × Conn) → Run (Reading (Option Bytes))
of_array (ok (RetCode.op_success, bytes, conn)) = ok (value bytes conn)
of_array (ok (code, bytes, conn)) = ok (failed code conn)
of_array fault = fault
of_array stuck = stuck

-- A field of as many bytes as an earlier one says.
pub array_field : Mem → ℕ → Bool → Reader (Option Bytes)
array_field mem len make_string conn = of_array (make_byte_array mem conn len make_string)

abbrev passwd_part : Mem → ℕ → ℕ → Reader (ℕ × Option Bytes)
passwd_part mem payload_len username_len =
    let given : Reader (ℕ × Option Bytes) = do
      len ← field mem 2
      passwd ← array_field (later 2 mem) (be_value 0 len) true
      pure (be_value 0 len, passwd)
    in if user_payload_has_password payload_len username_len then given else pure (0, none)

-- The first allocation is the payload.
pub read_client_user_payload : Mem → ℕ → Reader UserPayload
unfolding field array_field
read_client_user_payload mem payload_len =
    let fields : Reader UserPayload = do
      flag ← field (later 1 mem) 1
      perm ← field (later 3 mem) 1
      len ← field (later 5 mem) 2
      username ← array_field (later 7 mem) (be_value 0 len) true
      passwd ← passwd_part (later 10 mem) payload_len (be_value 0 len)
      pure (record {
        user_flag = le_value flag;
        user_perm = le_value perm;
        username_len = be_value 0 len;
        username = username;
        passwd_len = passwd.0;
        passwd = passwd.1;
      })
    in if mem 0 then fields else fail RetCode.op_failure

abbrev file_part : Mem → ℕ → ℕ → Reader (Option Bytes × Option Bytes × ℕ)
file_part mem payload_len path_len =
    let size = get_file_stream_size payload_len path_len in
    let given : Reader (Option Bytes × Option Bytes × ℕ) = do
      digest ← array_field mem sha256_digest_length false
      stream ← array_field (later 3 mem) size false
      pure (digest, stream, size)
    in if std_payload_has_file payload_len path_len then given else pure (none, none, 0)

-- The first allocation is the payload.
pub read_client_std_payload : Mem → ℕ → Reader StdPayload
unfolding field array_field
read_client_std_payload mem payload_len =
    let fields : Reader StdPayload = do
      len ← field (later 1 mem) 2
      path ← array_field (later 3 mem) (be_value 0 len) true
      file ← file_part (later 6 mem) payload_len (be_value 0 len)
      pure (record {
        path_len = be_value 0 len;
        path = path;
        byte_stream = file.1;
        hash_stream = file.0;
        byte_stream_len = file.2;
      })
    in if mem 0 then fields else fail RetCode.op_failure

-- The fields up to the session number, in the order of the header.
pub record Ids : Type 0 where
  pub opt_code : ℕ
  pub user_flag : ℕ
  pub username_len : ℕ
  pub passwd_len : ℕ
  pub session_id : ℕ

pub read_ids : Mem → Reader Ids
unfolding field
read_ids mem = do
  opt_code ← field mem 1
  user_flag ← field (later 2 mem) 1
  reserved ← field (later 4 mem) 2
  username_len ← field (later 6 mem) 2
  passwd_len ← field (later 8 mem) 2
  session_id ← field (later 10 mem) 4
  pure (record {
    opt_code = le_value opt_code;
    user_flag = le_value user_flag;
    username_len = be_value 0 username_len;
    passwd_len = be_value 0 passwd_len;
    session_id = be_value 0 session_id;
  })

-- Which payload follows, by the operation.
pub read_payload : Mem → ℕ → ℕ → Reader Payload
unfolding read_client_user_payload read_client_std_payload
read_payload mem opt_code payload_len =
    let user : Reader Payload = do
      p ← read_client_user_payload mem payload_len
      pure (user_payload p)
    in let std : Reader Payload = do
      p ← read_client_std_payload mem payload_len
      pure (std_payload p)
      in if opt_code == act_user_operation
        then user
        else if opt_code == act_local_operation
        then pure no_payload
        else std

-- The rest of the header and the payload.
pub read_rest : Mem → Ids → Reader WirePayload
unfolding field array_field read_payload
read_rest mem ids = do
  username ← array_field mem ids.username_len true
  passwd ← array_field (later 3 mem) ids.passwd_len true
  len ← field (later 6 mem) 8
  payload ← read_payload (later 8 mem) ids.opt_code (ntohll (le_value len))
  pure (record {
    opt_code = ids.opt_code;
    user_flag = ids.user_flag;
    username_len = ids.username_len;
    passwd_len = ids.passwd_len;
    session_id = ids.session_id;
    username = username;
    passwd = passwd;
    payload_len = ntohll (le_value len);
    payload = payload;
  })

-- The code and the request, or the session number that was read before the reading failed.
pub data Request : Type 0 where
  request : WirePayload → Request
  refused : RetCode → ℕ → Request

abbrev of_reading : ℕ → Reading WirePayload → Request
of_reading session_id (value wire conn) = request wire
of_reading session_id (failed code conn) = refused code session_id

abbrev with_ids : Mem → Run (Reading Ids) → Run Request
with_ids mem (ok (value ids conn)) = elim (read_rest mem ids conn) [
  | ok r ↦ ok (of_reading ids.session_id r)
  | fault ↦ fault
  | stuck ↦ stuck
]
with_ids mem (ok (failed code conn)) = ok (refused code 0)
with_ids mem fault = fault
with_ids mem stuck = stuck

-- `read_client_req` up to the response that it sends on a failure.
pub read_client_req : Mem → Conn → Run Request
unfolding read_ids read_rest
read_client_req mem conn = with_ids (later 12 mem) (read_ids mem conn)
