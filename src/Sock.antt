-- ===== src/Sock.antt =====
-- src/server/server_sock.c: reading a request from a connection and writing the response.
-- A connection is what its `read` calls of one byte return, in order; behind the end of that list it
-- is closed. What its `write` calls return is a list too.
pub mod Read
pub mod Write
pub mod Serve
pub mod Stream
pub mod Listen
pub mod Start
use bsle.Prelude.{
  ℕ, zero, suc, ◌+◌, ◌-◌, ◌*◌, ◌^◌, ◌%◌, Bool, true, false, not, ◌&&◌, Option, none, some, List, [],
  ◌∷◌, ◌++◌, Bytes, length, Run, ok, fault, ◌>>=◌, Mem, later, ltb, leb, ◌==◌, if◌then◌else◌,
}
use bsle.Server.{RetCode, sha256_digest_length}
use bsle.Db.Codec.{c_string}

-- One `read` of one byte: the byte, a timeout (EAGAIN), another error, or the end of the stream.
pub data ReadEvent : Type 0 where
  got : ℕ → ReadEvent
  timed_out read_error closed : ReadEvent

abbrev pub Conn : Type 0
Conn = List ReadEvent

-- The loop of `read_stream`, with `n` bytes still to read.
pub read_loop : ℕ → Conn → Bytes → RetCode × Bytes × Conn
read_loop zero conn buffer = (RetCode.op_success, buffer, conn)
read_loop (suc n) [] buffer = (RetCode.op_sock_closed, [], [])
read_loop (suc n) (got b ∷ conn) buffer = read_loop n conn (buffer ++ b ∷ [])
read_loop (suc n) (timed_out ∷ conn) buffer = (RetCode.op_session_error, [], conn)
read_loop (suc n) (read_error ∷ conn) buffer = (RetCode.op_failure, [], conn)
read_loop (suc n) (closed ∷ conn) buffer = (RetCode.op_sock_closed, [], conn)

-- The code, the bytes that the caller's buffer receives, and the connection. The caller's buffer is
-- never NULL; the two allocations are the working buffers.
pub read_stream : Mem → Conn → ℕ → RetCode × Bytes × Conn
unfolding read_loop
read_stream mem conn bytes_to_read =
    if bytes_to_read == 0
    then (RetCode.op_success, [], conn)
    else if mem 0 && mem 1
    then read_loop bytes_to_read conn []
    else (RetCode.op_failure, [], conn)

-- With the bytes read: a string is ended by a write behind its bytes, in an allocation of twice the
-- length, and is read as a C string from then on.
pub finish_array : ℕ → Bool → RetCode × Bytes × Conn → Run (RetCode × Option Bytes × Conn)
finish_array len true (RetCode.op_success, bytes, conn) =
    if ltb len (len * 2) then ok (RetCode.op_success, some (c_string bytes), conn) else fault
finish_array len false (RetCode.op_success, bytes, conn) = ok (RetCode.op_success, some bytes, conn)
finish_array len make_string (code, bytes, conn) = ok (code, none, conn)

-- The allocations are the array and those of the read. `none` leaves the caller's pointer as it was.
pub make_byte_array : Mem → Conn → ℕ → Bool → Run (RetCode × Option Bytes × Conn)
unfolding finish_array read_stream
make_byte_array mem conn len make_string =
    if len == 0 && not make_string
    then ok (RetCode.op_success, none, conn)
    else if mem 0
    then finish_array len make_string (read_stream (later 1 mem) conn len)
    else ok (RetCode.op_failure, none, conn)

-- Does a password follow the name?
pub user_payload_has_password : ℕ → ℕ → Bool
user_payload_has_password payload_len username_len =
    if leb payload_len (1 + 1 + 2 + username_len) then false else true

-- The difference is one of 64-bit numbers, and wraps around.
pub std_payload_has_file : ℕ → ℕ → Bool
std_payload_has_file payload_len path_len =
    leb sha256_digest_length ((payload_len + 2 ^ 64 - path_len) % 2 ^ 64)

pub get_file_stream_size : ℕ → ℕ → ℕ
get_file_stream_size payload_len path_len =
    let r_operand = path_len + sha256_digest_length + 2 in
    if ltb payload_len r_operand then 0 else payload_len - r_operand
