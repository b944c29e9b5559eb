-- ===== src/Sock/Stream.antt =====
-- read_stream of src/server/server_sock.c, and the sizes that a payload is cut by.
use bsle.Prelude.{
  ℕ, zero, suc, ◌+◌, ◌^◌, ◌<◌, ◌≡◌, ◌≢◌, refl, ap, ◌∙◌, true, false, [], ◌∷◌, ◌++◌, append_assoc,
  append-nil, arith, Bytes, length, Mem, ltb, leb, ◌==◌, if◌then◌else◌,
}
use bsle.Server.{RetCode}
use bsle.Sock.{
  Conn, ReadEvent, got, read_loop, read_stream, std_payload_has_file, get_file_stream_size,
}

-- A connection on which these bytes arrive next.
abbrev pub arrive : Bytes → Conn → Conn
arrive [] conn = conn
arrive (b ∷ s) conn = got b ∷ arrive s conn

-- What an event other than a byte makes of the reading.
abbrev pub stop_code : ReadEvent → RetCode
stop_code (got b) = RetCode.op_success
stop_code ReadEvent.timed_out = RetCode.op_session_error
stop_code ReadEvent.read_error = RetCode.op_failure
stop_code ReadEvent.closed = RetCode.op_sock_closed

read_loop-arrive :
    (s : Bytes) (conn : Conn) (buffer : Bytes)
    → read_loop (length s) (arrive s conn) buffer ≡ (RetCode.op_success, buffer ++ s, conn)
unfolding read_loop
read_loop-arrive [] conn buffer = rw append-nil
read_loop-arrive (b ∷ s) conn buffer =
    read_loop-arrive s conn (buffer ++ b ∷ [])
    ∙ ap (λ (t : Bytes). (RetCode.op_success, t, conn)) (append_assoc buffer (b ∷ []) s)

read_loop_stopped :
    (s : Bytes) (n : ℕ) (ev : ReadEvent) (conn : Conn) (buffer : Bytes)
    → stop_code ev ≢ RetCode.op_success
    → length s < n
    → read_loop n (arrive s (ev ∷ conn)) buffer ≡ (stop_code ev, [], conn)
unfolding read_loop
read_loop_stopped s zero ev conn buffer ne h = elim h [ ]
read_loop_stopped [] (suc n) (got b) conn buffer ne h = absurd (ne refl)
read_loop_stopped [] (suc n) ReadEvent.timed_out conn buffer ne h = refl
read_loop_stopped [] (suc n) ReadEvent.read_error conn buffer ne h = refl
read_loop_stopped [] (suc n) ReadEvent.closed conn buffer ne h = refl
read_loop_stopped (b ∷ s) (suc n) ev conn buffer ne h =
    read_loop_stopped s n ev conn (buffer ++ b ∷ []) ne (omega arith)

pub suc_ne_zero : (n : ℕ) → (suc n == 0) ≡ false
suc_ne_zero n = ground arith

read_stream-loop :
    (mem : Mem) (conn : Conn) (n : ℕ)
    → mem 0 ≡ true
    → mem 1 ≡ true
    → read_stream mem conn (suc n) ≡ read_loop (suc n) conn []
unfolding read_stream
read_stream-loop mem conn n m0 m1 = rw (m0, m1, suc_ne_zero n)

-- When memory does not run out, a read of as many bytes as arrive takes exactly these from the
-- connection, and leaves what follows.
pub read_stream-arrive :
    (mem : Mem) (s : Bytes) (conn : Conn)
    → mem 0 ≡ true
    → mem 1 ≡ true
    → read_stream mem (arrive s conn) (length s) ≡ (RetCode.op_success, s, conn)
unfolding read_stream
read_stream-arrive mem [] conn m0 m1 = refl
read_stream-arrive mem (b ∷ s) conn m0 m1 =
    rw (m0, m1, suc_ne_zero (length s)) (read_loop-arrive (b ∷ s) conn [])

-- When memory does not run out, and a timeout, an error or the end comes before all bytes that were
-- asked for, the read fails with the code for that, and no byte reaches the caller.
pub read_stream_stopped :
    (mem : Mem) (s : Bytes) (conn : Conn) (n : ℕ) (ev : ReadEvent)
    → mem 0 ≡ true
    → mem 1 ≡ true
    → stop_code ev ≢ RetCode.op_success
    → length s < n
    → read_stream mem (arrive s (ev ∷ conn)) n ≡ (stop_code ev, [], conn)
read_stream_stopped mem s conn zero ev m0 m1 ne h = elim h [ ]
read_stream_stopped mem s conn (suc n) ev m0 m1 ne h =
    read_stream-loop mem (arrive s (ev ∷ conn)) n m0 m1
    ∙ read_loop_stopped s (suc n) ev conn [] ne h

-- For lengths that fit into their fields: a file is expected exactly when the payload has 32 bytes or
-- more beside the path, or is said to be shorter than its path, when the difference wraps around.
pub std_payload_has_file_sizes :
    (payload_len path_len : ℕ)
    → payload_len < 2 ^ 64
    → path_len < 2 ^ 16
    → std_payload_has_file payload_len path_len
      ≡ (if ltb payload_len path_len then true else leb (path_len + 32) payload_len)
unfolding std_payload_has_file
std_payload_has_file_sizes payload_len path_len big small = ground arith

-- A payload that is said to be shorter than its path has a file all the same, of no bytes.
pub std_payload_has_file_wraps :
    (payload_len path_len : ℕ)
    → path_len < 2 ^ 16
    → payload_len < path_len
    → (std_payload_has_file payload_len path_len ≡ true)
      × (get_file_stream_size payload_len path_len ≡ 0)
unfolding std_payload_has_file get_file_stream_size
std_payload_has_file_wraps payload_len path_len small h = (ground arith, ground arith)
