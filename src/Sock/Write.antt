-- ===== src/Sock/Write.antt =====
-- `write_response` of src/server/server_sock.c: the packet, and the calls of `write` that send it.
pub mod Sending
pub mod Packet
pub mod Answer
use bsle.Prelude.{
  ℕ, zero, suc, ◌+◌, ◌-◌, ◌%◌, Bool, true, false, Option, none, some, List, [], ◌∷◌, ◌++◌, Bytes,
  length, take, drop, Run, ok, fault, ◌>>=◌, Mem, ltb, leb, ◌==◌, if◌then◌else◌,
}
use bsle.Server.{RetCode, ret_code, max_msg_size, max_file_size}
use bsle.Utils.{htonll, le_bytes, be_bytes}
use bsle.FileApi.{FileContent}
use bsle.Wire.{ActResp}

-- One `write`: an error, or how many bytes it took, of those that it was given.
pub data WriteEvent : Type 0 where
  write_error : WriteEvent
  wrote : ℕ → WriteEvent

pub get_base_resp_size : ℕ
get_base_resp_size = 1 + 1 + 4 + 8 + 1

-- The digest and the stream of the content, `none` for NULL.
pub data_bytes : Option FileContent → Run Bytes
data_bytes none = ok []
data_bytes (some c) =
    if leb c.hash.size (length c.hash.array)
    then (if leb c.stream_size (length c.stream)
        then ok (take c.hash.size c.hash.array ++ take c.stream_size c.stream)
        else fault)
    else fault

pub data_stream_size : Option FileContent → ℕ
data_stream_size none = 0
data_stream_size (some c) = c.stream_size + c.hash.size

-- The fields of the header in front of the message.
pub resp_header : RetCode → ℕ → ℕ → ℕ → Bytes
resp_header result session_id payload_len msg_len =
    ret_code result % 256
    ∷ 0
    ∷ (be_bytes 4 session_id ++ (le_bytes 8 (htonll payload_len) ++ msg_len % 256 ∷ []))

-- `p_stream`, which the fields must fill and not overrun.
pub packet : ℕ → ActResp → Run Bytes
unfolding resp_header data_bytes data_stream_size get_base_resp_size
packet session_id resp =
    let msg_len = length resp.msg in
    let stream_size = data_stream_size resp.content in
    data_bytes resp.content >>= λ content.
    let bytes =
      resp_header resp.result session_id (msg_len + 1 + stream_size) msg_len
      ++ (resp.msg ++ content) in
    if length bytes == get_base_resp_size + msg_len + stream_size then ok bytes else fault

-- How many bytes a call takes: it is given what is left, or the limit, and takes at most that.
pub taken : ℕ → ℕ → ℕ → ℕ
taken k limit left =
    let send_size = if ltb left limit then left else limit in
    if ltb k send_size then k else send_size

-- One of the two loops: at most `limit` bytes a call, from `offset` on, until `total` bytes are sent.
-- The result is what the calls took, one entry each, and whether all was sent.
pub send_loop : List WriteEvent → ℕ → Bytes → ℕ → ℕ → List Bytes × Bool × List WriteEvent
send_loop [] limit stream sent total = ([], false, [])
send_loop (write_error ∷ evs) limit stream sent total = ([], false, evs)
send_loop (wrote k ∷ evs) limit stream sent total =
    let sent_bytes = taken k limit (total - sent) in
    let chunk = take sent_bytes stream in
    let more = send_loop evs limit (drop sent_bytes stream) (sent + sent_bytes) total in
    if sent + sent_bytes == total then (chunk ∷ [], true, evs) else (chunk ∷ more.0, more.1, more.2)

-- The header and the message in calls of at most 2048 bytes, then the content, if there is one, in
-- calls of at most 1016.
pub write_stream : List WriteEvent → Bytes → ℕ → List Bytes × Bool × List WriteEvent
unfolding send_loop
write_stream evs stream data_size =
    let head = length stream - data_size in
    let (chunks, done, evs') = send_loop evs max_msg_size stream 0 head in
    if done
    then (if data_size == 0
        then (chunks, true, evs')
        else (let (chunks', done', evs'') =
              send_loop evs' max_file_size (drop head stream) 0 data_size in
            (chunks ++ chunks', done', evs'')))
    else (chunks, false, evs')

-- The allocation is the packet.
unfoldable pub write_response :
    Mem → List WriteEvent → ℕ → ActResp → Run (List Bytes × Bool × List WriteEvent)
unfolding packet write_stream
write_response mem evs session_id resp =
    if mem 0
    then packet session_id resp
      >>= (λ stream. ok (write_stream evs stream (data_stream_size resp.content)))
    else ok ([], false, evs)
