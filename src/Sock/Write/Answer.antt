-- ===== src/Sock/Write/Answer.antt =====
-- write_response of src/server/server_sock.c for a response with no content.
use bsle.Prelude.{
  refl, some, le→leb, take_all, ℕ, ◌+◌, ◌%◌, ap, if_true, fault, ◌≤◌, ◌≡◌, true, Bool, List, [],
  ◌∷◌, ◌++◌, arith, Bytes, length, length-append, ok, plenty, ==_iff,
}
use bsle.Server.{RetCode}
use bsle.Utils.{le_bytes, be_bytes, htonll}
use bsle.Utils.Order.{length-le_bytes, length-be_bytes}
use bsle.FileApi.{FileContent}
use bsle.Wire.{ActResp, get_err_msg, set_resp}
use bsle.Sock.Write.{
  WriteEvent, resp_header, packet, get_base_resp_size, data_bytes, data_stream_size, write_stream,
  write_response,
}
use bsle.Sock.Write.Sending.{Progress, sent_bytes, write_stream_complete}

-- The header and the message of a code.
abbrev pub answer_bytes : ℕ → RetCode → Bytes
answer_bytes session_id code =
    let msg = get_err_msg code in
    resp_header code session_id (length msg + 1 + 0) (length msg) ++ (msg ++ [])

length-resp_header :
    (code : RetCode) (session_id payload_len msg_len : ℕ)
    → length (resp_header code session_id payload_len msg_len) ≡ 15
unfolding resp_header
length-resp_header code session_id payload_len msg_len = omega (
  arith,
  length-append (be_bytes 4 session_id) (le_bytes 8 (htonll payload_len) ++ msg_len % 256 ∷ []),
  length-append (le_bytes 8 (htonll payload_len)) (msg_len % 256 ∷ []),
  length-be_bytes 4 session_id,
  length-le_bytes 8 (htonll payload_len),
)

pub length-answer_bytes :
    (session_id : ℕ) (code : RetCode)
    → length (answer_bytes session_id code) ≡ 15 + length (get_err_msg code)
length-answer_bytes session_id code =
    let msg = get_err_msg code in
    omega (
      arith,
      length-append (resp_header code session_id (length msg + 1 + 0) (length msg)) (msg ++ []),
      length-append msg [],
      length-resp_header code session_id (length msg + 1 + 0) (length msg),
    )

packet-answer_bytes :
    (session_id : ℕ) (code : RetCode)
    → packet session_id (set_resp code) ≡ ok (answer_bytes session_id code)
unfolding packet get_base_resp_size
packet-answer_bytes session_id code =
    let fits : length (answer_bytes session_id code) ≡ 15 + length (get_err_msg code) + 0 =
      omega (arith, length-answer_bytes session_id code) in
    if_true (ok (answer_bytes session_id code)) fault ((==_iff _ _).1 fits)

-- If memory does not run out, every call of `write` takes at least one byte, and there are as many calls as
-- the packet has bytes, then the response is sent to its end.
pub write_response_answered :
    (evs : List WriteEvent) (session_id : ℕ) (code : RetCode)
    → Progress evs
    → 15 + length (get_err_msg code) ≤ length evs
    → (chunks : List Bytes) × (left : List WriteEvent) × (write_response plenty evs session_id
          (set_resp code)
        ≡ ok (chunks, true, left))
      × (sent_bytes chunks ≡ answer_bytes session_id code)
unfolding write_response
write_response_answered evs session_id code p n =
    let stream = answer_bytes session_id code in
    let long = length-answer_bytes session_id code in
    let (done, sent, limit) =
      write_stream_complete evs stream 0 (omega (arith, long)) p (omega (arith, long)) in
    (
      (write_stream evs stream 0).0,
      (write_stream evs stream 0).2,
      rw (packet-answer_bytes session_id code) (
          ap (λ (b : Bool). ok ((write_stream evs stream 0).0, b, (write_stream evs stream 0).2))
            done),
      sent,
    )

-- The lengths of some messages.
pub length-msg_success : length (get_err_msg RetCode.op_success) ≡ 28
unfolding get_err_msg
length-msg_success = refl

pub length-msg_refused : length (get_err_msg RetCode.op_user_auth) ≡ 40
unfolding get_err_msg
length-msg_refused = refl

pub length-msg_expired : length (get_err_msg RetCode.op_session_error) ≡ 42
unfolding get_err_msg
length-msg_expired = refl

-- The response with the content of a file, and its packet: the digest and the bytes behind the message.
abbrev pub content_resp : FileContent → ActResp
content_resp c = record {
  msg = get_err_msg RetCode.op_success;
  result = RetCode.op_success;
  content = some c;
}

abbrev pub whole_file : Bytes → Bytes → Bytes → FileContent
whole_file path digest stream = record {
  hash = record { size = 32; array = digest };
  stream = stream;
  stream_size = length stream;
  path = path;
}

abbrev pub content_bytes : ℕ → Bytes → Bytes → Bytes
content_bytes session_id digest stream =
    let msg = get_err_msg RetCode.op_success in
    resp_header RetCode.op_success session_id (length msg + 1 + (length stream + 32)) (length msg)
    ++ (msg ++ (digest ++ stream))

module _ (session_id : ℕ) (path digest stream : Bytes) (sized : length digest ≡ 32) where
  pub length-content_bytes : length (content_bytes session_id digest stream) ≡ 75 + length stream
  unfolding get_err_msg
  length-content_bytes =
      let msg = get_err_msg RetCode.op_success in
      omega (
        arith,
        sized,
        length-append digest stream,
        length-resp_header RetCode.op_success session_id (28 + 1 + (length stream + 32)) 28,
        length-append (resp_header RetCode.op_success session_id (28 + 1 + (length stream + 32)) 28)
            (msg ++ (digest ++ stream)),
        length-append msg (digest ++ stream),
      )

  data_bytes_whole : data_bytes (some (whole_file path digest stream)) ≡ ok (digest ++ stream)
  unfolding data_bytes
  data_bytes_whole = rw (le→leb 32 (length digest) (omega (arith, sized))) (
      rw (le→leb (length stream) (length stream) (omega arith)) (
        rw (take_all 32 digest (omega (arith, sized)))
          (rw (take_all (length stream) stream (omega arith)) refl)))

  packet-content_bytes :
      packet session_id (content_resp (whole_file path digest stream))
      ≡ ok (content_bytes session_id digest stream)
  unfolding packet get_base_resp_size data_stream_size
  packet-content_bytes =
      let msg = length (get_err_msg RetCode.op_success) in
      let fits : length (content_bytes session_id digest stream) ≡ 15 + msg + (length stream + 32) =
        omega (arith, length-content_bytes, length-msg_success) in
      rw data_bytes_whole
        (if_true (ok (content_bytes session_id digest stream)) fault ((==_iff _ _).1 fits))

  -- Under the conditions of `write_response_answered`, the packet with the content is sent to its end.
  pub write_response_content :
      (evs : List WriteEvent)
      → Progress evs
      → 75 + length stream ≤ length evs
      → (chunks : List Bytes) × (left : List WriteEvent) × (write_response plenty evs session_id
            (content_resp (whole_file path digest stream))
          ≡ ok (chunks, true, left))
        × (sent_bytes chunks ≡ content_bytes session_id digest stream)
  unfolding write_response data_stream_size
  write_response_content evs p n =
      let bytes = content_bytes session_id digest stream in
      let size = length stream + 32 in
      let long = length-content_bytes in
      let (done, sent, limit) =
        write_stream_complete evs bytes size (omega (arith, long)) p (omega (arith, long)) in
      (
        (write_stream evs bytes size).0,
        (write_stream evs bytes size).2,
        rw packet-content_bytes (
            ap
              (λ (b : Bool).
                ok ((write_stream evs bytes size).0, b, (write_stream evs bytes size).2))
              done),
        sent,
      )
