-- ===== src/Sock/Read/RoundTrip.antt =====
-- read_client_req of src/server/server_sock.c on a request as a client sends it.
use bsle.Prelude.{◌^◌, ◌<◌, ◌≡◌, refl, true, [], ◌∷◌, ok, Mem, later}
use bsle.Utils.{le_bytes, be_bytes, le_value, be_value, ntohll}
use bsle.Utils.Order.{
  ntohll-be_bytes, be_value-be_bytes_2, be_value-be_bytes_4, le_value-le_bytes_1, length-le_bytes,
  length-be_bytes,
}
use bsle.Wire.{WirePayload}
use bsle.Sock.{Conn}
use bsle.Sock.Stream.{arrive}
use bsle.Sock.Read.{
  field, array_field, Ids, read_ids, read_payload, read_rest, request, read_client_req, with_ids,
}
use bsle.Sock.Read.Takes.{
  arrive-append, Takes, bind-Takes, map-Takes, value-Takes, Roomy, sized-Takes, later-Roomy,
}
use bsle.Sock.Read.Payloads.{byte-Takes, short-Takes, pointed-Takes, IsText-small, payload-Takes}
use bsle.Sock.Read.Encode.{pointed, payload_bytes, ids_bytes, rest_bytes, wire_bytes, IsRequest}

abbrev ids_of : WirePayload → Ids
ids_of w = record {
  opt_code = w.opt_code;
  user_flag = w.user_flag;
  username_len = w.username_len;
  passwd_len = w.passwd_len;
  session_id = w.session_id;
}

module _ (mem : Mem) (room : Roomy mem) where
  -- The fields as they were read are those that were sent.
  ids_read :
      (w : WirePayload)
      → IsRequest w
      → w.username_len < 2 ^ 16
      → w.passwd_len < 2 ^ 16
      → ◌≡◌ {A = Ids}
          (record {
            opt_code = le_value (le_bytes 1 w.opt_code);
            user_flag = le_value (le_bytes 1 w.user_flag);
            username_len = be_value 0 (be_bytes 2 w.username_len);
            passwd_len = be_value 0 (be_bytes 2 w.passwd_len);
            session_id = be_value 0 (be_bytes 4 w.session_id);
          })
          (ids_of w)
  ids_read w h hu hp =
      rw
        (
          le_value-le_bytes_1 w.opt_code h.opt_code_fits,
          le_value-le_bytes_1 w.user_flag h.user_flag_fits,
          be_value-be_bytes_2 w.username_len hu,
          be_value-be_bytes_2 w.passwd_len hp,
          be_value-be_bytes_4 w.session_id h.session_id_fits,
        )
        refl

  ids-Takes :
      (w : WirePayload)
      → IsRequest w
      → w.username_len < 2 ^ 16
      → w.passwd_len < 2 ^ 16
      → Takes (read_ids mem) (ids_bytes w) (ids_of w)
  unfolding read_ids
  ids-Takes w h hu hp = rw (← ids_read w h hu hp) (
      bind-Takes (field mem 1) _ (le_bytes 1 w.opt_code) _
        (sized-Takes mem room 1 (le_bytes 1 w.opt_code) (length-le_bytes 1 w.opt_code))
        (bind-Takes (field (later 2 mem) 1) _ (le_bytes 1 w.user_flag) _
          (byte-Takes mem room 2 w.user_flag)
          (bind-Takes (field (later 4 mem) 2) _ (0 ∷ 0 ∷ []) _
            (sized-Takes (later 4 mem) (later-Roomy mem room 4) 2 (0 ∷ 0 ∷ []) refl)
            (bind-Takes (field (later 6 mem) 2) _ (be_bytes 2 w.username_len) _
              (short-Takes mem room 6 w.username_len)
              (bind-Takes (field (later 8 mem) 2) _ (be_bytes 2 w.passwd_len) _
                (short-Takes mem room 8 w.passwd_len)
                (map-Takes (field (later 10 mem) 4) _ (be_bytes 4 w.session_id) (
                  sized-Takes (later 10 mem) (later-Roomy mem room 10) 4 (be_bytes 4 w.session_id)
                    (length-be_bytes 4 w.session_id))))))))

rest-Takes :
    (mem : Mem) (w : WirePayload)
    → Roomy mem
    → IsRequest w
    → Takes (read_rest mem (ids_of w)) (rest_bytes w) w
unfolding read_rest
rest-Takes mem w room h =
    let len : ntohll (le_value (be_bytes 8 w.payload_len)) ≡ w.payload_len =
      ntohll-be_bytes w.payload_len h.payload_len_fits in
    let read : ◌≡◌ {A = WirePayload}
        (record w { payload_len = ntohll (le_value (be_bytes 8 w.payload_len)) }) w =
      rw len refl in
    value-Takes (read_rest mem (ids_of w)) (rest_bytes w) read (
      bind-Takes (array_field mem w.username_len true) _ (pointed w.username) _
        (pointed-Takes mem room w.username_len w.username_len w.username refl h.named)
        (bind-Takes (array_field (later 3 mem) w.passwd_len true) _ (pointed w.passwd) _
          (pointed-Takes (later 3 mem) (later-Roomy mem room 3) w.passwd_len w.passwd_len w.passwd
            refl h.secret)
          (bind-Takes (field (later 6 mem) 8) _ (be_bytes 8 w.payload_len) _
            (sized-Takes (later 6 mem) (later-Roomy mem room 6) 8 (be_bytes 8 w.payload_len)
              (length-be_bytes 8 w.payload_len))
            (map-Takes
              (read_payload (later 8 mem) w.opt_code (ntohll (le_value (be_bytes 8 w.payload_len))))
              _ (payload_bytes w.payload)
              (rw len (
                payload-Takes (later 8 mem) w.opt_code w.payload_len w.payload
                  (later-Roomy mem room 8) h.payload_len_fits h.loaded))))))

-- A request as a client sends it is read back as it is, whatever follows it on the connection: if its
-- fields fit, its strings hold no 0 and are not empty, its lengths are true, its payload is the one
-- that the operation calls for, and memory does not run out.
pub read_client_req-wire_bytes :
    (mem : Mem) (w : WirePayload) (conn : Conn)
    → Roomy mem
    → IsRequest w
    → read_client_req mem (arrive (wire_bytes w) conn) ≡ ok (request w)
unfolding read_client_req
read_client_req-wire_bytes mem w conn room h =
    let name = IsText-small w.username_len w.username h.named in
    let secret = IsText-small w.passwd_len w.passwd h.secret in
    rw (arrive-append (ids_bytes w) (rest_bytes w) conn) (
      rw (ids-Takes mem room w h name secret (arrive (rest_bytes w) conn), with_ids)
        (rw (rest-Takes (later 12 mem) w (later-Roomy mem room 12) h conn)))
