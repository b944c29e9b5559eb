-- ===== src/Sock/Read/Payloads.antt =====
-- read_payload of src/server/server_sock.c on a payload as a client sends it.
use bsle.Prelude.{
  ℕ, ◌+◌, ◌-◌, ◌^◌, ◌%◌, ◌<◌, ◌≡◌, refl, true, false, Option, none, some, [], ◌∷◌, ◌++◌, arith,
  Bytes, length, Mem, later, leb, ==_ne,
}
use bsle.Server.{act_user_operation, act_local_operation}
use bsle.Utils.{le_bytes, be_bytes, le_value, be_value}
use bsle.Utils.Order.{be_value-be_bytes_2, le_value-le_bytes_1, length-le_bytes, length-be_bytes}
use bsle.Wire.{StdPayload, UserPayload, Payload, no_payload, std_payload, user_payload}
use bsle.Sock.{user_payload_has_password, std_payload_has_file, get_file_stream_size}
use bsle.Sock.Read.{
  field, array_field, read_client_user_payload, read_client_std_payload, read_payload, passwd_part,
  file_part,
}
use bsle.Sock.Read.Takes.{
  Takes, pure-Takes, bind-Takes, map-Takes, value-Takes, Roomy, sized-Takes, later-Roomy,
  text-Takes, empty-Takes, block-Takes,
}
use bsle.Sock.Read.Encode.{
  pointed, user_bytes, std_bytes, payload_bytes, IsText, IsPasswd, passwd_bytes, IsStream, IsFile,
  IsPayload,
}

-- A number of one byte and of two, and a string behind its length.
module _ (mem : Mem) (room : Roomy mem) where
  pub byte-Takes : (k n : ℕ) → Takes (field (later k mem) 1) (le_bytes 1 n) (le_bytes 1 n)
  byte-Takes k n =
      sized-Takes (later k mem) (later-Roomy mem room k) 1 (le_bytes 1 n) (length-le_bytes 1 n)

  pub short-Takes : (k n : ℕ) → Takes (field (later k mem) 2) (be_bytes 2 n) (be_bytes 2 n)
  short-Takes k n =
      sized-Takes (later k mem) (later-Roomy mem room k) 2 (be_bytes 2 n) (length-be_bytes 2 n)

  pub pointed-Takes :
      (n len : ℕ) (o : Option Bytes)
      → n ≡ len
      → IsText len o
      → Takes (array_field mem n true) (pointed o) o
  pointed-Takes n len none e h = absurd h
  pointed-Takes n len (some s) e (same, ne, plain, small) =
      rw (e, same) (text-Takes mem room s ne plain)

pub IsText-small : (len : ℕ) (o : Option Bytes) → IsText len o → len < 2 ^ 16
IsText-small len none h = absurd h
IsText-small len (some s) (same, ne, plain, small) = small

passwd-Takes :
    (mem : Mem) (payload_len n : ℕ) (u : UserPayload) (o : Option Bytes)
    → Roomy mem
    → n ≡ u.username_len
    → IsPasswd payload_len u o
    → Takes (passwd_part mem payload_len n) (passwd_bytes u o) (u.passwd_len, o)
unfolding user_payload_has_password
passwd-Takes mem payload_len n u none room e (zero_len, size) =
    let enough : leb payload_len (1 + 1 + 2 + n) ≡ true = ground arith in
    rw (enough, zero_len) (pure-Takes (0, none))
passwd-Takes mem payload_len n u (some s) room e (text, size) =
    let short : leb payload_len (1 + 1 + 2 + n) ≡ false = ground arith in
    let len : be_value 0 (be_bytes 2 u.passwd_len) ≡ u.passwd_len =
      be_value-be_bytes_2 u.passwd_len (IsText-small u.passwd_len (some s) text) in
    rw short (
      bind-Takes (field mem 2) _ (be_bytes 2 u.passwd_len) s
        (sized-Takes mem room 2 (be_bytes 2 u.passwd_len) (length-be_bytes 2 u.passwd_len))
        (rw len (
          map-Takes (array_field (later 2 mem) u.passwd_len true) (λ p. (u.passwd_len, p)) s
            (pointed-Takes (later 2 mem) (λ i. room (2 + i)) u.passwd_len u.passwd_len (some s) refl
              text))))

user-Takes :
    (mem : Mem) (payload_len : ℕ) (u : UserPayload)
    → Roomy mem
    → u.user_flag < 256
    → u.user_perm < 256
    → IsText u.username_len u.username
    → IsPasswd payload_len u u.passwd
    → Takes (read_client_user_payload mem payload_len) (user_bytes u) u
unfolding read_client_user_payload
user-Takes mem payload_len u room hf hp name secret =
    let flag = le_value-le_bytes_1 u.user_flag hf in
    let perm = le_value-le_bytes_1 u.user_perm hp in
    let len = be_value-be_bytes_2 u.username_len (IsText-small u.username_len u.username name) in
    let read : ◌≡◌ {A = UserPayload}
        (record {
          user_flag = le_value (le_bytes 1 u.user_flag);
          user_perm = le_value (le_bytes 1 u.user_perm);
          username_len = be_value 0 (be_bytes 2 u.username_len);
          username = u.username;
          passwd_len = u.passwd_len;
          passwd = u.passwd;
        })
        u =
      rw (flag, perm, len) refl in
    value-Takes (read_client_user_payload mem payload_len) (user_bytes u) read (
      rw (room 0) (
        bind-Takes (field (later 1 mem) 1) _ (le_bytes 1 u.user_flag) _
          (byte-Takes mem room 1 u.user_flag)
          (bind-Takes (field (later 3 mem) 1) _ (le_bytes 1 u.user_perm) _
            (byte-Takes mem room 3 u.user_perm)
            (bind-Takes (field (later 5 mem) 2) _ (be_bytes 2 u.username_len) _
              (short-Takes mem room 5 u.username_len)
              (bind-Takes (array_field (later 7 mem) (be_value 0 (be_bytes 2 u.username_len)) true)
                _ (pointed u.username) _
                (pointed-Takes (later 7 mem) (later-Roomy mem room 7)
                  (be_value 0 (be_bytes 2 u.username_len)) u.username_len u.username len name)
                (map-Takes
                  (passwd_part (later 10 mem) payload_len (be_value 0 (be_bytes 2 u.username_len)))
                  _ (passwd_bytes u u.passwd)
                  (passwd-Takes (later 10 mem) payload_len (be_value 0 (be_bytes 2 u.username_len))
                    u u.passwd (later-Roomy mem room 10) len secret)))))))

module _ (mem : Mem) (room : Roomy mem) where
  digest-Takes : (s : Bytes) → length s ≡ 32 → Takes (array_field mem 32 false) s (some s)
  digest-Takes [] e = absurd (omega arith)
  digest-Takes (b ∷ s) e = rw (← e) (block-Takes mem room b s)

  stream-Takes :
      (n : ℕ) (o : Option Bytes) → IsStream n o → Takes (array_field mem n false) (pointed o) o
  stream-Takes n none e = rw e (empty-Takes mem room)
  stream-Takes n (some []) (e, ne) = absurd (ne refl)
  stream-Takes n (some (b ∷ s)) (e, ne) = rw e (block-Takes mem room b s)

file-Takes :
    (mem : Mem) (payload_len n : ℕ) (p : StdPayload) (o : Option Bytes)
    → Roomy mem
    → n ≡ p.path_len
    → n < 2 ^ 16
    → payload_len < 2 ^ 64
    → IsFile payload_len p o
    → Takes
        (file_part mem payload_len n)
        (pointed o ++ pointed p.byte_stream)
        (o, p.byte_stream, p.byte_stream_len)
unfolding std_payload_has_file get_file_stream_size
file-Takes mem payload_len n p none room e small fits (no_stream, zero_len, size) =
    let without : leb 32 ((payload_len + 2 ^ 64 - n) % 2 ^ 64) ≡ false = ground arith in
    rw (without, no_stream, zero_len) (pure-Takes (none, none, 0))
file-Takes mem payload_len n p (some digest) room e small fits (sized, stream, size) =
    let with_file : leb 32 ((payload_len + 2 ^ 64 - n) % 2 ^ 64) ≡ true = ground arith in
    let len : get_file_stream_size payload_len n ≡ p.byte_stream_len = ground arith in
    rw with_file (
      bind-Takes (array_field mem 32 false) _ digest (pointed p.byte_stream)
        (digest-Takes mem room digest sized)
        (rw len (
          map-Takes (array_field (later 3 mem) p.byte_stream_len false)
            (λ s. (some digest, s, p.byte_stream_len)) (pointed p.byte_stream)
            (stream-Takes (later 3 mem) (later-Roomy mem room 3) p.byte_stream_len p.byte_stream
              stream))))

std-Takes :
    (mem : Mem) (payload_len : ℕ) (p : StdPayload)
    → Roomy mem
    → payload_len < 2 ^ 64
    → IsText p.path_len p.path
    → IsFile payload_len p p.hash_stream
    → Takes (read_client_std_payload mem payload_len) (std_bytes p) p
unfolding read_client_std_payload
std-Takes mem payload_len p room fits path file =
    let small = IsText-small p.path_len p.path path in
    let n = be_value 0 (be_bytes 2 p.path_len) in
    let len : n ≡ p.path_len = be_value-be_bytes_2 p.path_len small in
    let read : ◌≡◌ {A = StdPayload}
        (record {
          path_len = n;
          path = p.path;
          byte_stream = p.byte_stream;
          hash_stream = p.hash_stream;
          byte_stream_len = p.byte_stream_len;
        })
        p =
      rw len refl in
    value-Takes (read_client_std_payload mem payload_len) (std_bytes p) read (
      rw (room 0) (
        bind-Takes (field (later 1 mem) 2) _ (be_bytes 2 p.path_len) _
          (short-Takes mem room 1 p.path_len)
          (bind-Takes (array_field (later 3 mem) n true) _ (pointed p.path) _
            (pointed-Takes (later 3 mem) (later-Roomy mem room 3) n p.path_len p.path len path)
            (map-Takes (file_part (later 6 mem) payload_len n) _
              (pointed p.hash_stream ++ pointed p.byte_stream)
              (file-Takes (later 6 mem) payload_len n p p.hash_stream (later-Roomy mem room 6) len
                (omega (arith, len, small)) fits file)))))

pub payload-Takes :
    (mem : Mem) (opt_code payload_len : ℕ) (p : Payload)
    → Roomy mem
    → payload_len < 2 ^ 64
    → IsPayload opt_code payload_len p
    → Takes (read_payload mem opt_code payload_len) (payload_bytes p) p
unfolding read_payload
payload-Takes mem opt_code payload_len no_payload room fits local = rw local (pure-Takes no_payload)
payload-Takes mem opt_code payload_len (user_payload u) room fits (op, flag, perm, name, secret) =
    rw op (
      map-Takes (read_client_user_payload mem payload_len) (λ x. user_payload x) (user_bytes u)
        (user-Takes mem payload_len u room flag perm name secret))
payload-Takes mem opt_code payload_len (std_payload p) room fits (not_user, not_local, path, file) =
    rw (==_ne opt_code act_user_operation not_user, ==_ne opt_code act_local_operation not_local)
      (map-Takes (read_client_std_payload mem payload_len) (λ x. std_payload x) (std_bytes p)
        (std-Takes mem payload_len p room fits path file))
