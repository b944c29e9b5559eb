-- ===== src/Sock/Read/Encode.antt =====
-- A request as a client sends it: the layout that the comments in read_client_req,
-- read_client_std_payload and read_client_user_payload of src/server/server_sock.c draw.
use bsle.Prelude.{
  ℕ, ◌+◌, ◌^◌, ◌<◌, ◌≡◌, ◌≢◌, Option, none, some, [], ◌∷◌, ◌++◌, Bytes, length, Lacks,
}
use bsle.Server.{sha256_digest_length, act_user_operation, act_local_operation}
use bsle.Utils.{le_bytes, be_bytes}
use bsle.Wire.{StdPayload, UserPayload, Payload, no_payload, std_payload, user_payload, WirePayload}

-- The bytes behind a pointer; none for NULL.
abbrev pub pointed : Option Bytes → Bytes
pointed none = []
pointed (some s) = s

abbrev pub passwd_bytes : UserPayload → Option Bytes → Bytes
passwd_bytes u none = []
passwd_bytes u (some s) = be_bytes 2 u.passwd_len ++ s

abbrev pub user_bytes : UserPayload → Bytes
user_bytes u =
    le_bytes 1 u.user_flag
    ++ (le_bytes 1 u.user_perm
        ++ (be_bytes 2 u.username_len ++ (pointed u.username ++ passwd_bytes u u.passwd)))

abbrev pub std_bytes : StdPayload → Bytes
std_bytes p =
    be_bytes 2 p.path_len ++ (pointed p.path ++ (pointed p.hash_stream ++ pointed p.byte_stream))

abbrev pub payload_bytes : Payload → Bytes
payload_bytes no_payload = []
payload_bytes (user_payload u) = user_bytes u
payload_bytes (std_payload p) = std_bytes p

-- The fixed part of the header.
abbrev pub ids_bytes : WirePayload → Bytes
ids_bytes w =
    le_bytes 1 w.opt_code
    ++ (le_bytes 1 w.user_flag
        ++ ((0 ∷ 0 ∷ [])
            ++ (be_bytes 2 w.username_len ++ (be_bytes 2 w.passwd_len ++ be_bytes 4 w.session_id))))

abbrev pub rest_bytes : WirePayload → Bytes
rest_bytes w =
    pointed w.username
    ++ (pointed w.passwd ++ (be_bytes 8 w.payload_len ++ payload_bytes w.payload))

abbrev pub wire_bytes : WirePayload → Bytes
wire_bytes w = ids_bytes w ++ rest_bytes w

-- A string that is not empty, and holds no 0, with its length.
abbrev pub IsText : ℕ → Option Bytes → Type 0
IsText len none = ⊥
IsText len (some s) = (len ≡ length s) × (s ≢ []) × Lacks 0 s × (len < 2 ^ 16)

abbrev pub IsPasswd : ℕ → UserPayload → Option Bytes → Type 0
IsPasswd payload_len u none = (u.passwd_len ≡ 0) × (payload_len ≡ 4 + u.username_len)
IsPasswd payload_len u (some s) =
    IsText u.passwd_len (some s) × (payload_len ≡ 6 + u.username_len + u.passwd_len)

abbrev pub IsStream : ℕ → Option Bytes → Type 0
IsStream len none = len ≡ 0
IsStream len (some s) = (len ≡ length s) × (s ≢ [])

-- The digest and the stream of a file, or neither.
abbrev pub IsFile : ℕ → StdPayload → Option Bytes → Type 0
IsFile payload_len p none =
    (p.byte_stream ≡ none) × (p.byte_stream_len ≡ 0) × (payload_len ≡ 2 + p.path_len)
IsFile payload_len p (some digest) =
    (length digest ≡ sha256_digest_length)
    × IsStream p.byte_stream_len p.byte_stream
    × (payload_len ≡ 2 + p.path_len + sha256_digest_length + p.byte_stream_len)

-- A payload of the kind that the operation calls for, with its length.
abbrev pub IsPayload : ℕ → ℕ → Payload → Type 0
IsPayload opt_code payload_len no_payload = opt_code ≡ act_local_operation
IsPayload opt_code payload_len (user_payload u) =
    (opt_code ≡ act_user_operation)
    × (u.user_flag < 256)
    × (u.user_perm < 256)
    × IsText u.username_len u.username
    × IsPasswd payload_len u u.passwd
IsPayload opt_code payload_len (std_payload p) =
    (opt_code ≢ act_user_operation)
    × (opt_code ≢ act_local_operation)
    × IsText p.path_len p.path
    × IsFile payload_len p p.hash_stream

-- A request whose fields fit and whose lengths are true.
pub record IsRequest (w : WirePayload) : Type 0 where
  pub opt_code_fits : w.opt_code < 256
  pub user_flag_fits : w.user_flag < 256
  pub session_id_fits : w.session_id < 2 ^ 32
  pub payload_len_fits : w.payload_len < 2 ^ 64
  pub named : IsText w.username_len w.username
  pub secret : IsText w.passwd_len w.passwd
  pub loaded : IsPayload w.opt_code w.payload_len w.payload
