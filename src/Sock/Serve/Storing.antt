-- ===== src/Sock/Serve/Storing.antt =====
-- The requests that put and get a file, and do_put_file and do_get_file of src/server/server_ctrl.c where
-- nothing is in their way.
pub mod RoundTrip
use bsle.Prelude.{
  true, if_true, if_false, ◌∷◌, ℕ, ◌+◌, ◌^◌, ◌≤◌, ◌<◌, ◌≡◌, ◌≢◌, ◌∙◌, ap, refl, sym, subst, false,
  none, some, List, [], ◌++◌, append_assoc, Bytes, length, ok, plenty, arith, eq_bytes, le→ltb,
  ==_ne, ==_refl,
}
use bsle.Server.{RetCode, UserAccount, act_put_remote_file, act_get_remote_file, perm_read_write}
use bsle.Paths.{path_max, basename}
use bsle.Paths.Join.{joined}
use bsle.Paths.Resolve.{f_ver_path_resolve_missing, f_ver_path_resolve_prefix}
use bsle.Paths.Valid.{IsPlace, joined_behind, f_ver_valid_resolve_place}
use bsle.FileApi.Write.{IsWritten, f_write_file_whole}
use bsle.FileApi.Read.Holds.{IsOnDisk, f_read_file-IsOnDisk}
use bsle.Wire.{StdPayload, std_payload, WirePayload, ActResp, set_resp}
use bsle.Db.{Base, Db}
use bsle.Ctrl.{do_put_file, do_get_file}
use bsle.Ctrl.Action.{Env, write_operation, read_operation, perform}
use bsle.Sock.{Conn}
use bsle.Sock.Stream.{arrive}
use bsle.Sock.Read.Encode.{wire_bytes, IsText, IsRequest}
use bsle.Sock.Write.{WriteEvent}
use bsle.Sock.Write.Sending.{Progress, sent_bytes}
use bsle.Sock.Write.Answer.{
  answer_bytes, content_bytes, content_resp, whole_file, length-msg_success,
  write_response_answered, write_response_content,
}
use bsle.Sock.Serve.{serve_client}
use bsle.Sock.Serve.SignedOn.{signed_request, IsSignedOn, renewed, serve_client_signed_on}

-- A file as a client sends it: its path, what it says is the digest, and the bytes.
pub record Sent : Type 0 where
  pub path : Bytes
  pub digest : Bytes
  pub stream : Bytes

abbrev pub put_payload : Sent → StdPayload
put_payload f = record {
  path_len = length f.path;
  path = some f.path;
  byte_stream = some f.stream;
  hash_stream = some f.digest;
  byte_stream_len = length f.stream;
}

abbrev pub get_payload : Bytes → StdPayload
get_payload path = record {
  path_len = length path;
  path = some path;
  byte_stream = none;
  hash_stream = none;
  byte_stream_len = 0;
}

abbrev pub put_len : Sent → ℕ
put_len f = 2 + length f.path + 32 + length f.stream

abbrev pub put_request : Bytes → Bytes → ℕ → Sent → WirePayload
put_request name passwd sesh f =
    signed_request name passwd sesh act_put_remote_file (put_len f) (std_payload (put_payload f))

abbrev pub get_request : Bytes → Bytes → ℕ → Bytes → WirePayload
get_request name passwd sesh path =
    signed_request name passwd sesh act_get_remote_file (2 + length path)
      (std_payload (get_payload path))

-- A file that can be sent.
pub record IsSendable (f : Sent) : Type 0 where
  pub path_text : IsText (length f.path) (some f.path)
  pub sized : length f.digest ≡ 32
  pub filled : f.stream ≢ []
  pub small : length f.stream < 2 ^ 63

length-ne_zero : (s : Bytes) → s ≢ [] → length s ≢ 0
length-ne_zero [] filled = absurd (filled refl)
length-ne_zero (c ∷ s) filled = omega arith

pub put_request-IsRequest :
    (name passwd : Bytes) (sesh : ℕ) (f : Sent)
    → sesh < 2 ^ 32
    → IsText (length name) (some name)
    → IsText (length passwd) (some passwd)
    → IsSendable f
    → IsRequest (put_request name passwd sesh f)
put_request-IsRequest name passwd sesh f small named secret s = record {
  opt_code_fits = omega arith;
  user_flag_fits = omega arith;
  session_id_fits = small;
  payload_len_fits = omega (arith, s.small, s.path_text.3);
  named = named;
  secret = secret;
  loaded = (omega arith, omega arith, s.path_text, (s.sized, (refl, s.filled), refl));
}

pub get_request-IsRequest :
    (name passwd : Bytes) (sesh : ℕ) (f : Sent)
    → sesh < 2 ^ 32
    → IsText (length name) (some name)
    → IsText (length passwd) (some passwd)
    → IsSendable f
    → IsRequest (get_request name passwd sesh f.path)
get_request-IsRequest name passwd sesh f small named secret s = record {
  opt_code_fits = omega arith;
  user_flag_fits = omega arith;
  session_id_fits = small;
  payload_len_fits = omega (arith, s.path_text.3);
  named = named;
  secret = secret;
  loaded = (omega arith, omega arith, s.path_text, (refl, refl, refl));
}

module _ (base : Base) where
  open base use {os, sha, users, sessions}

  -- The file is new: it is not there, its directory is below the home directory, and it takes the bytes.
  pub record IsNew (w : os.World) (home rest : Bytes) (f : Sent) (w' : os.World) : Type 0 where
    pub fits : length home + length f.path + 2 ≤ path_max
    pub missing : os.realpath w (joined home f.path) ≡ none
    pub place : IsPlace os w home f.path rest
    pub written : IsWritten os w (joined (home ++ rest) (basename f.path)) f.stream w'

  -- The file is found where it was written, and read as it was written.
  pub record IsKept (w : os.World) (home rest : Bytes) (f : Sent) (w' : os.World) : Type 0 where
    pub real : os.realpath w (joined home f.path) ≡ some (joined (home ++ rest) (basename f.path))
    pub on_disk : IsOnDisk os w (joined (home ++ rest) (basename f.path)) f.stream w'

  pub do_put_file-new :
      (w w' : os.World) (db : Db base) (rest : Bytes) (f : Sent)
      → IsNew w db.home_dir rest f w'
      → do_put_file base plenty w db (put_payload f) ≡ ok (RetCode.op_success, w')
  unfolding do_put_file
  do_put_file-new w w' db rest f new =
      rw (f_ver_path_resolve_missing os plenty w db.home_dir f.path refl new.fits new.missing) (
        rw (f_ver_valid_resolve_place os w db.home_dir f.path rest new.place) (
          rw
            (f_write_file_whole os w (joined (db.home_dir ++ rest) (basename f.path)) f.stream w'
              new.written)
            refl))

  pub do_get_file-kept :
      (w w' : os.World) (db : Db base) (rest : Bytes) (f : Sent)
      → length db.home_dir + length f.path + 2 ≤ path_max
      → f.stream ≢ []
      → IsKept w db.home_dir rest f w'
      → do_get_file base plenty w db (get_payload f.path)
        ≡ ok (
          content_resp (
              whole_file
                (joined (db.home_dir ++ rest) (basename f.path))
                (sha.digest f.stream)
                f.stream),
          w',
        )
  unfolding do_get_file
  do_get_file-kept w w' db rest f fits filled kept =
      let path = joined (db.home_dir ++ rest) (basename f.path) in
      let (behind, e) = joined_behind (db.home_dir ++ rest) (basename f.path) in
      let below : path ≡ db.home_dir ++ (rest ++ behind) =
        e ∙ append_assoc db.home_dir rest behind in
      let found =
        f_ver_path_resolve_prefix os plenty w db.home_dir f.path (rest ++ behind) refl refl fits
          (kept.real ∙ ap some below) in
      rw (found ∙ ap (λ (p : Bytes). ok (some p)) (sym below)) (
        rw (f_read_file-IsOnDisk os sha w path f.stream w' kept.on_disk) (
          ap (λ (r : ActResp). ok (r, w'))
            (if_false (set_resp RetCode.op_file_empty)
              (content_resp (whole_file path (sha.digest f.stream) f.stream))
              (==_ne (length f.stream) 0 (length-ne_zero f.stream filled)))))
