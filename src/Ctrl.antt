-- ===== src/Ctrl.antt =====
-- src/server/server_ctrl.c: a request is authenticated, its session is checked or made, and the action
-- is performed if the user's permission allows it.
-- `now` is what `time` returns, and `rand i` what the i-th call of `rand` returns.
pub mod Action
pub mod Sessions
use bsle.Prelude.{
  ℕ, zero, suc, ◌+◌, ◌-◌, ◌*◌, ◌^◌, Bool, true, false, not, Option, none, some, Bytes, Run, ok,
  fault, stuck, ◌>>=◌, Mem, later, ltb, ◌==◌, if◌then◌else◌,
}
use Prim.Native.Nat.{bit_and, bit_or}
use bsle.Server.{
  RetCode, UserAccount, act_user_operation, act_delete_remote_file, act_list_remote_directory,
  act_get_remote_file, act_make_remote_directory, act_put_remote_file, act_local_operation,
  usr_act_create_user, usr_act_delete_user, perm_read_write, perm_admin,
}
use bsle.Paths.{f_ver_path_resolve, f_ver_valid_resolve}
use bsle.FileApi.{FileContent, f_create_dir, f_del_file, f_write_file}
use bsle.FileApi.Read.{f_read_file}
use bsle.FileApi.Listing.{f_list_dir}
use bsle.Wire.{
  StdPayload, UserPayload, Payload, no_payload, std_payload, user_payload, WirePayload, ActResp,
  get_err_msg, set_resp,
}
use bsle.Db.{Base, Db}

-- Four calls of `rand`, from the n-th on.
unfoldable pub gen_session : (ℕ → ℕ) → ℕ → ℕ
gen_session rand n =
    bit_or
      (bit_or (bit_or (bit_and (rand n) 0xff) (bit_and (rand (n + 1)) 0xff * 2 ^ 8))
        (bit_and (rand (n + 2)) 0xff * 2 ^ 16))
      (bit_and (rand (n + 3)) 0xff * 2 ^ 24)

-- `get_time`: one allocation.
pub get_time : Bool → ℕ → Option ℕ
get_time true now = some now
get_time false now = none

module _ (base : Base) where
  open base use {os, sessions}

  -- The loop that looks for a number that no session has.
  pub fresh_session : ℕ → (ℕ → ℕ) → ℕ → sessions.T → Run ℕ
  fresh_session zero rand n t = stuck
  fresh_session (suc fuel) rand n t =
      let again = fresh_session fuel rand (n + 4) t in
      elim (sessions.get t (gen_session rand n)) [ none ↦ ok (gen_session rand n) | some _ ↦ again ]

  -- The allocations are the key and the time. The code, the table, and the number of the request.
  unfoldable pub generate_session_id :
      ℕ → (ℕ → ℕ) → Mem → ℕ → sessions.T → ℕ → Run (RetCode × sessions.T × ℕ)
  unfolding fresh_session get_time
  generate_session_id fuel rand mem now t session_id = fresh_session fuel rand 0 t >>= λ sesh. ok (
      if mem 0
      then (RetCode.op_success, sessions.set t sesh (get_time (mem 1) now), sesh)
      else (RetCode.op_failure, t, session_id))

  -- The session was found, with its time; `*session_time` of NULL is a fault.
  renew : sessions.T → ℕ → ℕ → ℕ → Option ℕ → Run (RetCode × sessions.T)
  renew t session_id now timeout none = fault
  renew t session_id now timeout (some session_time) =
      if ltb timeout (now - session_time)
      then ok (RetCode.op_session_error, (sessions.del t session_id).1)
      else ok (RetCode.op_success, sessions.set t session_id (some now))

  -- The check of a session that the client names; one allocation, of the time.
  unfoldable pub check_session : Mem → ℕ → ℕ → sessions.T → ℕ → Run (RetCode × sessions.T)
  unfolding renew
  check_session mem now timeout t session_id = elim (sessions.get t session_id) [
    | none ↦ ok (RetCode.op_session_error, t)
    | some session_time ↦
        if mem 0 then renew t session_id now timeout session_time else ok (RetCode.op_failure, t)
  ]

  pub do_del_file : Mem → os.World → Db base → StdPayload → Run (RetCode × os.World)
  do_del_file mem w db std = f_ver_path_resolve os mem w (some db.home_dir) std.path >>= λ p.
      elim p [ none ↦ ok (RetCode.op_resolve_error, w) | some path ↦ f_del_file os w (some path) ]

  pub do_make_dir : Mem → os.World → Db base → StdPayload → Run (RetCode × os.World)
  do_make_dir mem w db std = f_ver_valid_resolve os mem w (some db.home_dir) std.path >>= λ p.
      ok (elim p [
        | none ↦ (RetCode.op_resolve_error, w)
        | some path ↦ f_create_dir os w (some path)
      ])

  -- A file that resolves exists already; the look-up has two allocations.
  unfoldable pub do_put_file : Mem → os.World → Db base → StdPayload → Run (RetCode × os.World)
  do_put_file mem w db std = f_ver_path_resolve os mem w (some db.home_dir) std.path >>= λ found.
      elim found [
        | some path ↦ ok (RetCode.op_file_exists, w)
        | none ↦ f_ver_valid_resolve os (later 2 mem) w (some db.home_dir) std.path >>= λ p.
            ok (elim p [
              | none ↦ (RetCode.op_resolve_error, w)
              | some path ↦ f_write_file os w (some path) std.byte_stream std.byte_stream_len
            ])
      ]

  -- The response for what was read, with the code for an empty stream.
  abbrev content_resp : RetCode → RetCode × Option FileContent → ActResp
  content_resp empty (code, none) = set_resp code
  content_resp empty (code, some content) =
      if content.stream_size == 0 then set_resp empty else record {
        msg = get_err_msg RetCode.op_success;
        result = RetCode.op_success;
        content = some content;
      }

  unfoldable pub do_get_file : Mem → os.World → Db base → StdPayload → Run (ActResp × os.World)
  do_get_file mem w db std = f_ver_path_resolve os mem w (some db.home_dir) std.path >>= λ p.
      elim p [
        | none ↦ ok (set_resp RetCode.op_resolve_error, w)
        | some path ↦ f_read_file os base.sha (later 2 mem) w (some path) >>= λ r.
            ok (content_resp RetCode.op_file_empty r.0, r.1)
      ]

  pub do_list_dir : Mem → os.World → Db base → StdPayload → Run (ActResp × os.World)
  do_list_dir mem w db std = f_ver_path_resolve os mem w (some db.home_dir) std.path >>= λ p.
      elim p [
        | none ↦ ok (set_resp RetCode.op_resolve_error, w)
        | some path ↦ f_list_dir os base.sha (later 2 mem) w (some path) >>= λ r.
            ok (content_resp RetCode.op_dir_empty r, w)
      ]
