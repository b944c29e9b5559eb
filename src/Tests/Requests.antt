-- ===== src/Tests/Requests.antt =====
-- Runs of the theorems on paths, sessions and requests.
use bsle.Prelude.{
  ◌⊎◌, later, ℕ, ◌+◌, ◌*◌, ◌≤◌, ◌≡◌, ◌≢◌, refl, inl, inr, Option, none, some, [], ◌∷◌, ◌++◌, arith,
  codes, replicate, ok, fault, Bytes, length, drop,
}
use bsle.Crypto.{hash_hash_t_match}
use bsle.Crypto.{hash_compare}
use bsle.Server.{RetCode, UserAccount, act_put_remote_file, act_user_operation, usr_act_create_user}
use bsle.Os.{Os}
use bsle.Paths.{path_max, dirname, f_path_resolve, f_valid_resolve}
use bsle.Paths.Join.{joined}
use bsle.Paths.Resolve.{
  Resolved, f_path_resolve_inside, f_path_resolve_prefix, f_valid_resolve_overflow,
}
use bsle.Crypto.{hash_byte_array}
use bsle.Db.Files.{db_update_db}
use bsle.Ctrl.Action.Handler.{ctrl_parse_action_no_escalation}
use bsle.Db.{Db, db_create_user, db_authenticate_user}
use bsle.Db.Users.{account, db_authenticate_user-digest}
use bsle.Wire.{UserPayload, no_payload, user_payload, WirePayload, set_resp}
use bsle.Ctrl.{gen_session, generate_session_id, check_session}
use bsle.Ctrl.Sessions.{generate_session_id_fresh}
use bsle.Ctrl.Action.{Env, session_step, perform, ctrl_parse_action}
use bsle.Ctrl.Action.Guards.{
  ctrl_parse_action_unauthenticated, ctrl_parse_action_no_session, perform_read_only,
  perform_user_guards,
}
use bsle.Tests.World.{disk, base, roomy, home, empty_db}

f_path_resolve_inside_example :
    (r : Option Bytes) × (f_path_resolve disk roomy [] (some home) (some (codes "a.txt")) ≡ ok r)
    × Resolved
        (λ path.
          (disk.realpath [] (joined home (codes "a.txt")) ≡ some path)
          × (path ≡ home ++ drop (length home) path)
          × (length home + length (codes "a.txt") + 2 ≤ path_max))
        r
f_path_resolve_inside_example = f_path_resolve_inside disk roomy [] home (codes "a.txt")

-- A machine on which the path leads into a directory beside the home directory.
abbrev linked : Os
linked = record disk { realpath = λ w path. some (codes "/srv2/key") }

f_path_resolve_prefix_example :
    f_path_resolve linked roomy [] (some home) (some (codes "../srv2/key"))
    ≡ ok (some (codes "/srv2/key"))
f_path_resolve_prefix_example =
    f_path_resolve_prefix linked roomy [] home (codes "../srv2/key") (codes "2/key") refl refl
      (omega arith) refl

-- A file in a directory whose name is as long as a path may be.
abbrev long_child : Bytes
long_child = replicate 4096 b'a' ++ b'/' ∷ b'b' ∷ []

long_dir : path_max ≤ length (joined home (dirname long_child))
unfolding dirname
long_dir = omega arith

f_valid_resolve_overflow_example :
    f_valid_resolve disk roomy [] (some home) (some long_child) ≡ fault
f_valid_resolve_overflow_example =
    f_valid_resolve_overflow disk roomy [] home long_child refl long_dir

abbrev name : Bytes
name = codes "alice"

abbrev passwd : Bytes
passwd = codes "secret"

abbrev alice : UserAccount
alice = account base name passwd 1

-- One user and one session, number 9, that began at 50.
abbrev db : Db base
db = record empty_db {
  users_htable = base.users.set base.users.create name alice;
  sesh_htable = base.sessions.set base.sessions.create 9 (some 50);
}

-- Every call of `rand` returns 1.
abbrev ones : ℕ → ℕ
ones i = 1

abbrev env : Env base
env = record { fuel = 2; rand = ones; now = 100; timeout = 60 }

-- A request of alice to put a file.
abbrev put : WirePayload
put = record {
  opt_code = act_put_remote_file;
  user_flag = 0;
  username_len = 5;
  passwd_len = 6;
  session_id = 7;
  username = some name;
  passwd = some passwd;
  payload_len = 0;
  payload = no_payload;
}

first_free : base.sessions.get db.sesh_htable (gen_session ones (0 + 4 * 0)) ≡ none
unfolding gen_session
first_free = refl

-- The table with the new session.
abbrev begun : base.sessions.T
begun = base.sessions.set db.sesh_htable 0x01010101 (some 100)

session_begun :
    generate_session_id base 2 ones roomy 100 db.sesh_htable 0
    ≡ ok (RetCode.op_success, begun, 0x01010101)
unfolding generate_session_id gen_session
session_begun = refl

generate_session_id_fresh_example :
    (base.sessions.get db.sesh_htable 0x01010101 ≡ none)
    × (base.sessions.get begun 9 ≡ some (some 50))
generate_session_id_fresh_example =
    generate_session_id_fresh base 2 ones roomy 100 db.sesh_htable begun 0 0x01010101 9
      session_begun

-- The same request with a wrong password.
abbrev guess : WirePayload
guess = record put { passwd = some (codes "guess") }

wrong_password :
    db_authenticate_user base roomy db guess.username guess.passwd ≡ ok (RetCode.op_user_auth, none)
wrong_password =
    db_authenticate_user-digest base roomy db name (codes "guess") alice refl refl refl refl

auth_not_success : RetCode.op_user_auth ≢ RetCode.op_success
auth_not_success = λ e. cc

unauthenticated :
    ctrl_parse_action base roomy env [] db guess
    ≡ ok (some ((set_resp RetCode.op_user_auth, db, []), 7))
unauthenticated =
    ctrl_parse_action_unauthenticated base roomy env [] db guess RetCode.op_user_auth none refl
      wrong_password auth_not_success

right_password :
    db_authenticate_user base roomy db put.username put.passwd ≡ ok (RetCode.op_success, some alice)
right_password = db_authenticate_user-digest base roomy db name passwd alice refl refl refl refl

no_session :
    session_step base roomy env db.sesh_htable 7 ≡ ok (RetCode.op_session_error, db.sesh_htable, 7)
unfolding session_step check_session
no_session = refl

session_not_success : RetCode.op_session_error ≢ RetCode.op_success
session_not_success = λ e. cc

no_session_refused :
    ctrl_parse_action base roomy env [] db put
    ≡ ok (some ((set_resp RetCode.op_session_error, db, []), 7))
no_session_refused =
    ctrl_parse_action_no_session base roomy env [] db put alice RetCode.op_session_error
      db.sesh_htable 7 refl right_password no_session session_not_success

read_only : perform base roomy [] db alice put ≡ ok (set_resp RetCode.op_permission_error, db, [])
read_only = perform_read_only base roomy [] db alice put (omega arith) (inr (inr refl))

-- A request of alice to make an administrator.
abbrev promotion : UserPayload
promotion = record {
  user_flag = usr_act_create_user;
  user_perm = 3;
  username_len = 3;
  username = some (codes "bob");
  passwd_len = 6;
  passwd = some passwd;
}

abbrev promote : WirePayload
promote = record put { opt_code = act_user_operation; payload = user_payload promotion }

user_guards :
    perform base roomy [] db alice promote ≡ ok (set_resp RetCode.op_permission_error, db, [])
user_guards =
    perform_user_guards base roomy [] db alice promote promotion refl refl (inl (refl, omega arith))

-- An administrator and a user with READ_WRITE, who makes a third user.
abbrev admin : UserAccount
admin = account base (codes "admin") (codes "password") 3

abbrev writer : UserAccount
writer = account base name passwd 2

abbrev two_users : Db base
two_users = record empty_db {
  users_htable =
      base.users.set (base.users.set base.users.create (codes "admin") admin) name writer;
}

abbrev new_user : UserPayload
new_user = record promotion { user_perm = 2 }

abbrev three_users : Db base
three_users = record empty_db {
  users_htable =
      base.users.set two_users.users_htable (codes "bob") (account base (codes "bob") passwd 2);
}

bob_made :
    perform base roomy [] two_users writer (record promote { payload = user_payload new_user })
    ≡ ok (set_resp RetCode.op_success, three_users, [])
unfolding perform db_create_user hash_byte_array db_update_db
bob_made = refl

-- The same with a live session, through the whole handler.
abbrev two_live : Db base
two_live = record two_users { sesh_htable = base.sessions.set base.sessions.create 9 (some 50) }

abbrev three_live : Db base
three_live = record three_users {
  sesh_htable = base.sessions.set two_live.sesh_htable 9 (some 100);
}

abbrev live_request : WirePayload
live_request = record promote { payload = user_payload new_user; session_id = 9 }

bob_served :
    ctrl_parse_action base roomy env [] two_live live_request
    ≡ ok (some ((set_resp RetCode.op_success, three_live, []), 9))
unfolding ctrl_parse_action db_authenticate_user hash_hash_t_match hash_compare hash_byte_array
    check_session db_create_user db_update_db
bob_served = refl

ctrl_parse_action_no_escalation_example :
    (base.users.get two_live.users_htable (codes "bob")
      ≡ some (account base (codes "bob") passwd 2))
    ⊎ ((user : UserAccount) × (db_authenticate_user base
            (later 1 roomy)
            two_live
            live_request.username
            live_request.passwd
          ≡ ok (RetCode.op_success, some user))
        × (2 ≤ user.permission))
ctrl_parse_action_no_escalation_example =
    ctrl_parse_action_no_escalation base [] two_live live_request (set_resp RetCode.op_success)
      three_live [] 9 (codes "bob") (account base (codes "bob") passwd 2) refl roomy env bob_served
