-- ===== src/Tests/Accounts.antt =====
-- Runs of the theorems on users and on the file of users.
use bsle.Prelude.{
  ◌>>=◌, ◌<◌, ◌≡◌, ◌≢◌, refl, none, some, List, [], ◌∷◌, ◌++◌, arith, codes, ok, Bytes, length,
}
use bsle.Server.{RetCode, UserAccount}
use bsle.Crypto.{hash_byte_array, hash_hash_t_match, hash_compare}
use bsle.Db.{Db, db_create_user, db_remove_user, db_authenticate_user, accounts_of}
use bsle.Db.Files.{db_update_db}
use bsle.Db.Codec.{string_at, row_text, populate_htable}
use bsle.Db.Codec.Colon.{populate_htable_colon}
use bsle.Db.Users.{account}
use bsle.Db.Refused.{db_create_user_failed}
use bsle.Db.Sound.{IsSound, IsPlain, db_create_user-IsSound}
use bsle.Db.Abstract.{UserMap, Call, create, remove, login, Answer, run_calls, Stands}
use bsle.Db.Abstract.Refines.{Replayed, run_calls-Replayed}
use bsle.Tests.World.{base, roomy, empty_db}

abbrev name : Bytes
name = codes "alice"

abbrev passwd : Bytes
passwd = codes "secret"

-- The account, and the database that holds it alone.
abbrev pub alice : UserAccount
alice = account base name passwd 1

abbrev pub alice_db : Db base
alice_db = record empty_db { users_htable = base.users.set base.users.create name alice }

-- The file system, with nothing on it.
abbrev no_file : Bytes
no_file = []

-- The database after the account is removed.
abbrev left_db : Db base
left_db = record empty_db { users_htable = (base.users.del alice_db.users_htable name).1 }

alice_made :
    db_create_user base roomy [] empty_db (some name) (some passwd) 1
    ≡ ok (RetCode.op_success, alice_db, [])
unfolding db_create_user hash_byte_array db_update_db
alice_made = refl

alice_removed :
    db_remove_user base roomy [] alice_db (some name) ≡ ok (RetCode.op_success, left_db, [])
unfolding db_remove_user db_update_db
alice_removed = refl

empty-IsSound : IsSound base empty_db.users_htable
empty-IsSound k a found = cc

alice-IsPlain : IsPlain base name
alice-IsPlain = record {
  no_colon = (omega arith, (omega arith, (omega arith, (omega arith, (omega arith, tt)))));
  no_newline = (omega arith, (omega arith, (omega arith, (omega arith, (omega arith, tt)))));
  no_nul = (omega arith, (omega arith, (omega arith, (omega arith, (omega arith, tt)))));
}

pub alice-IsSound : IsSound base alice_db.users_htable
alice-IsSound =
    db_create_user-IsSound base roomy [] empty_db name passwd 1 empty-IsSound alice-IsPlain
      (omega arith) alice_made

name_taken :
    db_create_user base roomy [] alice_db (some name) (some passwd) 3
    ≡ ok (RetCode.op_user_exists, alice_db, [])
unfolding db_create_user
name_taken = refl

exists_not_success : RetCode.op_user_exists ≢ RetCode.op_success
exists_not_success = λ e. cc

db_create_user_failed_example : (alice_db ≡ alice_db) × (no_file ≡ no_file)
db_create_user_failed_example =
    db_create_user_failed base roomy [] alice_db (some name) (some passwd) 3 exists_not_success
      name_taken

db_create_user-IsSound_example : IsSound base alice_db.users_htable
db_create_user-IsSound_example =
    db_create_user-IsSound base roomy [] empty_db name passwd 1 empty-IsSound alice-IsPlain
      (omega arith) alice_made

pub one_round_more : length (accounts_of base alice_db.users_htable) < 2
unfolding accounts_of
one_round_more = omega arith

-- The row of the user `bob:xy` with the permission READ.
abbrev colon_row : Bytes
colon_row = row_text (codes "bob:xy") 1 (codes "00")

bob_not_empty : codes "bob" ≢ []
bob_not_empty = λ e. cc

populate_htable_colon_example :
    populate_htable base.users
      (some [])
      9
      roomy
      base.users.create
      (colon_row ++ [])
      (length (colon_row ++ []))
    ≡ (string_at (some []) (colon_row ++ []) >>= λ u. ok none)
populate_htable_colon_example =
    populate_htable_colon base.users (some []) 8 roomy base.users.create (codes "bob") (codes "y")
      120 1 (codes "00") [] bob_not_empty (omega arith, (omega arith, (omega arith, tt)))
      (omega arith, (omega arith, (omega arith, tt))) (omega arith) (omega arith)

-- A table with no entries, and the map with none.
abbrev nobody : UserMap
nobody k = none

nobody-Stands : Stands base base.users.create nobody
nobody-Stands = record { looks = λ k. refl; full = λ k a found. cc }

-- A user is made, guesses, and is removed.
abbrev calls : List Call
calls =
    create roomy name passwd 1
    ∷ login roomy name (codes "wrong password")
    ∷ login roomy name passwd
    ∷ remove roomy name
    ∷ login roomy name passwd
    ∷ []

abbrev answers : List Answer
answers =
    (RetCode.op_success, none)
    ∷ (RetCode.op_user_auth, none)
    ∷ (RetCode.op_success, some alice)
    ∷ (RetCode.op_success, none)
    ∷ (RetCode.op_user_auth, none)
    ∷ []

calls_ran : run_calls base calls [] empty_db ≡ ok (answers, left_db, [])
unfolding run_calls db_create_user hash_byte_array db_update_db db_remove_user db_authenticate_user
    hash_hash_t_match hash_compare
calls_ran = refl

run_calls-Replayed_example : Replayed base calls nobody answers left_db.users_htable
run_calls-Replayed_example =
    run_calls-Replayed base calls [] empty_db nobody nobody-Stands calls_ran
