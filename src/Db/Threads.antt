-- ===== src/Db/Threads.antt =====
-- db_create_user of src/server/server_db.c in several threads of the pool at once. Nothing is locked: a
-- thread looks the name up, makes an account, stores it and writes the files, and the other threads do the
-- same in between. Each look-up, each `htable_set` and each db_update_db is taken for one step: what two
-- of them do to the table when they overlap is not modelled.
pub mod Interleaved
use bsle.Prelude.{
  ℕ, ◌≡◌, Bool, true, false, Option, none, some, Bytes, length, Run, ok, ◌>>=◌, Mem, later, ◌==◌,
  if◌then◌else◌,
}
use bsle.Server.{RetCode, Hash, UserAccount}
use bsle.Crypto.{hash_byte_array}
use bsle.Db.{Base, Db, breaks_cred_rule, update_db}

-- The arguments of a call, and the allocations that it makes.
pub record Call : Type 0 where
  pub username : Bytes
  pub passwd : Bytes
  pub permission : ℕ
  pub mem : Mem

-- Where a thread is in its call: before the look-up, behind it with what it found, behind the insertion,
-- or at the end.
pub data Progress : Type 0 where
  waiting : Progress
  looked_up : Option UserAccount → Progress
  stored : Progress
  finished : RetCode → Progress

-- One thread goes on.
abbrev pub advance : (ℕ → Progress) → ℕ → Progress → ℕ → Progress
advance threads i p j = if i == j then p else threads j

-- The account with its hash, if there is one and memory for the account.
pub with_hash : Call → Option Hash → Option UserAccount
with_hash c none = none
with_hash c (some hash) =
    if later 3 c.mem 0
    then some (record { username = c.username; permission = c.permission; hash = hash })
    else none

module _ (base : Base) where
  open base use {os, sha, users}

  -- The copy of the name, the hash of the password and the account: `none` if memory runs out.
  pub made_account : Call → Option UserAccount
  unfolding with_hash
  made_account c =
      if c.mem 0
      then with_hash c (hash_byte_array sha (later 1 c.mem) (some c.passwd) (length c.passwd))
      else none

  -- `htable_set`
  abbrev pub insert : Db base → Bytes → UserAccount → Db base
  insert db username a = record db { users_htable = users.set db.users_htable username a }

  -- `db_update_db` at the end of a call.
  abbrev pub save_all : Call → os.World → Db base → Run os.World
  save_all c w db = update_db base (later 1 (later 3 c.mem)) w db

  module _ (calls : ℕ → Call) where
    -- The memory that the threads share, and where each of them is.
    pub record Shared : Type 0 where
      pub db : Db base
      pub world : os.World
      pub threads : ℕ → Progress

    -- One step of thread i: the look-up, where name and password keep the rule; the end if the name is
    -- taken, or there is no memory for the account; the insertion; the writing of the files.
    pub data Move (s : Shared) : Shared → Type 0 where
      look_up :
          (i : ℕ)
          → s.threads i ≡ waiting
          → breaks_cred_rule base (calls i).username (calls i).passwd ≡ false
          → Move s (record s {
            threads =
                advance s.threads i (looked_up (users.get s.db.users_htable (calls i).username));
          })
      taken :
          (i : ℕ) (user : UserAccount)
          → s.threads i ≡ looked_up (some user)
          → Move s (record s { threads = advance s.threads i (finished RetCode.op_user_exists) })
      no_memory :
          (i : ℕ)
          → s.threads i ≡ looked_up none
          → made_account (calls i) ≡ none
          → Move s (record s { threads = advance s.threads i (finished RetCode.op_failure) })
      store :
          (i : ℕ) (a : UserAccount)
          → s.threads i ≡ looked_up none
          → made_account (calls i) ≡ some a
          → Move s (record s {
            db = insert s.db (calls i).username a;
            threads = advance s.threads i stored;
          })
      save :
          (i : ℕ) (w' : os.World)
          → s.threads i ≡ stored
          → save_all (calls i) s.world s.db ≡ ok w'
          → Move s
              (record s { world = w'; threads = advance s.threads i (finished RetCode.op_success) })

    -- Any interleaving of the threads.
    pub data Moves (s : Shared) : Shared → Type 0 where
      start : Moves s s
      then_move : {s' s'' : Shared} → Moves s s' → Move s' s'' → Moves s s''
