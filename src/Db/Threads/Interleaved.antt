-- ===== src/Db/Threads/Interleaved.antt =====
-- What threads that create users at once do to the accounts.
use bsle.Prelude.{
  bind_ok, Run, ◌>>=◌, ℕ, ◌≤◌, ◌≡◌, ◌≢◌, inl, inr, refl, sym, ap, subst, ◌∙◌, false, Bool-cases,
  Option, none, some, some_injective, Bytes, length, ok, later, ==_refl, ==_ne, eq_bytes,
  eq_bytes→eq, eq_bytes_refl,
}
use bsle.Server.{RetCode, Hash, UserAccount}
use bsle.Crypto.{hash_byte_array}
use bsle.Crypto.Compare.{hash_byte_array-some}
use bsle.Db.{Base, Db, breaks_cred_rule, add_account, create_checked}
use bsle.Db.Registered.{IsRegistered, account-IsRegistered}
use bsle.Db.Users.{account}
use bsle.Db.Threads.{
  Call, Progress, waiting, looked_up, stored, finished, advance, with_hash, made_account, insert,
  save_all, Shared, Move, look_up, taken, no_memory, store, save, Moves, start, then_move,
}

module _ (base : Base) where
  open base use {os, sha, users}

  made_hash :
      (c : Call) (h : Option Hash) (a : UserAccount)
      → ((hash : Hash) → h ≡ some hash → hash ≡ record { size = 32; array = sha.digest c.passwd })
      → with_hash c h ≡ some a
      → a ≡ account base c.username c.passwd c.permission
  unfolding with_hash
  made_hash c none a digest e = cc
  made_hash c (some hash) a digest e = elim (Bool-cases (later 3 c.mem 0)) [
    | inl m ↦
        let made = some_injective (rw m at e) in
        sym made
        ∙ ap (λ (x : Hash). record { username = c.username; permission = c.permission; hash = x })
            (digest hash refl)
    | inr m ↦ cc (rw m at e)
  ]

  -- The account that is made has the digest of the password.
  made_account-account :
      (c : Call) (a : UserAccount)
      → made_account base c ≡ some a
      → a ≡ account base c.username c.passwd c.permission
  unfolding made_account
  made_account-account c a e = elim (Bool-cases (c.mem 0)) [
    | inl m ↦
        made_hash c (hash_byte_array sha (later 1 c.mem) (some c.passwd) (length c.passwd)) a
          (λ hash. hash_byte_array-some sha (later 1 c.mem) c.passwd (length c.passwd)) (rw m at e)
    | inr m ↦ cc (rw m at e)
  ]

  -- The steps behind the look-up, one after the other.
  abbrev steps : Call → os.World → Db base → Option UserAccount → Run (RetCode × Db base × os.World)
  steps c w db none = ok (RetCode.op_failure, db, w)
  steps c w db (some a) = save_all base c w (insert base db c.username a) >>= λ w'.
      ok (RetCode.op_success, insert base db c.username a, w')

  add_account-steps :
      (c : Call) (w : os.World) (db : Db base) (h : Option Hash)
      → add_account base (later 3 c.mem) w db c.username c.permission h
        ≡ steps c w db (with_hash c h)
  unfolding add_account with_hash
  add_account-steps c w db none = refl
  add_account-steps c w db (some hash) = elim (Bool-cases (later 3 c.mem 0)) [
    | inl m ↦ rw m refl
    | inr m ↦ rw m refl
  ]

  -- A call that is not interrupted does what `db_create_user` does behind its look-up.
  create_checked-steps :
      (c : Call) (w : os.World) (db : Db base)
      → create_checked base c.mem w db c.username c.passwd c.permission none
        ≡ steps c w db (made_account base c)
  unfolding create_checked made_account
  create_checked-steps c w db = elim (Bool-cases (c.mem 0)) [
    | inl m ↦ rw m (
        add_account-steps c w db
          (hash_byte_array sha (later 1 c.mem) (some c.passwd) (length c.passwd)))
    | inr m ↦ rw m refl
  ]

  steps-success :
      (c : Call) (w : os.World) (db : Db base) (o : Option UserAccount) {db' : Db base}
      {w' : os.World}
      → steps c w db o ≡ ok (RetCode.op_success, db', w')
      → (a : UserAccount) × (o ≡ some a)
        × (db' ≡ insert base db c.username a)
        × (save_all base c w (insert base db c.username a) ≡ ok w')
  steps-success c w db none e = cc
  steps-success c w db (some a) {db'} {w'} e =
      let db1 = insert base db c.username a in
      let (w1, saved, rest) =
        bind_ok (save_all base c w db1) (λ w2. ok (RetCode.op_success, db1, w2)) e in
      let same : w1 ≡ w' = cc in (a, refl, cc, saved ∙ ap (λ (x : os.World). ok x) same)

  -- The table with the account of a call.
  abbrev with_account : Db base → Call → Db base
  with_account db c = insert base db c.username (account base c.username c.passwd c.permission)

  with_account_found :
      (db : Db base) (c : Call)
      → users.get (with_account db c).users_htable c.username
        ≡ some (account base c.username c.passwd c.permission)
  with_account_found db c =
      users.get-set db.users_htable c.username c.username
        (account base c.username c.passwd c.permission)
      ∙ rw (eq_bytes_refl c.username) refl

  -- Every account is registered.
  abbrev pub AllRegistered : ℕ → Db base → Type 0
  AllRegistered limit db =
      (name : Bytes) (a : UserAccount)
      → users.get db.users_htable name ≡ some a
      → IsRegistered limit name a

  with_account-AllRegistered :
      (limit : ℕ) (db : Db base) (c : Call)
      → c.permission ≤ limit
      → AllRegistered limit db
      → AllRegistered limit (with_account db c)
  with_account-AllRegistered limit db c low made name a found =
      let acct = account base c.username c.passwd c.permission in
      let e = sym (users.get-set db.users_htable c.username name acct) ∙ found in
      elim (Bool-cases (eq_bytes c.username name)) [
        | inl same ↦
            let is = some_injective (rw same at e) in
            subst (λ (k : Bytes). IsRegistered limit k a) (eq_bytes→eq c.username name same)
              (rw (← is) (account-IsRegistered base limit c.username c.passwd c.permission low))
        | inr other ↦ made name a (rw other at e)
      ]

  module _ (calls : ℕ → Call) where
    Move-AllRegistered :
        (limit : ℕ) {s s' : Shared base calls}
        → ((i : ℕ) → (calls i).permission ≤ limit)
        → AllRegistered limit s.db
        → Move base calls s s'
        → AllRegistered limit s'.db
    Move-AllRegistered limit low made (look_up i idle rule) = made
    Move-AllRegistered limit low made (taken i user saw) = made
    Move-AllRegistered limit low made (no_memory i saw spent) = made
    Move-AllRegistered limit {s} low made (store i a saw is) =
        rw (made_account-account (calls i) a is)
          (with_account-AllRegistered limit s.db (calls i) (low i) made)
    Move-AllRegistered limit low made (save i w' saw saved) = made

    -- In whatever order threads that create users look names up, insert accounts into the table and write
    -- the files, each of these done as a whole: every account stays under its own name, with a hash of 32
    -- bytes and at most the limit of the permissions that were there and that the calls ask for.
    pub Moves-AllRegistered :
        (limit : ℕ) {s s' : Shared base calls}
        → ((i : ℕ) → (calls i).permission ≤ limit)
        → AllRegistered limit s.db
        → Moves base calls s s'
        → AllRegistered limit s'.db
    Moves-AllRegistered limit low made start = made
    Moves-AllRegistered limit low made (then_move run move) =
        Move-AllRegistered limit low (Moves-AllRegistered limit low made run) move

    -- Two threads that create the same user. If the name is free, names and passwords keep the rule, and
    -- what follows the two look-ups returns OP_SUCCESS for both, then there is an interleaving in which
    -- both answer OP_SUCCESS, and the account has the password and the permission of the second only.
    pub Moves_both_created :
        (i j : ℕ) (db db1 db2 : Db base) (w w1 w2 : os.World)
        → i ≢ j
        → (calls i).username ≡ (calls j).username
        → breaks_cred_rule base (calls i).username (calls i).passwd ≡ false
        → breaks_cred_rule base (calls j).username (calls j).passwd ≡ false
        → users.get db.users_htable (calls j).username ≡ none
        → create_checked base
            (calls i).mem
            w
            db
            (calls i).username
            (calls i).passwd
            (calls i).permission
            none
          ≡ ok (RetCode.op_success, db1, w1)
        → create_checked base
            (calls j).mem
            w1
            db1
            (calls j).username
            (calls j).passwd
            (calls j).permission
            none
          ≡ ok (RetCode.op_success, db2, w2)
        → (s : Shared base calls) × Moves base calls
            (record { db = db; world = w; threads = λ k. waiting })
            s
          × (s.threads i ≡ finished RetCode.op_success)
          × (s.threads j ≡ finished RetCode.op_success)
          × (users.get s.db.users_htable (calls j).username
              ≡ some (account base (calls j).username (calls j).passwd (calls j).permission))
    Moves_both_created i j db db1 db2 w w1 w2 apart same rule_i rule_j free first second =
        let name_i = (calls i).username in
        let name_j = (calls j).username in
        let (a, made_i, is_1, saved_i) =
          steps-success (calls i) w db (made_account base (calls i))
            (sym (create_checked-steps (calls i) w db) ∙ first) in
        let (b, made_j, is_2, saved_j) =
          steps-success (calls j) w1 db1 (made_account base (calls j))
            (sym (create_checked-steps (calls j) w1 db1) ∙ second) in
        let after_i = insert base db name_i a in
        let after_j = insert base after_i name_j b in
        let seen_i = users.get db.users_htable name_i in
        let seen_j = users.get db.users_htable name_j in
        let before : ℕ → Progress = λ k. waiting in
        let one = advance before i (looked_up seen_i) in
        let two = advance one j (looked_up seen_j) in
        let three = advance two i stored in
        let four = advance three i (finished RetCode.op_success) in
        let five = advance four j stored in
        let six = advance five j (finished RetCode.op_success) in
        let i_j = ==_ne i j apart in
        let j_i = ==_ne j i (λ e. apart (sym e)) in
        let none_i : seen_i ≡ none = ap (users.get db.users_htable) same ∙ free in
        let saw_i : two i ≡ looked_up none = rw j_i (rw (==_refl i) (ap looked_up none_i)) in
        let saw_j : four j ≡ looked_up none = rw i_j (rw (==_refl j) (ap looked_up free)) in
        let saved : save_all base (calls j) w1 after_j ≡ ok w2 =
          ap (λ (d : Db base). save_all base (calls j) w1 (insert base d name_j b)) (sym is_1)
          ∙ saved_j in
        (
          record { db = after_j; world = w2; threads = six },
          then_move
              (then_move
                (then_move
                  (then_move
                    (then_move (then_move start (look_up i refl rule_i))
                      (look_up j (rw i_j) rule_j))
                    (store i a saw_i made_i))
                  (save i w1 (rw (==_refl i) refl) saved_i))
                (store j b saw_j made_j))
              (save j w2 (rw (==_refl j) refl) saved),
          rw j_i (rw (==_refl i) refl),
          rw (==_refl j) refl,
          rw (made_account-account (calls j) b made_j) (with_account_found after_i (calls j)),
        )
