-- ===== src/Sock/Serve/Bounds.antt =====
-- The buffer of db_update_db of src/server/server_db.c in the states that the server reaches.
use bsle.Prelude.{ℕ, ◌≤◌, ◌≡◌, ◌∙◌, List, [], ◌∷◌, ◌++◌, Bytes, ok, All, arith, map}
use bsle.Server.{UserAccount}
use bsle.Table.Entries.{All-find}
use bsle.Db.{Base, accounts_of}
use bsle.Db.Codec.{magic_bytes, db_bytes}
use bsle.Db.Codec.Rows.{IsWritable}
use bsle.Db.Codec.Writer.{rows, db_bytes-rows}
use bsle.Db.Registered.{IsRegistered}
use bsle.Sock.Serve.Reach.{State, Reach, IsSafe, Reach-IsSafe}

module _ (base : Base) where
  open base use {users}

  IsRegistered-IsWritable :
      (limit : ℕ) (es : List (Bytes × UserAccount))
      → limit ≤ 9
      → All (λ e. IsRegistered limit e.0 e.1) es
      → All IsWritable (map (λ e. e.1) es)
  IsRegistered-IsWritable limit [] digit all = tt
  IsRegistered-IsWritable limit ((j, a) ∷ es) digit (head, all) = (
    record { one_digit = omega (arith, digit, head.level); sized = head.sized; full = head.full },
    IsRegistered-IsWritable limit es digit all,
  )

  -- Over any sequence of connections, from a server whose accounts lie under their names with hashes of
  -- 32 bytes and permissions of one digit, `db_update_db` stays inside the buffer that it reserves:
  -- the text that it makes is the magic bytes and a row for each account.
  pub Reach-db_bytes :
      (limit : ℕ) {s s' : State base}
      → limit ≤ 9
      → IsSafe base limit s
      → Reach base s s'
      → db_bytes (accounts_of base s'.db.users_htable)
        ≡ ok (magic_bytes ++ rows (accounts_of base s'.db.users_htable))
  unfolding accounts_of
  Reach-db_bytes limit {s' = s'} digit safe run =
      let t = s'.db.users_htable in
      let kept = Reach-IsSafe base limit safe run in
      db_bytes-rows (accounts_of base t) (
        IsRegistered-IsWritable limit (users.entries t) digit (
          All-find (IsRegistered limit) (users.entries t) (users.entries-Fresh t)
            (λ name a e. kept name a (users.get-entries t name ∙ e))))
