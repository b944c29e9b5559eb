-- ===== src/Tests/Contest.antt =====
-- Runs of the theorems on threads that create users at once.
use bsle.Prelude.{
  ℕ, ◌≤◌, ◌≡◌, refl, some, [], arith, Bytes, codes, ◌==◌, if◌then◌else◌, Bool-cases, inl, inr,
}
use bsle.Server.{RetCode}
use bsle.Crypto.{hash_byte_array}
use bsle.Db.{Db, create_checked, breaks_cred_rule}
use bsle.Db.Files.{db_update_db}
use bsle.Db.Users.{account}
use bsle.Db.Threads.{Call, waiting, finished, Shared, Moves}
use bsle.Db.Threads.Interleaved.{AllRegistered, Moves-AllRegistered, Moves_both_created}
use bsle.Tests.World.{base, roomy, empty_db}

abbrev name : Bytes
name = codes "alice"

abbrev reader : Call
reader = record { username = name; passwd = codes "secret"; permission = 1; mem = roomy }

abbrev writer : Call
writer = record { username = name; passwd = codes "password"; permission = 2; mem = roomy }

-- One thread makes alice a reader, and all others make her a writer.
abbrev calls : ℕ → Call
calls i = if i == 0 then reader else writer

abbrev after_first : Db base
after_first = record empty_db {
  users_htable = base.users.set empty_db.users_htable name (account base name (codes "secret") 1);
}

abbrev after_both : Db base
after_both = record empty_db {
  users_htable =
      base.users.set after_first.users_htable name (account base name (codes "password") 2);
}

both :
    (s : Shared base calls) × Moves base calls
      (record { db = empty_db; world = []; threads = λ k. waiting })
      s
    × (s.threads 0 ≡ finished RetCode.op_success)
    × (s.threads 1 ≡ finished RetCode.op_success)
    × (base.users.get s.db.users_htable name ≡ some (account base name (codes "password") 2))
unfolding breaks_cred_rule create_checked hash_byte_array db_update_db
both =
    Moves_both_created base calls 0 1 empty_db after_first after_both [] [] [] (omega arith) refl
      refl refl refl refl refl

Moves_both_created_example :
    (s : Shared base calls) × Moves base calls
      (record { db = empty_db; world = []; threads = λ k. waiting })
      s
    × (s.threads 0 ≡ finished RetCode.op_success)
    × (s.threads 1 ≡ finished RetCode.op_success)
    × (base.users.get s.db.users_htable name ≡ some (account base name (codes "password") 2))
unfolding breaks_cred_rule create_checked hash_byte_array db_update_db
Moves_both_created_example =
    Moves_both_created base calls 0 1 empty_db after_first after_both [] [] [] (omega arith) refl
      refl refl refl refl refl

given : (i : ℕ) → (calls i).permission ≤ 2
given i = elim (Bool-cases (i == 0)) [ inl e ↦ rw e (omega arith) | inr e ↦ rw e (omega arith) ]

Moves-AllRegistered_example : AllRegistered base 2 both.0.db
Moves-AllRegistered_example = Moves-AllRegistered base calls 2 given (λ k a found. cc) both.1
