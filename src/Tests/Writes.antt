-- ===== src/Tests/Writes.antt =====
-- Calls of `write` that take what they are given.
use bsle.Prelude.{ℕ, zero, suc, List, arith, replicate}
use bsle.Sock.Write.{WriteEvent, wrote}
use bsle.Sock.Write.Sending.{Progress}

abbrev pub writes : List WriteEvent
writes = replicate 80 (wrote 100)

Progress-replicate : (n : ℕ) → Progress (replicate n (wrote 100))
Progress-replicate zero = tt
Progress-replicate (suc n) = (omega arith, Progress-replicate n)

pub writes-Progress : Progress writes
writes-Progress = Progress-replicate 80
