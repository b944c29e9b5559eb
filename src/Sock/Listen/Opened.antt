-- ===== src/Sock/Listen/Opened.antt =====
-- Which socket server_listen of src/server/server_sock.c returns, and which it leaves open.
use bsle.Prelude.{
  ℕ, ◌≡◌, refl, ◌⊎◌, inl, inr, Bool, true, false, Bool-cases, Option, none, some, List, [], ◌∷◌,
  take, ==_refl, if_true, if_false,
}
use bsle.Decimal.{print_dec}
use bsle.Sock.Listen.{
  AddrInfo, Candidate, close, Search, found, unusable, exhausted, tried, try_records, listen_on,
  server_listen,
}

-- A record that is passed over.
abbrev pub PassedOver : Candidate → Type 0
PassedOver c =
    (c.socket ≡ none) ⊎ ((fd : ℕ) × (c.socket ≡ some fd) × (c.reusable ≡ true) × (c.bound ≡ false))

-- The first record that is not passed over gives this bound socket.
pub data Chosen (fd : ℕ) (c : Candidate) : List Candidate → Type 0 where
  this :
      {d : Candidate} {rest : List Candidate}
      → d ≡ c
      → c.socket ≡ some fd
      → c.reusable ≡ true
      → c.bound ≡ true
      → Chosen fd c (d ∷ rest)
  behind :
      {d : Candidate} {rest : List Candidate}
      → PassedOver d
      → Chosen fd c rest
      → Chosen fd c (d ∷ rest)

-- No record gives one: all are passed over, or a socket that comes first cannot be set up.
pub data NoneChosen : List Candidate → Type 0 where
  all_passed : NoneChosen []
  not_set :
      {d : Candidate} {rest : List Candidate} (fd : ℕ)
      → d.socket ≡ some fd
      → d.reusable ≡ false
      → NoneChosen (d ∷ rest)
  passed :
      {d : Candidate} {rest : List Candidate}
      → PassedOver d
      → NoneChosen rest
      → NoneChosen (d ∷ rest)

-- The outcome of the walk, with the sockets that it leaves open.
abbrev Walked : List Candidate → Search × List ℕ → Type 0
Walked records (found fd c, sockets) = Chosen fd c records × (sockets ≡ fd ∷ [])
Walked records (unusable, sockets) = NoneChosen records × (sockets ≡ [])
Walked records (exhausted, sockets) = NoneChosen records × (sockets ≡ [])

Walked-behind :
    (d : Candidate) (rest : List Candidate) (r : Search × List ℕ)
    → PassedOver d
    → Walked rest r
    → Walked (d ∷ rest) r
Walked-behind d rest (found fd c, sockets) over (chosen, only) = (behind over chosen, only)
Walked-behind d rest (unusable, sockets) over (no_one, only) = (passed over no_one, only)
Walked-behind d rest (exhausted, sockets) over (no_one, only) = (passed over no_one, only)

tried-Walked :
    (c : Candidate) (rest : List Candidate) (o : Option ℕ) (reusable bound : Bool)
    → c.socket ≡ o
    → c.reusable ≡ reusable
    → c.bound ≡ bound
    → Walked rest (try_records rest [])
    → Walked (c ∷ rest) (tried c [] o reusable bound (try_records rest))
unfolding tried close
tried-Walked c rest none reusable bound e set b ih = Walked-behind c rest _ (inl e) ih
tried-Walked c rest (some fd) false bound e set b ih = (not_set fd e set, rw (==_refl fd) refl)
tried-Walked c rest (some fd) true true e set b ih = (this refl e set b, refl)
tried-Walked c rest (some fd) true false e set b ih =
    rw (==_refl fd) (Walked-behind c rest _ (inr (fd, e, set, b)) ih)

try_records-Walked : (records : List Candidate) → Walked records (try_records records [])
unfolding try_records
try_records-Walked [] = (all_passed, refl)
try_records-Walked (c ∷ rest) =
    tried-Walked c rest c.socket c.reusable c.bound refl refl refl (try_records-Walked rest)

-- What `server_listen` gives for these records. A socket is open at the end only if it is returned, or
-- if it was chosen and `listen` failed on it.
pub data Outcome (records : List Candidate) : Option ℕ × Option ℕ × List ℕ → Type 0 where
  listening :
      {fd : ℕ} (c : Candidate) {len : Option ℕ} {sockets : List ℕ}
      → Chosen fd c records
      → c.listens ≡ true
      → sockets ≡ fd ∷ []
      → Outcome records (some fd, len, sockets)
  left_open :
      (fd : ℕ) (c : Candidate) {sockets : List ℕ}
      → Chosen fd c records
      → c.listens ≡ false
      → sockets ≡ fd ∷ []
      → Outcome records (none, none, sockets)
  no_socket :
      {sockets : List ℕ} → NoneChosen records → sockets ≡ [] → Outcome records (none, none, sockets)

listen_on-Outcome :
    (records : List Candidate) (len : Bool) (r : Search × List ℕ)
    → Walked records r
    → Outcome records (listen_on len r)
unfolding listen_on
listen_on-Outcome records len (found fd c, sockets) (chosen, only) = elim (Bool-cases c.listens) [
  | inl e ↦ rw (if_true _ _ e) (listening c chosen e only)
  | inr e ↦ rw (if_false _ _ e) (left_open fd c chosen e only)
]
listen_on-Outcome records len (unusable, sockets) (no_one, only) = no_socket no_one only
listen_on-Outcome records len (exhausted, sockets) (no_one, only) = no_socket no_one only

-- If `getaddrinfo` gives records for the port, then `server_listen` returns the socket of the first
-- record that is not passed over, if it listens, and this is the one socket that is open; otherwise
-- it returns -1, and the one socket that stays open is one on which `listen` failed.
pub server_listen-Outcome :
    (getaddrinfo : AddrInfo) (serv_port : ℕ) (record_len : Bool) (records : List Candidate)
    → getaddrinfo (take 9 (print_dec serv_port)) ≡ some records
    → Outcome records (server_listen getaddrinfo serv_port record_len)
unfolding server_listen
server_listen-Outcome getaddrinfo serv_port record_len records e =
    rw (e, server_listen)
      (listen_on-Outcome records record_len (try_records records []) (try_records-Walked records))
