-- ===== src/Sock/Listen.antt =====
-- server_listen of src/server/server_sock.c: the socket that the server listens on.
-- What the system calls return is given with the address record on which they are made. What is only
-- printed, with get_ip_port, is left out.
pub mod Opened
use bsle.Prelude.{
  ℕ, Bool, true, false, Option, none, some, List, [], ◌∷◌, Bytes, take, ◌==◌, if◌then◌else◌,
}
use bsle.Decimal.{print_dec}

-- A `struct addrinfo` with what the calls on it return: `socket`, `setsockopt`, `bind`, `listen`.
pub record Candidate : Type 0 where
  pub addrlen : ℕ
  pub socket : Option ℕ
  pub reusable : Bool
  pub bound : Bool
  pub listens : Bool

-- `getaddrinfo` for a port in decimal: the list of records, or an error.
abbrev pub AddrInfo : Type 0
AddrInfo = Bytes → Option (List Candidate)

-- The sockets that are open; `close(fd)` takes one away.
pub close : ℕ → List ℕ → List ℕ
close fd [] = []
close fd (s ∷ sockets) = if s == fd then sockets else s ∷ close fd sockets

-- How the walk over the records ends.
pub data Search : Type 0 where
  found : ℕ → Candidate → Search
  unusable exhausted : Search

-- What the calls on one record returned, and what comes after it. A record without a socket or that
-- cannot be bound is passed over, and a socket that cannot be set up ends the walk.
tried : Candidate → List ℕ → Option ℕ → Bool → Bool → (List ℕ → Search × List ℕ) → Search × List ℕ
unfolding close
tried c sockets none reusable bound next = next sockets
tried c sockets (some fd) false bound next = (unusable, close fd (fd ∷ sockets))
tried c sockets (some fd) true true next = (found fd c, fd ∷ sockets)
tried c sockets (some fd) true false next = next (close fd (fd ∷ sockets))

-- The walk over the records.
pub try_records : List Candidate → List ℕ → Search × List ℕ
unfolding tried
try_records [] sockets = (exhausted, sockets)
try_records (c ∷ rest) sockets = tried c sockets c.socket c.reusable c.bound (try_records rest)

-- The socket, or -1; what is written through `record_len`, if it is not NULL; the sockets that stay open.
-- A socket that does not listen is not closed.
listen_on : Bool → Search × List ℕ → Option ℕ × Option ℕ × List ℕ
listen_on record_len (found fd c, sockets) =
    if c.listens
    then (some fd, if record_len then some c.addrlen else none, sockets)
    else (none, none, sockets)
listen_on record_len (search, sockets) = (none, none, sockets)

-- The port is printed into an array of 10 bytes; a port is below 2^31, so that `%d` prints it as it is.
unfoldable pub server_listen : AddrInfo → ℕ → Bool → Option ℕ × Option ℕ × List ℕ
unfolding listen_on try_records close
server_listen getaddrinfo serv_port record_len = elim (getaddrinfo (take 9 (print_dec serv_port))) [
  | none ↦ (none, none, [])
  | some records ↦ listen_on record_len (try_records records [])
]
