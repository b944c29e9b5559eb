-- ===== src/Tests/Storage.antt =====
-- A run of the theorem on a file that is put and got.
use bsle.Prelude.{
  ◌≡◌, ◌≢◌, refl, true, none, some, List, [], ◌∷◌, arith, Bytes, codes, ok, plenty, replicate,
  eq_bytes, if◌then◌else◌, ℕ,
}
use bsle.Os.{Os}
use bsle.Table.{find}
use bsle.Server.{RetCode, UserAccount}
use bsle.Paths.{basename, dirname}
use bsle.Db.{Base, Db}
use bsle.Db.Users.{account}
use bsle.Ctrl.Action.{Env}
use bsle.Sock.{closed}
use bsle.Sock.Stream.{arrive}
use bsle.Sock.Read.Encode.{wire_bytes}
use bsle.Sock.Write.Sending.{sent_bytes}
use bsle.Sock.Write.Answer.{answer_bytes, content_bytes}
use bsle.Sock.Serve.{serve_client}
use bsle.Sock.Serve.SignedOn.{IsSignedOn}
use bsle.Sock.Serve.Storing.{Sent, put_request, get_request, IsSendable, IsNew, IsKept}
use bsle.Sock.Serve.Storing.RoundTrip.{put_then_get}
use bsle.Tests.Disk.{Disk, files}
use bsle.Tests.World
use bsle.Tests.Writes.{writes, writes-Progress}
use bsle.Tests.World.{sha, home}

-- The one path that may not be there.
abbrev new_path : Bytes
new_path = codes "/srv/new.txt"

abbrev growing : Os
growing = record files {
  realpath = λ w path.
      if eq_bytes path (codes "/srv/.")
      then some home
      else if eq_bytes path new_path
      then (elim (find eq_bytes new_path w) [ none ↦ none | some bytes ↦ some path ])
      else some path;
}

abbrev base : Base
base = record World.base { os = growing }

abbrev name : Bytes
name = codes "alice"

abbrev passwd : Bytes
passwd = codes "secret"

abbrev alice : UserAccount
alice = account base name passwd 2

-- Alice, with the session 9 since 50.
abbrev db : Db base
db = record {
  users_htable = base.users.set base.users.create name alice;
  sesh_htable = base.sessions.set base.sessions.create 9 (some 50);
  home_dir = home;
  debug = true;
}

not_empty : {c : ℕ} {s : Bytes} → c ∷ s ≢ []
not_empty e = cc

abbrev env : Env base
env = record { fuel = 1; rand = λ i. 1; now = 100; timeout = 60 }

alice-IsSignedOn : IsSignedOn base env db name passwd alice 9
alice-IsSignedOn = record {
  start = 50;
  named = (
    refl,
    not_empty,
    (omega arith, (omega arith, (omega arith, (omega arith, (omega arith, tt))))),
    omega arith,
  );
  secret = (
    refl,
    not_empty,
    (omega arith, (omega arith, (omega arith, (omega arith, (omega arith, (omega arith, tt)))))),
    omega arith,
  );
  found = refl;
  sized = refl;
  right = refl;
  given = omega arith;
  small = omega arith;
  stored = refl;
  in_time = omega arith;
}

-- Three bytes, with a digest of zeros.
abbrev file : Sent
file = record { path = codes "new.txt"; digest = replicate 32 0; stream = 1 ∷ 2 ∷ 3 ∷ [] }

file-IsSendable : IsSendable file
file-IsSendable = record {
  path_text = (
    refl,
    not_empty,
    (
      omega arith,
      (omega arith, (omega arith, (omega arith, (omega arith, (omega arith, (omega arith, tt)))))),
    ),
    omega arith,
  );
  sized = refl;
  filled = not_empty;
  small = omega arith;
}

abbrev emptied : Disk
emptied = (new_path, []) ∷ []

abbrev written : Disk
written = (new_path, file.stream) ∷ emptied

file-IsNew : IsNew base [] home [] file written
unfolding basename dirname
file-IsNew = record {
  fits = omega arith;
  missing = refl;
  place = record { fits = omega arith; real = refl; named = refl; room = omega arith };
  written = record { emptied = emptied; opens = refl; takes = refl };
}

file-IsKept : IsKept base written home [] file written
unfolding basename
file-IsKept = record {
  real = refl;
  on_disk = record {
    listed = 3;
    permissions = 438;
    regular = refl;
    opens = refl;
    sized = refl;
    holds = refl;
  };
}

put_then_get_example :
    (chunks : List Bytes) × (chunks' : List Bytes) × (db' : Db base) × (db'' : Db base)
    × (serve_client base true true plenty plenty plenty plenty env
          (arrive (wire_bytes (put_request name passwd 9 file)) (closed ∷ []))
          writes
          []
          db
        ≡ ok (chunks, db', written))
    × (sent_bytes chunks ≡ answer_bytes 9 RetCode.op_success)
    × (serve_client base true true plenty plenty plenty plenty env
          (arrive (wire_bytes (get_request name passwd 9 file.path)) (closed ∷ []))
          writes
          written
          db'
        ≡ ok (chunks', db'', written))
    × (sent_bytes chunks' ≡ content_bytes 9 (sha.digest file.stream) file.stream)
put_then_get_example =
    put_then_get base env env (closed ∷ []) (closed ∷ []) writes writes [] written written db name
      passwd [] alice 9 file alice-IsSignedOn (omega arith) (omega arith) file-IsSendable file-IsNew
      file-IsKept writes-Progress (omega arith) writes-Progress (omega arith)
