-- ===== src/FileApi/Read/Content.antt =====
-- What f_read_file of src/server/server_file_api.c returns when it returns contents.
use bsle.Prelude.{
  ℕ, ◌≡◌, refl, Bool-cases, inl, inr, false, Run, Option, none, some, Option-cases, Bytes, length,
  ok, bind_ok, Mem, later, ◌==◌,
}
use bsle.Server.{RetCode, Hash}
use bsle.Crypto.{Sha256, hash_byte_array}
use bsle.Crypto.Compare.{hash_byte_array-some}
use bsle.Os.{Os, Kind}
use bsle.FileApi.{FileContent, f_open_file}
use bsle.FileApi.Read.{ReadResult, f_read_file, read_kind, read_opened, read_sized, read_content}

-- The size is that of the stream, and the hash its digest.
pub record IsRead (sha : Sha256) (c : FileContent) : Type 0 where
  pub size : c.stream_size ≡ length c.stream
  pub hashed : c.hash ≡ record { size = 32; array = sha.digest c.stream }

IsRead-digest :
    {sha : Sha256} (h : Hash) (path bytes : Bytes)
    → h ≡ record { size = 32; array = sha.digest bytes }
    → IsRead sha (record { hash = h; stream = bytes; stream_size = length bytes; path = path })
IsRead-digest h path bytes digest = record { size = refl; hashed = digest }

same_contents :
    {r : Run ReadResult} {a b : FileContent} {x y : RetCode}
    → r ≡ ok (x, some a)
    → r ≡ ok (y, some b)
    → a ≡ b
same_contents e e' = cc

read_content-IsRead :
    (sha : Sha256) (mem : Mem) (path bytes : Bytes) (o : Option Hash) {code : RetCode}
    {c : FileContent}
    → ((h : Hash) → o ≡ some h → h ≡ record { size = 32; array = sha.digest bytes })
    → read_content sha mem path bytes o ≡ ok (code, some c)
    → IsRead sha c
unfolding read_content
read_content-IsRead sha mem path bytes none digest e = cc
read_content-IsRead sha mem path bytes (some h) digest e = elim (Bool-cases (mem 0)) [
  | inr m ↦ cc (rw m at e)
  | inl m0 ↦ elim (Bool-cases (mem 1)) [
    | inr m ↦ cc (rw m at (rw m0 at e))
    | inl m1 ↦
        rw (← same_contents refl (rw m1 at (rw m0 at e)))
          (IsRead-digest h path bytes (digest h refl))
  ]
]

module _ (os : Os) (sha : Sha256) where
  open os use {World, file_size, fread}

  read_sized-IsRead :
      (mem : Mem) (w : World) (path : Bytes) (o : Option ℕ) {code : RetCode} {c : FileContent}
      → read_sized os sha mem w path o ≡ ok (code, some c)
      → IsRead sha c
  unfolding read_sized
  read_sized-IsRead mem w path none e = cc
  read_sized-IsRead mem w path (some size) e = elim (Bool-cases (mem 0)) [
    | inr m ↦ cc (rw m at e)
    | inl m0 ↦ elim (Bool-cases (length (fread w path size) == size)) [
      | inr short ↦ cc (rw short at (rw m0 at e))
      | inl whole ↦
          let bytes = fread w path size in
          read_content-IsRead sha (later 3 mem) path bytes
            (hash_byte_array sha (later 1 mem) (some bytes) (length bytes))
            (λ h. hash_byte_array-some sha (later 1 mem) bytes (length bytes))
            (rw whole at (rw m0 at e))
    ]
  ]

  read_opened-IsRead :
      (mem : Mem) (w : World) (path : Bytes) (opened : RetCode) {code : RetCode} {c : FileContent}
      → read_opened os sha mem w path opened ≡ ok (code, some c)
      → IsRead sha c
  unfolding read_opened
  read_opened-IsRead mem w path RetCode.op_success e =
      read_sized-IsRead mem w path (file_size w path) e
  read_opened-IsRead mem w path _ e = cc

  read_kind-IsRead :
      (mem : Mem) (w : World) (path : Bytes) (kind : Kind) {code : RetCode} {c : FileContent}
      {w' : World}
      → read_kind os sha mem w path kind ≡ ok ((code, some c), w')
      → IsRead sha c
  unfolding read_kind
  read_kind-IsRead mem w path Kind.regular {code = got} {c} e =
      let (code, w') = f_open_file os false w (some path) in
      let (r, read, e') =
        bind_ok (read_opened os sha mem w' path code) (λ (r : ReadResult). ok (r, w')) e in
      read_opened-IsRead mem w' path code {code = got} {c = c} cc
  read_kind-IsRead mem w path _ e = cc

  -- Contents that are returned carry their own size and digest.
  pub f_read_file-IsRead :
      (mem : Mem) (w : World) (path : Option Bytes) {code : RetCode} {c : FileContent} {w' : World}
      → f_read_file os sha mem w path ≡ ok ((code, some c), w')
      → IsRead sha c
  unfolding f_read_file
  f_read_file-IsRead mem w none e = cc
  f_read_file-IsRead mem w (some path) e = elim (Option-cases (os.stat w path)) [
    | inl absent ↦ cc (rw (absent, f_read_file) at e)
    | inr (st, is) ↦ read_kind-IsRead mem w path st.kind (rw (is, f_read_file) at e)
  ]
