-- ===== src/FileApi/Listing/Rows.antt =====
-- What f_list_dir of src/server/server_file_api.c returns for a directory whose listing fits.
use bsle.Prelude.{
  All, ℕ, ◌+◌, ◌≤◌, ◌<◌, ◌≡◌, ◌∙◌, ap, refl, sym, Bool-cases, inl, inr, true, false, Option,
  Option-cases, none, some, List, [], ◌∷◌, ◌++◌, append_assoc, append-nil, arith, Bytes, length,
  length-append, ok, fault, Mem, plenty, leb, lt→ltb, le→leb, if◌then◌else◌,
}
use bsle.Server.{RetCode}
use bsle.Crypto.{Sha256}
use bsle.Crypto.Compare.{hash_byte_array-digest}
use bsle.Decimal.{print_dec}
use bsle.Decimal.RoundTrip.{print_dec-IsNumeral}
use bsle.Os.{Os, Kind, Stat, Dirent}
use bsle.Paths.{path_max}
use bsle.FileApi.{FileContent}
use bsle.FileApi.Listing.{
  Buffer, is_listed, row_tag, list_row, append_row, reserve, get_file_size, list_content, write_row,
  list_entry, list_loop, list_entries, list_kind, f_list_dir,
}

length-row_tag : (kind : Kind) → length (row_tag kind) ≡ 4
unfolding row_tag
length-row_tag Kind.regular = refl
length-row_tag Kind.directory = refl
length-row_tag Kind.other = refl

-- A number has a digit.
length-print_dec : (n : ℕ) → 1 ≤ length (print_dec n)
length-print_dec n = let i = print_dec-IsNumeral n in omega (arith, ap length i.begins)

length-list_row : (obj : Dirent) (size : ℕ) → length obj.name + 7 ≤ length (list_row obj size)
unfolding list_row
length-list_row obj size = omega (
  arith,
  length-row_tag obj.kind,
  length-print_dec size,
  length-append (row_tag obj.kind) (print_dec size ++ b':' ∷ (obj.name ++ b'\n' ∷ [])),
  length-append (print_dec size) (b':' ∷ (obj.name ++ b'\n' ∷ [])),
  length-append obj.name (b'\n' ∷ []),
)

-- The size that is shown: 0 if `stat` fails.
abbrev pub shown_size : Option Stat → ℕ
shown_size none = 0
shown_size (some st) = st.size

module _ (os : Os) where
  open os use {World, stat, read_dir}

  -- The rows of the entries that are listed, in their order.
  unfoldable pub listing : World → Bytes → List Dirent → Bytes
  listing w dir [] = []
  listing w dir (obj ∷ rest) =
      let more = listing w dir rest in
      if is_listed obj
      then list_row obj (shown_size (stat w (dir ++ b'/' ∷ obj.name))) ++ more
      else more

  -- The paths of the entries fit into PATH_MAX.
  abbrev pub AreShort : Bytes → List Dirent → Type 0
  AreShort dir = All (λ (obj : Dirent). length (dir ++ b'/' ∷ obj.name) < path_max)

  module _ (sha : Sha256) where
    -- With room for the row the buffer is not grown.
    reserve_room :
        (mem : Mem) (b : Buffer) (name : Bytes) (digits : ℕ)
        → digits ≤ 1
        → length b.text + length name + 6 ≤ b.buff_size
        → reserve mem b name digits ≡ some b
    unfolding reserve
    reserve_room mem b name digits d room = ground arith

    append_room :
        (b : Buffer) (row : Bytes)
        → length b.text + length row + 1 ≤ b.buff_size
        → append_row b row ≡ ok (record b { text = b.text ++ row })
    unfolding append_row
    append_room b row room = rw (le→leb _ _ room) refl

    -- At most one digit is counted.
    get_file_size-shown_size :
        (w : World) (dir name : Bytes)
        → length (dir ++ b'/' ∷ name) < path_max
        → (digits : ℕ) × (digits ≤ 1)
          × (get_file_size os sha w dir name
              ≡ ok (shown_size (stat w (dir ++ b'/' ∷ name)), digits))
    unfolding get_file_size
    get_file_size-shown_size w dir name short =
        let path = dir ++ b'/' ∷ name in
        let fits = lt→ltb (length path) path_max short in
        elim (Option-cases (stat w path)) [
          | inl absent ↦ (0, omega arith, rw fits (rw (absent, get_file_size) refl))
          | inr (st, is) ↦ (1, omega arith, rw fits (rw (is, get_file_size) refl))
        ]

    list_entry_room :
        (mem : Mem) (w : World) (dir : Bytes) (b : Buffer) (obj : Dirent)
        → length (dir ++ b'/' ∷ obj.name) < path_max
        → length b.text + length (list_row obj (shown_size (stat w (dir ++ b'/' ∷ obj.name)))) + 1
          ≤ b.buff_size
        → list_entry os sha mem w dir b obj
          ≡ ok (
              some (record b {
                text = b.text ++ list_row obj (shown_size (stat w (dir ++ b'/' ∷ obj.name)));
              }))
    unfolding list_entry write_row
    list_entry_room mem w dir b obj short room =
        let size = shown_size (stat w (dir ++ b'/' ∷ obj.name)) in
        let (digits, few, is) = get_file_size-shown_size w dir obj.name short in
        let ahead : length b.text + length obj.name + 6 ≤ b.buff_size =
          omega (arith, room, length-list_row obj size) in
        rw is (
          rw (reserve_room mem b obj.name digits few ahead)
            (rw (append_room b (list_row obj size) room) refl))

    -- The loop over entries whose rows have room, with other entries behind them.
    list_loop-append :
        (mem : Mem) (w : World) (dir : Bytes) (front rest : List Dirent) (b : Buffer)
        → AreShort dir front
        → length b.text + length (listing w dir front) + 1 ≤ b.buff_size
        → list_loop os sha mem w dir (front ++ rest) b
          ≡ list_loop os sha mem w dir rest (record b { text = b.text ++ listing w dir front })
    unfolding list_loop listing
    list_loop-append mem w dir [] rest b short room = rw append-nil refl
    list_loop-append mem w dir (obj ∷ front) rest b (short, shorts) room =
        elim (Bool-cases (is_listed obj)) [
          | inr hidden ↦
              rw (hidden, list_loop)
                (list_loop-append mem w dir front rest b shorts (rw hidden at room))
          | inl listed ↦
              let row = list_row obj (shown_size (stat w (dir ++ b'/' ∷ obj.name))) in
              let more = listing w dir front in
              let room' = rw listed at room in
              let len = length-append row more in
              let len' = length-append b.text row in
              let b' = record b { text = b.text ++ row } in
              let tail =
                list_loop-append mem w dir front rest b' shorts (omega (arith, room', len, len')) in
              rw (listed, list_loop)
                (rw (list_entry_room mem w dir b obj short (omega (arith, room', len)))
                  (tail ∙ rw (append_assoc b.text row more) refl))
        ]

    list_loop_room :
        (mem : Mem) (w : World) (dir : Bytes) (entries : List Dirent) (b : Buffer)
        → AreShort dir entries
        → length b.text + length (listing w dir entries) + 1 ≤ b.buff_size
        → list_loop os sha mem w dir entries b
          ≡ ok (some (record b { text = b.text ++ listing w dir entries }))
    unfolding list_loop
    list_loop_room mem w dir entries b short room =
        ap (λ (l : List Dirent). list_loop os sha mem w dir l b) (sym (append-nil entries))
        ∙ list_loop-append mem w dir entries [] b short room

    -- What is returned for the text of a listing.
    abbrev pub listed_content : Bytes → Bytes → FileContent
    listed_content path text = record {
      hash = record { size = 32; array = sha.digest text };
      stream = text;
      stream_size = length text;
      path = path;
    }

    list_content-plenty :
        (path text : Bytes)
        → list_content os sha plenty path text
          ≡ ok (RetCode.op_success, some (listed_content path text))
    unfolding list_content
    list_content-plenty path text =
        rw (hash_byte_array-digest sha plenty text (length text) refl refl, list_content) refl

    -- Listing a directory whose rows take at most 1023 bytes, none of whose entries has too long a path,
    -- when memory does not run out, gives one row for each file and each directory in it, in the order
    -- of `readdir`, without `.`, `..` and the files of the database, and the digest of that text; the
    -- buffer is neither grown nor overrun.
    pub f_list_dir-listing :
        (w : World) (path : Bytes) (st : Stat) (entries : List Dirent)
        → stat w path ≡ some st
        → st.kind ≡ Kind.directory
        → read_dir w path ≡ some entries
        → AreShort path entries
        → length (listing w path entries) ≤ 1023
        → f_list_dir os sha plenty w (some path)
          ≡ ok (RetCode.op_success, some (listed_content path (listing w path entries)))
    unfolding f_list_dir list_kind list_entries
    f_list_dir-listing w path st entries is dir opened short fits =
        let start : Buffer = record { text = []; buff_size = 1024; allocs = 1 } in
        let text = listing w path entries in
        rw (is, f_list_dir)
          (rw (dir, list_kind)
            (rw (opened, list_entries)
              (rw (list_loop_room plenty w path entries start short (omega (arith, fits)))
                (list_content-plenty path text))))

    -- A row for which the test finds room, and that has none.
    list_entry_overflow :
        (mem : Mem) (w : World) (dir : Bytes) (b : Buffer) (obj : Dirent)
        → length (dir ++ b'/' ∷ obj.name) < path_max
        → length b.text + length obj.name + 6 ≤ b.buff_size
        → b.buff_size
          ≤ length b.text + length (list_row obj (shown_size (stat w (dir ++ b'/' ∷ obj.name))))
        → list_entry os sha mem w dir b obj ≡ fault
    unfolding list_entry write_row append_row
    list_entry_overflow mem w dir b obj short tested long =
        let size = shown_size (stat w (dir ++ b'/' ∷ obj.name)) in
        let (digits, few, is) = get_file_size-shown_size w dir obj.name short in
        let over : leb (length b.text + length (list_row obj size) + 1) b.buff_size ≡ false =
          ground (arith, long) in
        rw is (rw (reserve_room mem b obj.name digits few tested) (rw over refl))

    -- The listing is written over the end of its buffer: in a directory in which the rows of some entries
    -- take less than 1024 bytes, and the next entry is listed, has a row that takes all that is left and
    -- a name that leaves six bytes of it, if the first allocation succeeds.
    pub f_list_dir_overflow :
        (mem : Mem) (w : World) (path : Bytes) (st : Stat) (front rest : List Dirent) (obj : Dirent)
        → mem 0 ≡ true
        → stat w path ≡ some st
        → st.kind ≡ Kind.directory
        → read_dir w path ≡ some (front ++ obj ∷ rest)
        → AreShort path front
        → length (path ++ b'/' ∷ obj.name) < path_max
        → is_listed obj ≡ true
        → length (listing w path front) + length obj.name + 6 ≤ 1024
        → 1024
          ≤ length (listing w path front)
            + length (list_row obj (shown_size (stat w (path ++ b'/' ∷ obj.name))))
        → f_list_dir os sha mem w (some path) ≡ fault
    unfolding f_list_dir list_kind list_entries list_loop
    f_list_dir_overflow mem w path st front rest obj m is dir opened shorts short listed tested
          long =
        let start : Buffer = record { text = []; buff_size = 1024; allocs = 1 } in
        let full : Buffer = record start { text = listing w path front } in
        rw (is, f_list_dir)
          (rw (dir, list_kind)
            (rw m (
              rw (opened, list_entries)
                (rw
                  (list_loop-append mem w path front (obj ∷ rest) start shorts
                    (omega (arith, tested)))
                  (rw (listed, list_loop)
                    (rw (list_entry_overflow mem w path full obj short tested long) refl))))))
