-- ===== src/FileApi/Listing.antt =====
-- `f_list_dir` of src/server/server_file_api.c, with the buffer that it grows.
pub mod Rows
pub mod Shown
use bsle.Prelude.{
  ℕ, ◌+◌, ◌*◌, Bool, true, false, not, ◌&&◌, Option, none, some, List, [], ◌∷◌, ◌++◌, Bytes, codes,
  length, Run, ok, fault, ◌>>=◌, Mem, later, ltb, leb, eq_bytes, if◌then◌else◌,
}
use bsle.Server.{RetCode}
use bsle.Crypto.{Sha256, hash_byte_array}
use bsle.Decimal.{print_dec}
use bsle.Os.{Os, Kind, Dirent}
use bsle.Paths.{path_max}
use bsle.FileApi.{FileContent}

-- The names of src/server/server_db.c that a listing leaves out.
abbrev pub db_dir : Bytes
db_dir = codes ".cape"

abbrev pub db_name : Bytes
db_name = codes ".cape/.cape.db"

abbrev pub db_hash : Bytes
db_hash = codes ".cape/.cape.hash"

-- The buffer: what is written, the size of the allocation, and how many allocations were made.
pub record Buffer : Type 0 where
  pub text : Bytes
  pub buff_size : ℕ
  pub allocs : ℕ

-- A file or a directory, by none of the names that are left out.
unfoldable pub is_listed : Dirent → Bool
is_listed obj =
    elim (obj.kind) [ Kind.regular ↦ true | Kind.directory ↦ true | Kind.other ↦ false ]
    && not (eq_bytes obj.name (codes "."))
    && not (eq_bytes obj.name (codes ".."))
    && not (eq_bytes obj.name db_dir)
    && not (eq_bytes obj.name db_hash)
    && not (eq_bytes obj.name db_name)

row_tag : Kind → Bytes
row_tag Kind.regular = codes "[F]:"
row_tag kind = codes "[D]:"

-- `[F]:size:name` or `[D]:size:name` and a newline.
unfoldable pub list_row : Dirent → ℕ → Bytes
unfolding row_tag
list_row obj size = row_tag obj.kind ++ (print_dec size ++ b':' ∷ (obj.name ++ b'\n' ∷ []))

-- `realloc_buff`: twice the size, or NULL.
pub realloc_buff : Mem → Buffer → Option Buffer
realloc_buff mem b =
    if mem b.allocs
    then some (record { text = b.text; buff_size = b.buff_size * 2; allocs = b.allocs + 1 })
    else none

-- `sprintf` at the offset: the row and its terminator.
pub append_row : Buffer → Bytes → Run Buffer
append_row b row =
    if leb (length b.text + length row + 1) b.buff_size
    then ok (record b { text = b.text ++ row })
    else fault

-- The test before a row is written: the buffer is doubled, once, when it is found too short.
pub reserve : Mem → Buffer → Bytes → ℕ → Option Buffer
unfolding realloc_buff
reserve mem b name num_len =
    if leb b.buff_size (length name + length b.text + num_len + 4)
    then realloc_buff mem b
    else some b

module _ (os : Os) (sha : Sha256) where
  open os use {World, stat, read_dir}

  -- The size and the number of digits that is reported for it: 0 if `stat` fails, and else 1, since
  -- the loop `while (*num_len > 9)` makes no round.
  pub get_file_size : World → Bytes → Bytes → Run (ℕ × ℕ)
  get_file_size w dir name =
      let path = dir ++ b'/' ∷ name in
      if ltb (length path) path_max
      then ok (elim (stat w path) [ none ↦ (0, 0) | some st ↦ (st.size, 1) ])
      else fault

  -- The row goes into the buffer, if there is one.
  write_row : Dirent → ℕ → Option Buffer → Run (Option Buffer)
  write_row obj size none = ok none
  write_row obj size (some b) = append_row b (list_row obj size) >>= λ written. ok (some written)

  -- One listed entry; `none` when the buffer cannot grow.
  pub list_entry : Mem → World → Bytes → Buffer → Dirent → Run (Option Buffer)
  unfolding write_row
  list_entry mem w dir b obj = get_file_size w dir obj.name >>= λ sized.
      write_row obj sized.0 (reserve mem b obj.name sized.1)

  list_loop : Mem → World → Bytes → List Dirent → Buffer → Run (Option Buffer)
  unfolding list_entry is_listed
  list_loop mem w dir [] b = ok (some b)
  list_loop mem w dir (obj ∷ rest) b = elim (is_listed obj) [
    | false ↦ list_loop mem w dir rest b
    | true ↦ list_entry mem w dir b obj >>= λ r. elim r [
      | none ↦ ok none
      | some b' ↦ list_loop mem w dir rest b'
    ]
  ]

  -- The copy that is returned: its array, the two allocations of the hash, the `file_content_t`, and
  -- the copy of the path, without which `f_destroy_content` reads an object that is not set.
  list_content : Mem → Bytes → Bytes → Run (RetCode × Option FileContent)
  list_content mem path text =
      if mem 0
      then elim (hash_byte_array sha (later 1 mem) (some text) (length text)) [
        | none ↦ ok (RetCode.op_failure, none)
        | some h ↦
            if mem 3
            then (if mem 4
                then ok (
                  RetCode.op_success,
                  some (record { hash = h; stream = text; stream_size = length text; path = path }),
                )
                else fault)
            else ok (RetCode.op_failure, none)
      ]
      else ok (RetCode.op_failure, none)

  list_entries : Mem → World → Bytes → Option (List Dirent) → Run (RetCode × Option FileContent)
  unfolding list_loop list_content
  list_entries mem w path none = ok (RetCode.op_io_error, none)
  list_entries mem w path (some entries) =
      list_loop mem w path entries (record { text = []; buff_size = 1024; allocs = 1 }) >>= λ r.
      elim r [
        | none ↦ ok (RetCode.op_failure, none)
        | some b ↦ list_content (later b.allocs mem) path b.text
      ]

  list_kind : Mem → World → Bytes → Kind → Run (RetCode × Option FileContent)
  unfolding list_entries
  list_kind mem w path Kind.directory =
      if mem 0 then list_entries mem w path (read_dir w path) else ok (RetCode.op_failure, none)
  list_kind mem w path kind = ok (RetCode.op_path_not_dir, none)

  pub f_list_dir : Mem → World → Option Bytes → Run (RetCode × Option FileContent)
  unfolding list_kind
  f_list_dir mem w none = ok (RetCode.op_io_error, none)
  f_list_dir mem w (some path) = elim (stat w path) [
    | none ↦ ok (RetCode.op_io_error, none)
    | some st ↦ list_kind mem w path st.kind
  ]
