-- ===== src/FileApi/Listing/Shown.antt =====
-- What the listing of a directory has to be, apart from f_list_dir of src/server/server_file_api.c: the
-- text that the client is to get.
use bsle.Prelude.{
  ◌≡◌, ◌≢◌, refl, ◌⊎◌, inl, inr, true, false, Bool-cases, List, [], ◌∷◌, ◌++◌, append_assoc, Bytes,
  codes, eq_bytes, eq_bytes→eq, arith, length, ◌≤◌, some, ok, plenty, subst,
}
use bsle.Decimal.{print_dec}
use bsle.Os.{Os, Kind, Stat, Dirent}
use bsle.Server.{RetCode}
use bsle.Crypto.{Sha256}
use bsle.FileApi.Listing.{is_listed, row_tag, list_row, f_list_dir}
use bsle.FileApi.Listing.Rows.{shown_size, listing, AreShort, listed_content, f_list_dir-listing}

-- The entries of every directory, the directory of the users, and the paths of its two files, which no
-- entry of a directory has as its name.
abbrev pub hidden : List Bytes
hidden =
    codes "." ∷ codes ".." ∷ codes ".cape" ∷ codes ".cape/.cape.hash" ∷ codes ".cape/.cape.db" ∷ []

abbrev pub Among : Bytes → List Bytes → Type 0
Among name [] = ⊥
Among name (x ∷ xs) = (name ≡ x) ⊎ Among name xs

-- An entry that is not shown: it is neither a file nor a directory, or its name is hidden.
abbrev pub IsHidden : Dirent → Type 0
IsHidden obj = (obj.kind ≡ Kind.other) ⊎ Among obj.name hidden

is_listed_hidden : (obj : Dirent) → IsHidden obj → is_listed obj ≡ false
unfolding is_listed
is_listed_hidden obj (inl e) = rw e refl
is_listed_hidden obj (inr (inl e)) = rw e (ground arith)
is_listed_hidden obj (inr (inr (inl e))) = rw e (ground arith)
is_listed_hidden obj (inr (inr (inr (inl e)))) = rw e (ground arith)
is_listed_hidden obj (inr (inr (inr (inr (inl e))))) = rw e (ground arith)
is_listed_hidden obj (inr (inr (inr (inr (inr (inl e)))))) = rw e (ground arith)
is_listed_hidden obj (inr (inr (inr (inr (inr (inr n)))))) = absurd n

differ : (x y : Bytes) → x ≢ y → eq_bytes x y ≡ false
differ x y ne = elim (Bool-cases (eq_bytes x y)) [
  | inl e ↦ absurd (ne (eq_bytes→eq x y e))
  | inr e ↦ e
]

-- A kind that is shown.
abbrev IsKept : Kind → Type 0
IsKept kind = (kind ≡ Kind.regular) ⊎ (kind ≡ Kind.directory)

kept_true :
    {kind : Kind}
    → IsKept kind
    → elim kind [ Kind.regular ↦ true | Kind.directory ↦ true | Kind.other ↦ false ] ≡ true
kept_true (inl e) = rw e refl
kept_true (inr e) = rw e refl

is_listed_shown :
    (obj : Dirent) → IsKept obj.kind → (Among obj.name hidden → ⊥) → is_listed obj ≡ true
unfolding is_listed
is_listed_shown obj kept shown = rw (differ obj.name (codes ".") (λ e. shown (inl e))) (
    rw (differ obj.name (codes "..") (λ e. shown (inr (inl e)))) (
      rw (differ obj.name (codes ".cape") (λ e. shown (inr (inr (inl e))))) (
        rw (differ obj.name (codes ".cape/.cape.hash") (λ e. shown (inr (inr (inr (inl e)))))) (
          rw (differ obj.name (codes ".cape/.cape.db") (λ e. shown (inr (inr (inr (inr (inl e)))))))
            (rw (kept_true kept) refl)))))

module _ (os : Os) where
  open os use {World, stat}

  -- `[F]:size:name` for a file, `[D]:size:name` for a directory, each with a newline, in the order of
  -- the entries; the size is 0 if `stat` fails.
  pub data IsListing (w : World) (dir : Bytes) : List Dirent → Bytes → Type 0 where
    nothing : IsListing w dir [] []
    leave :
        {obj : Dirent} {rest : List Dirent} {text : Bytes}
        → IsHidden obj
        → IsListing w dir rest text
        → IsListing w dir (obj ∷ rest) text
    file :
        {obj : Dirent} {rest : List Dirent} {text all : Bytes}
        → obj.kind ≡ Kind.regular
        → (Among obj.name hidden → ⊥)
        → IsListing w dir rest text
        → all
          ≡ codes "[F]:"
            ++ (print_dec (shown_size (stat w (dir ++ b'/' ∷ obj.name)))
                ++ b':' ∷ (obj.name ++ b'\n' ∷ text))
        → IsListing w dir (obj ∷ rest) all
    folder :
        {obj : Dirent} {rest : List Dirent} {text all : Bytes}
        → obj.kind ≡ Kind.directory
        → (Among obj.name hidden → ⊥)
        → IsListing w dir rest text
        → all
          ≡ codes "[D]:"
            ++ (print_dec (shown_size (stat w (dir ++ b'/' ∷ obj.name)))
                ++ b':' ∷ (obj.name ++ b'\n' ∷ text))
        → IsListing w dir (obj ∷ rest) all

  -- The text is the one that the code's own rows make.
  pub IsListing-listing :
      {w : World} {dir : Bytes} {entries : List Dirent} {text : Bytes}
      → IsListing w dir entries text
      → listing os w dir entries ≡ text
  unfolding listing list_row row_tag
  IsListing-listing nothing = refl
  IsListing-listing {w} {dir} (leave {obj} {rest} h more) =
      rw (is_listed_hidden obj h) (IsListing-listing more)
  IsListing-listing {w} {dir} (file {obj} {rest} {text} {all} k shown more e) =
      rw (is_listed_shown obj (inl k) shown)
        (rw (k, IsListing-listing more) (rw e (simp append_assoc)))
  IsListing-listing {w} {dir} (folder {obj} {rest} {text} {all} k shown more e) =
      rw (is_listed_shown obj (inr k) shown)
        (rw (k, IsListing-listing more) (rw e (simp append_assoc)))

  -- Listing a directory, when memory does not run out, no entry has too long a path, and the text of the
  -- listing has at most 1023 bytes, gives that text with its digest: a row `[F]:size:name` for each file
  -- and a row `[D]:size:name` for each directory, in the order of `readdir`, but none for the names `.`,
  -- `..` and `.cape` and the two paths of the database, and none for any other kind of entry; the buffer
  -- is not overrun.
  pub f_list_dir_listed :
      (sha : Sha256) (w : World) (path : Bytes) (st : Stat) (entries : List Dirent) (text : Bytes)
      → stat w path ≡ some st
      → st.kind ≡ Kind.directory
      → os.read_dir w path ≡ some entries
      → AreShort os path entries
      → IsListing w path entries text
      → length text ≤ 1023
      → f_list_dir os sha plenty w (some path)
        ≡ ok (RetCode.op_success, some (listed_content os sha path text))
  f_list_dir_listed sha w path st entries text is dir opened short listed fits =
      let same = IsListing-listing listed in
      subst
        (λ (b : Bytes).
          f_list_dir os sha plenty w (some path)
          ≡ ok (RetCode.op_success, some (listed_content os sha path b)))
        same (f_list_dir-listing os sha w path st entries is dir opened short (rw same fits))
