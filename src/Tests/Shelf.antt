-- ===== src/Tests/Shelf.antt =====
-- Runs of the theorems on the listing of a directory.
use bsle.Prelude.{
  inl, inr, ◌≢◌, false, eq→eq_bytes, ◌≡◌, refl, true, some, List, [], ◌∷◌, ◌++◌, arith, Bytes,
  codes, length, replicate, ok, fault, plenty, eq_bytes, if◌then◌else◌,
}
use bsle.Server.{RetCode}
use bsle.Decimal.{print_dec}
use bsle.Os.{Os, Kind, Stat, Dirent}
use bsle.FileApi.Listing.{is_listed, list_row, f_list_dir}
use bsle.FileApi.Listing.Rows.{listing, AreShort, listed_content, f_list_dir_overflow}
use bsle.FileApi.Listing.Shown.{hidden, Among, IsListing, nothing, leave, file, f_list_dir_listed}
use bsle.Tests.World.{disk, sha, home}

abbrev home_stat : Stat
home_stat = record { kind = Kind.directory; mode = 511; size = 4096 }

abbrev plain : Bytes → Dirent
plain name = record { kind = Kind.regular; name = name }

-- A disk whose directories have these entries, and whose files have a size of 7.
abbrev with_entries : List Dirent → Os
with_entries entries = record disk {
  stat = λ w path. some (
      if eq_bytes path home
      then home_stat
      else record { kind = Kind.regular; mode = 420; size = 7 });
  read_dir = λ w path. some entries;
}

abbrev few : List Dirent
few =
    record { kind = Kind.directory; name = codes "." }
    ∷ record { kind = Kind.directory; name = codes ".cape" }
    ∷ plain (codes "a.txt")
    ∷ []

few_short : AreShort disk home few
few_short = (omega arith, (omega arith, (omega arith, tt)))

unlike : (x y : Bytes) → eq_bytes x y ≡ false → x ≢ y
unlike x y other e = let alike = eq→eq_bytes x y e in cc

abbrev text_name : Bytes
text_name = codes "a.txt"

a_shown : Among text_name hidden → ⊥
a_shown (inl e) = unlike text_name (codes ".") refl e
a_shown (inr (inl e)) = unlike text_name (codes "..") refl e
a_shown (inr (inr (inl e))) = unlike text_name (codes ".cape") refl e
a_shown (inr (inr (inr (inl e)))) = unlike text_name (codes ".cape/.cape.hash") refl e
a_shown (inr (inr (inr (inr (inl e))))) = unlike text_name (codes ".cape/.cape.db") refl e
a_shown (inr (inr (inr (inr (inr n))))) = absurd n

few-IsListing : IsListing (with_entries few) [] home few (codes "[F]:7:a.txt\n")
unfolding print_dec
few-IsListing =
    leave (inr (inl refl)) (leave (inr (inr (inr (inl refl)))) (file refl a_shown nothing refl))

f_list_dir_listed_example :
    f_list_dir (with_entries few) sha plenty [] (some home)
    ≡ ok (
      RetCode.op_success,
      some (listed_content (with_entries few) sha home (codes "[F]:7:a.txt\n")),
    )
f_list_dir_listed_example =
    f_list_dir_listed (with_entries few) sha [] home home_stat few (codes "[F]:7:a.txt\n") refl refl
      refl few_short few-IsListing (omega arith)

-- Four files with long names.
abbrev long_name : Bytes
long_name = replicate 240 b'n'

abbrev four : List Dirent
four = plain long_name ∷ plain long_name ∷ plain long_name ∷ plain long_name ∷ []

abbrev fifth : Dirent
fifth = plain (replicate 30 b'n')

abbrev crowd : Os
crowd = with_entries (four ++ fifth ∷ [])

four_short : AreShort crowd home four
four_short = (omega arith, (omega arith, (omega arith, (omega arith, tt))))

four-length : length (listing crowd [] home four) ≡ 988
unfolding listing is_listed list_row print_dec
four-length = refl

fifth_listed : is_listed fifth ≡ true
unfolding is_listed
fifth_listed = refl

fifth-length : length (list_row fifth 7) ≡ 37
unfolding list_row print_dec
fifth-length = refl

f_list_dir_overflow_example : f_list_dir crowd sha plenty [] (some home) ≡ fault
f_list_dir_overflow_example =
    f_list_dir_overflow crowd sha plenty [] home home_stat four [] fifth refl refl refl refl
      four_short (omega arith) fifth_listed (omega (arith, four-length))
      (omega (arith, four-length, fifth-length))
