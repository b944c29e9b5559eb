-- ===== src/Tests/Streams.antt =====
-- Runs of the theorems on digests and on the bytes of a connection.
use bsle.Prelude.{
  ◌≤◌, ◌≡◌, ◌≢◌, refl, true, false, some, [], ◌∷◌, List, arith, codes, stuck, Bytes, length, All,
}
use bsle.Server.{RetCode, Hash, max_msg_size}
use bsle.Crypto.{scan_hex, scan_none, hex_char_to_byte_array}
use bsle.Crypto.Hex.{hex_char_to_byte_array_diverges}
use bsle.Utils.{swap_byte_order}
use bsle.Sock.{closed, got, read_stream, std_payload_has_file}
use bsle.Sock.Stream.{read_stream_stopped, std_payload_has_file_sizes}
use bsle.Sock.Write.{WriteEvent, wrote, write_stream}
use bsle.Sock.Write.Sending.{sent_bytes, Progress, write_stream_complete}
use bsle.Tests.World.{roomy}

abbrev sevens : Hash
sevens = record { size = 3; array = 7 ∷ 7 ∷ 7 ∷ [] }

abbrev others : Hash
others = record { size = 3; array = 7 ∷ 7 ∷ 8 ∷ [] }

abbrev three : Bytes
three = 0 ∷ 171 ∷ 255 ∷ []

three_not_empty : three ≢ []
three_not_empty = λ e. cc

no_digits : scan_hex (codes "zz") ≡ scan_none
unfolding scan_hex
no_digits = refl

hex_char_to_byte_array_diverges_example :
    hex_char_to_byte_array roomy 1000 (some (codes "zz")) 2 ≡ stuck
hex_char_to_byte_array_diverges_example =
    hex_char_to_byte_array_diverges roomy 1000 (codes "zz") refl (omega arith) refl no_digits

closed_not_success : RetCode.op_sock_closed ≢ RetCode.op_success
closed_not_success = λ e. cc

read_stream_stopped_example :
    read_stream roomy (got 1 ∷ got 2 ∷ closed ∷ []) 3 ≡ (RetCode.op_sock_closed, [], [])
read_stream_stopped_example =
    read_stream_stopped roomy (1 ∷ 2 ∷ []) [] 3 closed refl refl closed_not_success (omega arith)

std_payload_has_file_sizes_example : std_payload_has_file 40 9 ≡ false
std_payload_has_file_sizes_example = std_payload_has_file_sizes 40 9 (omega arith) (omega arith)

-- Four calls of `write` that take two bytes, if there are so many.
abbrev pairs : List WriteEvent
pairs = wrote 2 ∷ wrote 2 ∷ wrote 2 ∷ wrote 2 ∷ []

pairs-Progress : Progress pairs
pairs-Progress = (omega arith, (omega arith, (omega arith, (omega arith, tt))))

write_stream_complete_example :
    ((write_stream pairs (5 ∷ 6 ∷ 7 ∷ []) 1).1 ≡ true)
    × (sent_bytes (write_stream pairs (5 ∷ 6 ∷ 7 ∷ []) 1).0 ≡ 5 ∷ 6 ∷ 7 ∷ [])
    × All (λ c. length c ≤ max_msg_size) (write_stream pairs (5 ∷ 6 ∷ 7 ∷ []) 1).0
write_stream_complete_example =
    write_stream_complete pairs (5 ∷ 6 ∷ 7 ∷ []) 1 (omega arith) pairs-Progress (omega arith)

swap_order : swap_byte_order 0x0102030405060708 ≡ 0x0807060504030201
unfolding swap_byte_order
swap_order = refl
