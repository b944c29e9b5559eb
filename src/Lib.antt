-- ===== src/Lib.antt =====
-- BSLE, a file server with user accounts: a model of its C code and theorems about it.
--
-- The server listens on a port; a connection brings one request, which names an operation, a user
-- with a password, and a session. The request is authenticated against the table of users, its
-- session is checked or made, the operation is performed if the user's permission allows it, and the
-- response is written. The users are kept in a file in the home directory of the server.
--
-- The files, and the code that each is about:
--   Prelude            shared names, Boolean tests, lemmas on lists, the results of C code
--   Server             include/server.h, include/server_crypto.h: constants, return codes, records
--   Crypto             src/server/server_crypto.c: hash_compare and its callers, hash_byte_array,
--                      hex_char_to_byte_array, print_b_array
--   Os                 the calls of the operating system, a parameter
--   Paths              src/server/server_file_api.c: join_paths, f_path_resolve, f_valid_resolve
--   FileApi            the same file: f_create_dir, f_del_file, f_open_file, f_write_file, and in
--                      FileApi/Read f_read_file, in FileApi/Listing f_list_dir
--   Decimal            decimal text, for the formats of the database and for `strtol`
--   Table              the hash table library, a parameter with its laws
--   Db                 src/server/server_db.c: db_create_user, db_remove_user, db_authenticate_user,
--                      db_shutdown; Db/Codec the text of the database, written by db_update_db and read
--                      by populate_htable; Db/Files the files it lies in; Db/Init db_init; Db/Abstract
--                      the map from names to accounts that the database stands for; Db/Threads
--                      db_create_user in several threads
--   Wire               include/server_ctrl.h, include/server_db.h: requests and responses
--   Ctrl               src/server/server_ctrl.c: the sessions and the actions, and in Ctrl/Action
--                      ctrl_parse_action
--   Utils              src/server/utils.c: htonll, ntohll, swap_byte_order; what they do to the bytes is in
--                      Utils/Order
--   Sock               src/server/server_sock.c: read_stream, make_byte_array; Sock/Read the request,
--                      Sock/Read/Encode the request as the client sends it,
--                      Sock/Write the response, Sock/Serve serve_client, Sock/Serve/Reach
--                      sequences of connections, Sock/Listen server_listen, Sock/Start start_server
--                      with its signals and jobs
--   Release            what frees a request and its response: ctrl_destroy of src/server/server_ctrl.c and
--                      the functions that it calls, destroy_worker_pld, args_destroy,
--                      db_free_value_callback
--   Args               src/server/server_args.c: get_port, get_timeout, get_home_dir, args_parse
--   Main               src/server/server_main.c: main
--   Tests              concrete machines, and runs of the theorems on them
-- The modules below a component, such as Db/Users or Sock/Stream, hold its theorems.
--
-- How C code becomes functions. A byte string is a list of numbers, with no terminator; a pointer that
-- may be NULL is an `Option`. `Run` is the result of a piece of C code: `ok` with a value, `fault` for a
-- read or write outside an object or through NULL, and `stuck` for a loop that used up its fuel. Every
-- allocation asks the oracle `Mem`, whose i-th value says whether the i-th allocation succeeds, so each
-- branch on a failed allocation is there. Freeing is left out but in Release, where a pointer is an
-- address and the allocator of the C library is the parameter Allocator. Sizes and counters wrap
-- around where the code can make them do so. The file system is a state that the operations pass on.
--
-- Fuel: the search for a session's number, the loop of hex_char_to_byte_array and that of
-- populate_htable run on fuel. The first is enough if it has a round for each number drawn up to
-- one that is free, the second if the text is hexadecimal and there is a round for each byte and
-- one more, the third with a round for each account and one more. The loops of read_stream, of
-- write_response and of start_server follow the list of what the calls of `read`, `write` and `accept`
-- return; the last is `stuck`, since it still waits, where that list ends before an interrupt.
--
-- Connections at once. The thread pool is a library outside the repository, the parameter Pool of
-- Sock/Start, which says what its threads do with the jobs. It is known only of a single thread, as on a
-- machine with one processor, that it does each job once, one after the other; the serving of several
-- threads at once is left to the parameter. The code locks nothing, so Db/Threads has several calls of
-- db_create_user whose steps interleave: a look-up, an insertion and a writing of the files are one step
-- each, and what two of them do to the table when they overlap is not modelled.
--
-- Memory behind a block. get_stored_data makes no terminator for the text that sscanf then reads: what
-- follows the block in memory is the parameter `behind` of Base, and where there is no 0 it is a fault.
--
-- Not modelled: jobs whose other steps interleave; what the thread pool and the hash table library do
-- inside; what the operations and main free on their way; the functions that only print, with
-- get_ip_port; the Python client.
pub mod Main
pub mod Args
pub mod Prelude
pub mod Server
pub mod Crypto
pub mod Os
pub mod Paths
pub mod FileApi
pub mod Decimal
pub mod Table
pub mod Db
pub mod Wire
pub mod Ctrl
pub mod Utils
pub mod Sock
pub mod Release
pub mod Tests
