-- ===== src/Lib.antt =====
-- Verification of the mcon library of the MongoDB driver for HHVM (src/mcon).
--
-- mcon keeps connections to MongoDB servers: a connection string is parsed into server definitions
-- and options, each definition is turned into a hash that identifies its connection, the manager
-- registers connections under their hashes, and a read preference decides which of the registered
-- connections an operation uses.
--
-- The files and what they model:
--   Base          tests on numbers, lists measured by native numbers, the integers of C
--   CLib          strings as lists of bytes, less the NUL, and strcmp, strcasecmp, strchr, strrchr,
--                 strtol, atoi, printf %d
--   Memory        heap blocks: realloc, writing and reading a cell, undefined outside the block
--   Types         src/mcon/types.h and the constants of src/mcon/read_preference.h
--   Collection    src/mcon/collection.c: mcon_init_collection, mcon_collection_add,
--                 mcon_collection_iterate; Laws: what a collection represents; Gather: the loop that
--                 fills one
--   Str           src/mcon/str.c: mcon_str_addl, mcon_str_add, mcon_str_add_int; Append, Number
--   Hash          src/mcon/utils.c: Create (mongo_server_create_hash,
--                 mongo_server_create_hashed_password), Split (mongo_server_split_hash,
--                 mongo_server_hash_to_server, mongo_server_hash_to_pid), and the proofs in Pid,
--                 RoundTrip and Size
--   ReadPreference  src/mcon/read_preference.c: Candidates and Find (mongo_find_candidate_servers
--                 and its filters, mongo_read_preference_squash_tagset), Sort (mongo_sort_servers and
--                 its comparisons), Pick (mongo_select_nearest_servers, mongo_pick_server_from_set and
--                 their composition), Select (the second half of
--                 mongo_get_read_write_connection_replicaset of
--                 src/mcon/manager.c), and the proofs in the other children
--   Manager       src/mcon/manager.c: Registry (mongo_manager_find_by_hash, mongo_manager_register,
--                 mongo_manager_deregister, what is built on them for connections and the blacklist,
--                 and the callbacks of a connection), Wire (mongo_mcon_supports_wire_version), Contains
--                 (mongo_servers_contains), Laws and Invariant (proofs)
--   Parse         src/mcon/parse.c: Outcome (mongo_parse_init), Tags (parse_read_preference_tags),
--                 Options and Store (mongo_store_option), OptionString (mongo_process_option,
--                 mongo_parse_options), Hosts (mongo_add_parsed_server_addr and the host loop), Spec
--                 (mongo_parse_server_spec), Copy (mongo_servers_copy and what it calls); proofs in
--                 Chain, Keeps, KeepsEach, KeepsAll, TagString, Slices, OptionList, HostList,
--                 SpecString and Login
--   Bson          src/mcon/mini_bson.c and src/mcon/bson_helpers.c: Reader (bson_next,
--                 bson_get_current, bson_find_field), Fields (bson_find_field_as_* and
--                 bson_array_find_next_*), Write (mcon_serialize_*, bson_add_*), Packets
--                 (bson_create_*_packet); Document (how documents are written), Values (what they mean in C); proofs in Walk, Find,
--                 Regexp, Kind, Located, ReadAt, ReadBack and Strings for the readers, in Written, Sealed and
--                 Commands for the packets
--   Connection    src/mcon/connections.c: Effect (the state: a connection, and a world that the
--                 callbacks change), Create (mongo_connection_create, mongo_connection_destroy), Send
--                 (mongo_connect_send_packet), Ping (mongo_connection_ping), Reply, Tags, Discover,
--                 Decode and Ismaster (mongo_connection_ismaster), Version and Buildinfo
--                 (mongo_connection_get_server_version, mongo_connection_getnonce), Login
--                 (mongo_connection_authenticate and what it calls), Sasl
--                 (mongo_connection_authenticate_saslstart and _saslcontinue), Double (the tests on
--                 the double ok); proofs in Clock, Sent, Meaning, Arrays, Outcome, Sound and Identity
--                 over Keeps, Kept, Frame, LoginFrame and Invert
--   Pool          src/mcon/manager.c: Effect (the state: the manager and the world; an operation on a
--                 registered connection changes its item), Establish and Single
--                 (mongo_get_connection_single), Topology (mongo_discover_topology), Forget (the callback
--                 forget in mongo_filter_connections), Replicaset
--                 (mongo_get_read_write_connection_replicaset), Message and Multiple
--                 (mongo_get_connection_multiple), Api (mongo_get_read_write_connection); proofs in
--                 SingleLaws, Blacklist, TopologyLaws, ReplicasetLaws, MultipleLaws, ApiLaws and
--                 Destroyed over Triple, Update, Handshake and Registered
--   Tests         concrete inputs for the theorems
--
-- How they interact: Parse makes the ServerDef values that Hash turns into hashes; Pool looks the hash
-- up in the blacklist and in the registry of Manager, and pings the connection that is there or makes,
-- asks and registers a new one with the operations of Connection, which write packets and read replies
-- with Bson over Str; it then discovers the other members of a replica set, and ReadPreference splits
-- the hashes again to filter the registered connections and picks one.
--
-- Undefined behaviour of C (a NULL that is followed, a read behind a NUL, a write outside a block or
-- an array, a remainder by 0) is `none`, so a theorem that a function returns `some` also says that it
-- is defined there. A sum of `int`s wraps around where the code may reach it; the sums of the lengths
-- of Str and the sizes of Collection are undefined where they do not fit in an `int`, and other lengths
-- are natural numbers. Allocation does not fail. A pointer into a string is an index.
-- Parameters are MD5 (a function to hexadecimal digits), `getpid()` (a number), `qsort` (a function that
-- sorts and keeps the elements, `ReadPreference.Sort.Qsort`), and the record `Connection.Effect.Io` of
-- the callbacks of the manager, which read and change a world of any type: connect, send, recv_header,
-- recv_data, close, the cleanup of cursors, forget, supports_wire_version, and with them gettimeofday and rand.
-- A callback that reads returns the bytes it read. The number that the pick of a server draws is an
-- argument. The callback `authenticate` of the manager is a parameter of Pool, of which the theorems
-- assume that it leaves the hash of a connection alone; mongo_connection_authenticate does. The
-- connections of the manager are a list in the order of their registration; the hashes of the items whose
-- connection was freed while the item stayed are kept beside it, and following such an item's pointer is
-- undefined.
-- Loops are structural recursion, but for those that follow lengths in a document and may be endless:
-- the search for a field, and the loops over tags and hosts. They take one turn more than the buffer has
-- bytes as fuel, which is enough for a document that is written from elements; without an end the
-- result is `none`. The loop over the servers of the topology has sixteen turns, as many as the array
-- holds.
--
-- Not modelled: logging and the printing of connections, freeing memory (but for the cleanup
-- callbacks), mongo_init and mongo_deinit, sockets and the streams of PHP, a copy of which is in
-- src/stream, and the bindings to HHVM in src/ext_mongo.cpp and its neighbours, which only call the
-- library.
pub mod Base
pub mod CLib
pub mod Memory
pub mod Types
pub mod Collection
pub mod Str
pub mod Hash
pub mod ReadPreference
pub mod Manager
pub mod Parse
pub mod Bson
pub mod Connection
pub mod Pool
pub mod Tests
