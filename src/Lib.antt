-- ===== src/Lib.antt =====
-- xixibase, a cache server (src/ of the repository): its cache manager, the watches by which clients
-- hear of changes, its clock, the messages of its binary protocol, and the sessions that speak it or HTTP.
--
-- Parts. A session (src/peer_cache.cpp) reads a message header, then a fixed body of the length that
-- the header names, then the key or the item that the body tells of, calls the cache manager
-- (src/cache.h, src/cache.cpp), one object behind one lock, and puts the answer in line. The manager
-- keeps items with reference counts in a hash map by key, in one of 34 lists by remaining life, and in
-- lists of free items by size class; a timer advances the clock (src/currtime.cpp) and lets the manager drop what has expired. An item may carry the ids of watches;
-- when it changes, each watch queues the item's cache id until its client acknowledges the batch. A session of a web client
-- (src/peer_http.cpp) reads the head of a request, and the body of a POST request, takes the arguments from the URI or the
-- body, calls the same manager, and answers with a page or with the data of an item, which may come from a file.
--
-- Files.
--   Prelude: tests on numbers, lists and finite updates.
--   CurrTime: Current_Time. Watch: Cache_Watch. Stats: which counters the manager calls.
--   CacheMgr: Cache_Mgr. State holds its record and the items; Classes get_class_id; Expirations
--   get_expiration_id; Items the private do_ operations; Store add, set, replace and remove; Access
--   get, get_touch, update_flags and update_expiration; Extend append and prepend; Sweep the expiry
--   and flush; Watches create_watch and the checks. View, Entries, Effects, Linking and Changing hold the
--   view by keys and the lemmas on it; Storing, Removing, Getting, Updating and Deadlines the theorems.
--   Allocating: what do_alloc gives. Delta: the operation delta, on top of Extend and Items.
--   IntrusiveList: the links of src/xixi_list.hpp; Segments, Refines and Removes hold its theorems.
--   ReceiveBuffer: Receive_Buffer of src/util.h, with Room. CacheBuffer: src/cache_buffer.hpp, with Regions.
--   Session: Peer_Cache of src/peer_cache.h and src/peer_cache.cpp. Peer holds its record and the replies;
--   Requests, Updates and Watching the handlers; Process the switches; Loop the loop `process`; Network what
--   the sockets and the timer call. Replies, Keyed and Framing show what is answered; Ends, Turns, Progress,
--   Halting and Outcome when the loop ends.
--   Http: Peer_Http of src/peer_http.h and src/peer_http.cpp. State holds its record and what it prints; Replies the
--   texts and write_error; Text, Args and Fields what is read from a request; Files the lookup of an item; Gzip
--   gzip_encode; Gets, Commands and Watching the handlers; Dispatch process_command; Post and Header the bodies
--   and heads; Loop the loop `process`; Network what the sockets and the timer call. Answering,
--   ArgsKept, CommandReplies, Lookups, Encodings, GetReplies, WatchReplies, Dispatched, PostReplies,
--   HeadRead and HeadTaken show what is answered; Ending that the loop ends; Decoding, Splitting, Paths
--   and Sizes the theorems on the URI, the arguments, the path and the encoding.
--   CacheMgr.Files: load_from_file. Util.Text: strcasecmp and get_suffix of src/util.cpp, and the C library's searches.
--   HashMap: the table of src/xixi_hash_map.hpp; Counts and Placed hold its theorems.
--   Wire: the byte swaps and number macros of src/util.h. Pdu: the requests and responses of
--   src/peer_cache_pdu.h and src/peer_pdu.h, decode_pdu of src/peer_pdu.cpp and the length that
--   process_header of src/peer_cache.cpp picks. Util: parsers and searches of src/util.cpp.
--   Tests: the theorems at a concrete cache, watch, message and session.
--
-- Correspondence. An operation of Cache_Mgr is a function from the whole state `Mgr` and its arguments
-- to its result and the next state. Pointers to items are addresses, and `items` is the heap; a list
-- template is a list of addresses; the hash map is the list of its entries, newest first. The clock's
-- value, the outcomes of malloc and the sizes of its blocks, the sinks that still exist and `sizeof(Cache_Item)` are fields of the
-- state. Calls of statistics and of sinks are recorded in the order in which they are made. A session's
-- record holds the cache, since each of its steps has the cache's lock for its call; what the socket
-- gives to a read is a list of pieces; a write through a null pointer is the flag `crashed`, behind
-- which nothing happens. In the HTTP session a pointer into a text is the text from there on, as long as it is known: a
-- text that a later request overwrites is not followed, and past the end of a body nothing is found. A text
-- printed by _snprintf is put into its region as far as it fits, and its chunk has the size of all of it. An operation named f that goes on after do_get has its second half in f_found. Numbers are natural
-- numbers with the wrap of their C type written out.
--
-- Bounds. Loops run over lists or over a number of rounds that the source itself fixes (100 watch ids,
-- 33 or 34 lists, the classes below class_id_max_), so no fuel runs out. The loop of a session runs on
-- fuel; eight times the bytes to come and six rounds are enough (five for HTTP). The loops over the arguments, the fields and
-- the parts of a body have as many rounds as the text has bytes, and each round takes at least one.
--
-- Not modelled: the threads (each operation holds the lock from start to end), the hash table's remove by
-- pointer and its failing malloc, move_to_back and the node classes of the list, the statistics'
-- counters and their text (an argument of the session, as the hash of src/lookup3.cpp is), what a login
-- finds, Cache_Mgr::init, the delivery of the sinks' calls to other sessions, the reading of the
-- settings, logging, what boost::filesystem and zlib compute (arguments of the HTTP session), its unused login, and the bundled libraries. Asserts compile away in a release build and are not
-- part of the operations.
pub mod Prelude
pub mod CurrTime
pub mod Watch
pub mod Stats
pub mod Wire
pub mod CacheMgr
pub mod Pdu
pub mod Util
pub mod Tests
pub mod HashMap
pub mod Http
pub mod IntrusiveList
pub mod ReceiveBuffer
pub mod CacheBuffer
pub mod Session
