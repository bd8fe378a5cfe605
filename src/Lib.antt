-- ===== src/Lib.antt =====
-- PennCloud: a mail and file service in C++. A frontend asks the master (master/) by UDP which
-- storage node (kvstore/) serves a user, and talks to that node in text lines. Each node keeps the
-- files of its users in memory, moves the least recently used user to disk when memory is full,
-- writes a log and checkpoints, and, as a primary, sends its writes to a secondary.
--
-- Master/ models master/master.cc and master/conhash.cc. Hash is `hash_str`; Ring the server table
-- and `get_server_id`; Handler the requests "?", "!", "A" and "U" of the main loop, one function
-- each, on the record of the three global maps. `check_server_state` is the parameter `alive`.
--
-- Kv/ models kvstore/. Nodes is the doubly linked list of node.h and lrucache.cc on a heap of
-- addresses; Store the state of a node; Disk the chunks and extents of lrucache.cc; Cache `put` and
-- what it calls, and Ops the other operations of `LRUCache`; Commands the text commands, the log
-- and the migration of chunkserver.cc; Meta its metadata texts, checkpoints and recovery; Worker
-- the connections and the replication of kvstore.cc. A null pointer that is followed and an
-- exception are the outcome `fault`.
--
-- `LRUCache::put` calls itself through `load_user_from_disk` and loops while there is no room: it
-- recurses on fuel, and running out is the outcome `timeout`. A call whose value fits needs one
-- unit. `ceil` on floats is the parameter `float_ceil`. Integers of the C++ code that wrap (`int +=
-- size_t`) wrap in Prelude/Decimal; sequence numbers do not, since their overflow is undefined.
-- Files are a map from paths to bytes, and what a node sends is a list of pairs of a socket and a
-- text.
--
-- Frontend/ models frontend/. Text is the helpers of utils.cc; Requests the constructor of
-- request.cc, whose loop takes two units of fuel more than its input has bytes, since every line
-- but the last takes a byte; Balancer the table and the choice of load_balancer.cc, and
-- Balancer/Clients its probe and its answer to a client; Backend the messages of store.cc, whose
-- loop is on fuel, since it does not end on a closed connection; Pages the choice of a handler, the
-- login and the text of a response in response.cc. World is what a handler changes: the globals of
-- response.cc, the local files as a map from paths, and what has been sent. Mails reads and writes
-- the texts of mails; MailPages and FilePages are the handlers of mails and of files; Servers is
-- the tables of admin_console.h and Admin the console; Respond is the constructor `Response`, which
-- chooses a handler and runs it, and `client_handler` of frontend.cc. The loops over a reply and
-- over a list of servers get one unit of fuel more than the reply has lines or the list bytes,
-- since each round takes one. What other processes, the clock and the file system give is a
-- parameter, and so is what is read behind a pointer to a string that is gone.
--
-- Webmail/ models webmail/webmail_server.cc and webmail/webmail_utils.cc. Input reads a line into a
-- buffer of fixed size, and gives `fault` where it is written past its end; Client is the helpers
-- of a connection to another server; Send is `handle_send`, by which the frontend hands in a mail;
-- Session is the commands and the loop of `worker`. Parameters are the digest, what a storage node
-- and another server send, the files of the mailboxes, the string that comes of `handle_rcpt`,
-- which ends without its return, the bytes of the stack before a buffer, and whether a zero byte
-- stands behind the arrays that a command is copied to. The loop of a connection and the loop over
-- a mail are on fuel, since they do not end on a closed connection. A session says how many bytes
-- of replies its connection takes, and a round that writes more ends in `fault`, which is the
-- signal SIGPIPE.
--
-- The parts meet in three places: Master's list of servers is what Servers reads, the mail that
-- MailPages sends is the input of Session, and the replies that Mails reads are those of Kv's `get`
-- and `getlist`, in Backend's reader. Delivery puts them together for a mail between two users, and
-- Delivery/Inbox for the listing of a user's mails.
--
-- The other modules of a part are named for what is shown of it: Ring and Members of the master;
-- Nodes/Chain, Nodes/Relink, Nodes/SelfLink, Disk/RoundTrip, Disk/Spill, Cache/Puts, Cache/Appends,
-- Cache/Evict, Cache/Restore, Cache/Stranded, Ops/Hits, Ops/Lists, Ops/Writes, Ops/PutGet,
-- Commands/Lines, Commands/Fetched, Commands/Replay, Commands/Replicas, Commands/Evicted,
-- Meta/Records and Meta/RoundTrip of a storage node; Lines, Guard, Passwords, Mails/Lines,
-- Mails/Reading, Mails/Listing, MailPages/Inbox, FilePages/Uploads, FilePages/Folders,
-- Requests/RoundTrip, Servers/Listed, Servers/Masters, Respond/Guests and Respond/Clients of the
-- frontend; Client/Chunks, Input/Lines, Input/Bounds, Send/Letters, Send/Addresses, Send/Local,
-- Session/Rounds, Session/Receivers and Session/Frontends of the mail server.
--
-- StdMap is `std::map` by association lists in the order of their keys; Prelude holds shared types
-- and lemmas; Tests holds concrete runs.
--
-- Not modelled: sockets, writes that fail but for those of a round of the mail server, threads and
-- their interleavings, signals, verbose output, the accept loops, the DNS and MD5, and
-- webmail_client.cc, webmail_deliver.cc and client_def.cc of webmail/.
pub mod Prelude
pub mod StdMap
pub mod Master
pub mod Kv
pub mod Frontend
pub mod Webmail
pub mod Delivery
pub mod Tests
