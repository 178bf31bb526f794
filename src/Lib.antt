-- ===== src/Lib.antt =====
-- Notbit, a Bitmessage client as a mail transport: its codecs, containers, wire format,
-- connections, peers and proof of work.
--
-- The daemon receives commands and objects from peers, parses them with the wire format of
-- src/ntb-proto.c, keeps them in tables of src/ntb-hash-table.c, and turns messages into mails and
-- mails into messages, for which it decodes base 64 and quoted-printable and reads addresses in
-- base 58. All output is gathered in the buffers of src/ntb-buffer.c.
--
-- Parts:
-- - Common: Boolean tests, lists over native numbers, and Outcome, the result of C code that reads
--   memory: ok, fail (the function reports an error) or fault (it reads or writes outside an
--   object).
-- - Proto (src/ntb-proto.c, src/ntb-proto.h): Types has the structures and small tables, Read the
--   readers down to ntb_proto_get_command, Write the writers and ntb_proto_add_command, Objects
--   ntb_proto_get_decrypted_msg and ntb_proto_get_pubkey. A pair of a pointer and a length is a
--   Cursor: the memory from the pointer to the end of its object, and the length, which may be more
--   than that. The function names are those of the source without ntb_proto_. The other modules are
--   proofs: Integers, RoundTrip, Bounds (how far readers move), Memory (what they touch), Messages,
--   Pubkeys, Frame and Overread.
-- - Buffer (src/ntb-buffer.c): a buffer is its contents and the size allocated. Growth is about the
--   doubling loop and Append about the operations. Proto sees a buffer through its contents only.
-- - Base58 (src/ntb-base58.c) and Address (src/ntb-address.c). A BIGNUM is a natural number. Base58
--   takes BN_bin2bn and BN_bn2bin as a parameter BigNum with their documented laws, and Instance
--   has functions that satisfy them; Address takes SHA512 and RIPEMD160 as a parameter Digests.
-- - HashTable (src/ntb-hash-table.c): a chain of entries is a list, the table a list of chains.
--   Index is about the place of a hash, Placing and Grow about the loops that move the entries,
--   Lookup about what is found, Setting about ntb_hash_table_set, Unlink and Removing about
--   ntb_hash_table_remove, Runs and Counting about any sequence of calls.
-- - Base64 (src/ntb-base64.c): the decoder with its state, decode_end and the encoder; Letters,
--   Pieces and RoundTrip are proofs.
-- - QuotedPrintable (src/ntb-quoted-printable.c): the decoder's modes and loop as in the source;
--   Automaton describes it byte by byte, and Refinement shows that both
--   agree.
-- - Connection (src/ntb-connection.c): the structure of a connection and its events, with the
--   contents of its queues in place of their entries. Handlers has the handlers of commands and
--   their table, Commands process_command and process_commands, Sending what is written, Objects the
--   queues of objects, Polling the callbacks of the main loop, all under the names of the source.
--   The results of system calls and the clock are arguments, and SHA512 is a parameter; so is the
--   listener, which answers and may change the connection, since the network calls back into it.
--   Answering has the calls that it makes, and Ordered says when the queues are in order. Effects
--   and Receiving are about any bytes that come in, Names, Frames, Version, Greeting and Hashes
--   about the commands in them, Opened and Packing about the lists of hashes that are written,
--   Queues, Progress, Asking and Life about the queues over all steps. It uses the readers, the
--   writers and the frames of Proto.
-- - Network (src/ntb-network.c): Addrs has the addresses, Peers the peers with their greeting and
--   the attempts to connect, Starting what a node starts with and is given. A pointer is the number
--   that a peer or an address got when it was allocated, and what is sent to a peer is a list of
--   messages, whose bytes Connection.Sending gives. Whether a connection could be made, the clocks
--   and the number from rand are arguments; times are not negative. Picking is about the address
--   that is connected to, Roster, Limits, Counting, Keeping, Loading and Steps about the numbers of
--   peers over all steps; what the store and the name servers give is an argument, and an address is
--   only given while an attempt to connect is queued, as in src/ntb-daemon.c. Judging has the test
--   of the objects that are rejected, which uses Pow. These modules have of the inventory the hashes
--   that are known and what send_inventory reads.
-- - Network.Items (src/ntb-network.c): the inventory, from the memory of its items to the table of
--   HashTable and the lists. An item is a cell behind its address. Objects has add_object and what
--   it calls, Collecting the collection of old items and the end of a peer. What is sent, stored and
--   announced is a list of actions; what the unset blob of a rejected item holds is an argument; the
--   listeners of the signal for new objects do not call back. Entered is about the table, Lists
--   about the lists, Sound has the invariant, Taking, Finding, Keeps, Gathered, Collected and Steps
--   show that everything that happens keeps it, Knowing and Again are about objects that were given,
--   Leaks about the two faults.
-- - Pow (src/ntb-pow.c): the target, the check and the search of a thread; Search and
--   Complete are proofs. Sharing has the cookie of a search with its reference count. What a thread
--   finds when it takes the mutex is an argument of the search, and a step of Sharing is what is
--   done while it is held.
-- - Mail (src/ntb-mail-parser.c): the parser for a mail that src/ntb-ipc.c reads in pieces. Mail has
--   the table of headers and what the end of a header does, Parsing the handler of each state, the
--   loop of ntb_mail_parser_parse, its end and the reading in pieces. The parsers of header values,
--   src/ntb-parse-addresses.c, src/ntb-parse-content-type.c and src/ntb-encoded-words.c, are the
--   interface ValueParsers. What the callbacks are given is gathered in the parser. The content goes
--   through Base64 and QuotedPrintable. Bytewise describes the parser as an automaton on single
--   bytes; Headers, Contents, Values, Rounds and Stream are about the handlers, the decoders and the
--   pieces against it, Sources about the source of a mail.
-- - Mail.ContentType is src/ntb-parse-content-type.c, with Attributes and Ending as proofs.
-- - Mail.Addresses is src/ntb-parse-addresses.c, which writes the bytes of an address into the buffer
--   that it reads its list from: the buffer is an array with a length and the place that is read.
--   Plain is a parser with two buffers; Agreeing, Memory, InPlace and Ending are about the one
--   against the other, Written is about lists with names. It uses Address, and Base58.Letters for
--   the letters in a text. Mail.Accepting puts the two parsers in ValueParsers.
--
-- Integers of w bits are natural numbers with their wrap-around written out as a remainder by 2 ^
-- w. Bit operations on them are divisions and remainders, but for the index in a hash table, which
-- is bit_and. Strings are lists of byte values without the final zero.
--
-- Fuel: the doubling loop of a buffer runs on 64 rounds, which is enough for every request up to 2
-- ^ 63 from any size; the digit loop of base 58 on as many rounds as the number, which is more than
-- it has digits; the binary search for a digit on 58 rounds, one for each letter; the loop of the
-- quoted-printable decoder on as many rounds as there are bytes, since each round takes one; the
-- loop of process_commands on one more round than there are bytes, since each round but the last
-- takes a header of 24 bytes at least; the loop over a list of addresses on as
-- many as there are bytes, since each takes one at least; the loop over the attributes of a content type on
-- one more than there are bytes; the loop of the mail parser on twice as many rounds as there
-- are bytes, since of two rounds one at least takes a byte, and the loops over chunks of its content
-- on as many as there are bytes, since each takes one at least.
--
-- Not modelled: the printf functions of a buffer and the writing of an OpenSSL public key; the
-- release of memory; the opening and closing of sockets; the file of addresses, the store, the
-- keyring, the decoder of encoded words and the event loop.
pub mod Common
pub mod Buffer
pub mod Proto
pub mod Base58
pub mod Address
pub mod HashTable
pub mod Base64
pub mod QuotedPrintable
pub mod Connection
pub mod Network
pub mod Pow
pub mod Mail
