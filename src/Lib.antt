-- ===== src/Lib.antt =====
-- Touchstone, a server that keeps the records of badges (tokens) on the Bitcoin SV chain.
--
-- A transaction moves badges if an input's unlocking script ends in "badge" or an output has the
-- badge locking script. The server takes transactions from clients and from peers, asks a
-- miner's API for their state, keeps them in MongoDB, checks their badge inputs and outputs, and
-- answers queries for unspent outputs, balances and inventories. Peers compare the hashes of
-- partitions of ten blocks and fetch from each other what differs.
--
-- The parts, with the files of the repository that they model:
--   Base          numbers of 64 bits, byte strings, lists, and the outcome of a call: a value, an
--                 error, a panic, or no end (`Outcome`, `Action`)
--   Wire          the transactions of btcsuite/btcd/wire, with the library's functions as a record
--   Util          util/bitcoin_util.go, util/common.go and util/http_util.go: the badge locking
--                 script (Script), the order of a batch (Sort, Dfs), pieces and keys (Common),
--                 hexadecimal (Hex), a request of HTTP (Http)
--   Conf          conf/config.go: the start height and the network
--   Models        models/: the four repositories, over a `Collection` of documents, the wrapper of
--                 the driver that makes collections (Mongo), and what is relied on of a collection
--                 that keeps its documents, whose calls may fail (Kept)
--   Services      services/touchstone_server.go: the check of a transaction (Validate), processing
--                 (Process), fetching and synchronisation (Sync), unspent outputs and balances
--                 (Utxos), pages (Pages), inventories (Inventories), payments (Send), partitions
--                 (PartitionHash), what follows the chain (Chain), the peers it connects to
--                 (Peers), the loops that run beside the requests (Loops), and the states that
--                 the calls lead to from an empty collection (Store)
--   Interceptor   interceptor/p2p_interceptor.go: the check of a peer's request, the headers that
--                 a client adds and the handshake of a connection (Handshake), and the reader that
--                 buffers it (Reader)
--   Http          interceptor/http_interceptor.go, controller/http_controller.go and the routes of
--                 main.go: what stands around a handler, the requests and the handlers
--   P2p           controller/p2p_controller.go: the handlers of the peers' requests
--   Mapi          mapi/: the client of the miner API and the adaptor that signs its requests
--   Start         main.go: the start of the program
--   Tests         examples over fixed documents, and over collections that keep them
--
-- A function keeps the name it has in Go, in the spelling of this library: `ParseMsgTx` is
-- `parse_msg_tx`. A call that reads or changes the database is an `Action` on a state `S` of any
-- type; the libraries, the database, the miner's API, the peers, the clock and the server's cache
-- of partitions are the fields of `Services.Env.Env`. A loop's body, and code that follows an
-- early return, may have a definition of its own. Texts are lists of bytes. An `int64` is an
-- integer with the wrap-around of 64 bits in `+64` and `-64`.
--
-- Fuel: `digits` and `split_loop` are given as much as their input is long, which is enough;
-- `sort_from` one round for each transaction. `read_parts`, `sync_offsets` and `note_partitions`
-- take a number of rounds, and end in `hang` when it is used up; so do `connect_peer_loop` and
-- `repeat_call`; `read_loop`, which needs at most one round more than chunks and bytes come
-- (`weight`); and the loop `visit`, which needs what the batch costs (`IsCost`).
--
-- Not modelled: the MongoDB driver and HTTP itself, JSON, reflection and gRPC, which are parameters;
-- a connection is the list of the chunks that come. The aggregations of the database; flags, and
-- how the servers that are started listen; the waits of the loops; locks, since one call is
-- modelled at a time; the messages of `NotifyTxs`, whose answers are not read; log lines.
pub mod Base
pub mod Wire
pub mod Util
pub mod Conf
pub mod Models
pub mod Services
pub mod Start
pub mod Interceptor
pub mod Http
pub mod P2p
pub mod Mapi
pub mod Tests
