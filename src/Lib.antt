-- ===== src/Lib.antt =====
-- ShardDNS, an authoritative DNS server in Go: its message codec, its record data, and its answers.
--
-- The server's workers read a request from a UDP or a TCP socket, parse it
-- (`ParseMessage`), pass it to the handler (`Handler.Handle`), which asks a resolver for zones and
-- for the records of a name, and pack the response (`Pack`, `PackUDP`). Each part has its module:
--
--   Prelude      bytes, texts, Go's `strings` and `strconv`, bits of words, results
--   Wire         internal/dns/message.go: constants, `Header`, `Question`, `RR`, `Message`, the
--                flag words, `SetEDNS0`, `UDPSize`, `NewResponse`, `TypeName`, `TypeCode`
--   Name         internal/dns/message.go: `ParseName`, `PackName`, `AppendName`; in Name/Validate
--                internal/dns/names.go: `ValidateName`
--   Codec        internal/dns/message.go: `ParseMessage`, `Pack`, `PackUDP`, `AppendOPT`
--   RData        internal/dns/rdata.go: `BuildRData`, `BuildSOA`, `RDataNames` and the text readers
--   Zones        internal/store/store.go: `Zone`, `Record`, `NameSet`, `Resolver`
--   Handler      internal/dns/handler.go: records served and their rotation; Handler/Lookup has
--                `lookup`, Handler/Response the glue and the negative answers, Handler/Resolve
--                `resolve` and `Handle`
--   Cache        internal/cache/cache.go: shards, epochs, expiry, eviction
--   Cached       internal/store/cached.go: the resolver with caches of zones and of names
--   Store        internal/store/store.go, zone.go and record.go: normal forms of names, the tables and
--                every operation on them
--   Node         cmd/sharddnsd/main.go and internal/events/bus.go: a store with caches before it, and
--                the changes that it is told of
--   Service      internal/api/service.go: every call of the management API
--   Server       internal/dns/server.go: the answers of `serveUDP` and `tcpConnLoop`, `formErr`; in
--                Server/Workers the goroutines of `Serve`, in Server/Frames a stream of messages
--   Cli          cmd/sharddns/main.go: the command line of the admin client; in Cli/Served the service
--                as it sees it, behind the interceptor of cmd/sharddnsd/main.go
--   Config       internal/config/config.go: the settings and their defaults
--   Daemon       cmd/sharddnsd/main.go: `run`, `connectStore`, `newLogger`, `healthcheck`, and `/readyz`
--   Tests        runs at concrete inputs
--
-- A Go string or byte slice is a list of numbers, each a byte. A word of w bits is a number with
-- its wrap-around written out. An error of Go is a constructor of the part's own type; `PackError`
-- and `RDataError` carry the bytes that Go returns beside the error. A method that changes its
-- receiver returns the changed value (`pack`, `pack_udp`), and the handler's atomic counter is a
-- field of `Work`, passed from call to call: one request is handled at a time. A context's deadline
-- and the logger are left out; a resolver that runs out of time answers an error.
--
-- `parse_name` runs on 272 rounds of fuel: 16 pointers at most and 254 bytes of labels at most
-- leave no round wanting. `read_loop` and the loops over quoted strings take the text's own
-- length. `resolve` has its source's own bound of 8 follow-ups.
--
-- What Go's library does with text that is not ASCII, with IP addresses and with base64 is not in
-- the repository: it is a parameter, the record `GoRuntime`. Lower case, upper case, trimming and
-- fields of ASCII text are computed. A `Resolver` is a parameter of the handler, as it is in the
-- source.
--
-- A call of the cache is one step. A call for one key holds the lock of its shard throughout, but
-- `DeleteGroup` and `Clear` lock one shard after another, so that other calls may come in between:
-- these interleavings are left out. The hash of
-- `hash/maphash` and the order in which Go ranges over a map are parameters; the bound on the cache
-- supposes that the order visits every key of the map. The resolver behind the caches is an argument
-- of each call, since its answers change with the database. The bytes of a TCP connection are a
-- list, whose length is fuel enough: each message takes fourteen bytes at least.
--
-- The tables of db/schema.sql are lists of rows in the order of insertion. A statement of SQL is the
-- operation on them that its text says, an argument says which statements of a call the database
-- fails, and a failed statement or commit changes nothing. A query without ORDER BY answers in the
-- table's order, and an identifier is the next number, with none skipped for a rolled-back
-- insertion. The database's `md5` and its collation of zone names are parameters. A transaction is
-- one step. The service answers a failure of the database with a code that is a parameter, since
-- the state of the call's context decides it.
--
-- A run of a node is a sequence of look-ups and of changes, each with its notification before the
-- next step; the changes that other nodes announce come later there, as NATS delivers them.
--
-- The goroutines of the DNS server are a step relation: a step is what one of them does between two
-- points where another may go on. `sync.Pool` hands out any buffer that it has, or a new one, and may
-- lose what it has; the channel of jobs is a list; the context's end and the closing of the sockets
-- are one step. A job is answered in one step, with the counter of the rotation that it finds.
--
-- The admin client is a function of a state that the calls of its client change. What package `flag`
-- reads from the flags of `zone create` and `zone update` is a parameter, a table that is printed is
-- the list that it shows, and a message is left out. The Authorization header is supposed to arrive as
-- the client sets it: net/http trims blanks around it and refuses a line end in it. The loops over the pages of a list take the
-- number of pages as fuel: one more than the rows of the list is enough.
--
-- A start of the server is the list of what it acquires, releases and does, by what the database, NATS
-- and the system answer to each call. The thirty attempts of `connectStore` are its fuel. The sockets
-- of the DNS server and of the API are not among what is acquired: a run that fails between the two
-- leaves the first to the end of the process.
--
-- Not modelled: the sockets and deadlines of internal/dns/server.go, the SQL driver, the code
-- generated for the API, and NATS itself.
pub mod Prelude
pub mod Wire
pub mod Name
pub mod Codec
pub mod RData
pub mod Zones
pub mod Handler
pub mod Cache
pub mod Cached
pub mod Server
pub mod Store
pub mod Node
pub mod Service
pub mod Config
pub mod Daemon
pub mod Cli
mod Tests
