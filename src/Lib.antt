-- ===== src/Lib.antt =====
-- funkyd, a caching DNS resolver that forwards queries to upstream servers over TLS.
--
-- The program. A server (mutex_server.go) takes a request, looks in its cache and in the cache of
-- hosted zones (cache.go), and on a miss sends the question to an upstream (upstream.go) on a
-- connection from the pool (connpool.go), tries again on an error, puts the connection back, adds
-- the response to the cache and writes the reply. A cleaning crew (cache.go: the janitor and the
-- trashman) removes responses that have expired. A second server (pipeline_server.go) does the same
-- with workers that hand a query on over channels.
--
-- The files.
--   Base      numbers, texts, maps, lists and tests that the rest shares. A map is an association
--             list; a weight, a float64, is of any type with the operations of Base/Floats.
--   Dns       the fields of dns.Msg and dns.RR that the program uses. Records stand in a heap,
--             because cached messages and replies share them and Get writes to their TTLs.
--   Cache     cache.go: RecordCache with Add, Get, Remove, RemoveSlice, Clean, Evict and Size, and
--             Response with FormatKey, IsExpired and updateTtl.
--   Cache/Crew  cache.go: the trashman's and the janitor's loops, as steps on the cache. A
--             goroutine that Evict starts is an element of `evictions` until its send is received.
--   Config    config.go: Configuration, InitConfiguration and the defaults.
--   Log       log.go and server.go: the loggers, InitLoggers and logQuery.
--   Upstream, ConnEntry, ConnPool  upstream.go and connpool.go: Add is `add`, Get is `get`,
--             NewConnection is `new_connection`, CloseConnection is `close_connection`, and so on.
--   ConnPool/Lifecycle  the life of connections: the users' calls and the goroutines that
--             purgeUpstream starts, in any order.
--   Server, MutexServer, MutexServer/Handler  server.go and mutex_server.go: attemptExchange,
--             GetConnection, RecursiveQuery, RetrieveRecords, HandleDNS and NewMutexServer.
--   MutexServer/Concurrency  mutex_server.go: many calls of HandleDNS, with the semaphore, as steps.
--   MutexServer/Threads  mutex_server.go: the goroutines of HandleDNS side by side, with one step for
--             each call that takes a lock, and between them the janitor, the trashman and the
--             goroutines of purgeUpstream, in any order. A goroutine stands at a Stage.
--   Metrics   prom.go: the metrics, each with its options. Metrics/Samples has what the operations
--             of connpool.go write to them, in the order of their calls, and Metrics/Exchanges what
--             RecursiveQuery itself writes, beside the exchanges that it makes.
--   Pipeline  pipeline_server.go: the links of NewPipelineServer, AssignConnection and the connector.
--   Pipeline/Workers  pipeline_server.go: HandleDNS, Query, CheckCache, CacheQuery, and what the
--             querier, the cacher and the finisher do with one message.
--   Pipeline/System  pipeline_server.go: the workers together, each with the sends that it has
--             still to make, and the goroutines of purgeUpstream, as a step relation. A send waits
--             until its receiver is idle.
--   Zones     bind.go and main.go: ParseZoneFile and loadLocalZones, which fill the hosted cache.
--   Http      http.go and Shutdown of main.go: the handlers of the API, as the calls they make.
--   Main      main.go, version.go, blackhole_server.go: the program from its flags to the servers
--             that listen, with its exits.
--   Tests     concrete instances of the parameters, and an application of each theorem to them.
--   The other files hold the proofs, and are named for what they prove.
--
-- How the code is modelled. A mutex makes each operation one step on a record. Get of the cache
-- holds its lock for reading only, and is one step as well: that two of them overlap, and race on
-- the TTLs that they write, is not modelled. The clock is a parameter: `now i` is the i-th reading
-- within a call, and a time is a number of nanoseconds since the zero time; a period of the
-- configuration is an integer, and a negative one takes a time back no further than the zero time.
-- A dial, an exchange, sort.Slice, the conversion uint32(d.Seconds()) and the functions of
-- github.com/miekg/dns are parameters; what is relied on is stated where it is used (IsExact,
-- IsSort). A panic (an index out of range, a nil pointer) is a value of its own. No function runs
-- on fuel but the digits of a number, whose fuel is the number and one more; the retries of
-- RecursiveQuery are the bound of its loop. Times do not overflow; a TTL below 2^22 seconds is
-- assumed where uint32(d.Seconds()) is to be exact.
--
-- The files, the network, the flags and the JSON coder are parameters of Main, Log and Config. The
-- semaphore of golang.org/x/sync is a parameter with its documented laws (IsSemaphore).
--
-- Not modelled: what the caches, the pipeline, HandleDNS and main write to the metrics, since it
-- changes none of the state that is modelled; and what the router, the HTTP server and the TLS
-- client of the libraries do with their settings.
pub mod Base
pub mod Dns
pub mod Cache
pub mod Config
pub mod Upstream
pub mod ConnEntry
pub mod ConnPool
pub mod Server
pub mod Metrics
pub mod MutexServer
pub mod Pipeline
pub mod Zones
pub mod Http
pub mod Log
pub mod Main
mod Tests
