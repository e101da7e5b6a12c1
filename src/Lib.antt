-- ===== src/Lib.antt =====
-- Verification of the hub and of the gateway of yuanyi.
--
-- A node of yuanyi runs a GPU worker, a gateway for OpenAI requests and, in server mode, a hub.
-- Peers describe themselves by gossip; the hub keeps what it hears in a cache, writes the cache to
-- peers.db from time to time, and chooses from it the backends of its own dispatcher.
--
-- Base             shared names, lists and maps on native numbers, int64 arithmetic
-- Float            float64, a parameter with the laws of IEEE 754 that the proofs use, with NaN
--                  (RawFloat) and without (Float64)
-- Peer             the records GPUInfo (p2p.go), PeerData and PeerEvent (server_db.go)
-- Cache            PeerCache (peer_cache.go); Cache.Invariant: its representation invariant;
--                  Cache.Growth: what gossip and snapshots may change
-- Db, Db.Batch     DBManager (server_db.go) and the transaction BatchFlush; Db.Retention:
--                  DeleteOldPeers; Db.Events: RecordEvent and GetRecentEvents
-- Mirror           the methods of PeerCache beside the statements of DBManager they replaced
-- Flush            Flush (peer_cache.go): alone (Flush.Alone), between other calls (Flush.System)
--                  and twice at once (Flush.Overlap)
-- Hub              ProxyServer and reloadBackendsFromDB (server_proxy.go); Hub.Dispatch:
--                  handleProxyRequest of the hub with both of its modes; Hub.Topology: the
--                  topology that it tells the gateways
-- Config           the defaults of LoadOrCreateConfig (config.go)
-- Startup          LoadOrCreateConfig, resolveSeedAddrs (p2p.go) and syncPeerCacheFromSeed
--                  (peer_cache.go); Startup.Seeds: proof
-- Health           pingOnePeer, parseSummaryGPUs and the gossip handler (server_p2p.go)
-- Gateway          LocalDispatcher (proxy.go): Gateway.Request is its mode without dedicated nodes,
--                  Gateway.Split the mode with them and the whole handler
-- Chat             chat_history.go: sessions and paths; Chat.Patterns: its regular expressions;
--                  Chat.Write, Chat.Read, Chat.Routes: writing, reading and the HTTP handler;
--                  Chat.RoundTrip, Chat.Files, Chat.Handler, Chat.Trust: proofs about them
-- Node             p2p.go: the streams that a node serves, FetchHubAPI and generateVIP; Node.Tunnel,
--                  Node.HubApi, Node.Addresses: proofs
-- Telemetry        GetGPUTelemetry (sys.go); Telemetry.Counts: what the hub reads in it;
--                  Telemetry.Peaks: its maxima
-- HubWeb           RegisterHubRoutes (server_web.go); HubWeb.ReadOnly: proof
-- Web              computeClusterStats and countGPUsInSummary (server_web.go)
-- Metrics          metricScraper (sys.go); Metrics.Steady: what no answer of vLLM can do
-- Console          the state behind the terminal interface (tui.go); Console.History: sequences of
--                  its calls; Console.Screen: messages and keys (dashboardModel); Console.Logs,
--                  Console.Peers, Console.Thousands: proofs
-- Settings         the configuration routes of the web console (web.go); Settings.Kept,
--                  Settings.Undo, Settings.Refusals: proofs
-- Status           the status routes of the web console (web.go)
-- Gossip           gossipSubscriber and selectBestAddr (p2p.go); Gossip.Publish: gossipPublisher;
--                  Gossip.Reach: keepAlive and the events of connections;
--                  Gossip.Learned, Gossip.Crash, Gossip.Advertised, Gossip.Own: proofs
-- KvTunnel         handleKVTunnel of both dispatchers (proxy.go, server_proxy.go) and the paths of
--                  a local proxy (p2p.go); KvTunnel.Path: proof
-- Runner           the commands of runner.go; Runner.Windows: those on Windows; Runner.Names: proof
-- Rank             server_rank.go: Rank.Numbers and Rank.Specs read the specification database,
--                  Rank.Score is CalculateScore, TriggerUpdate and the leaderboard (server_web.go);
--                  Rank.Order, Rank.Board, Rank.Ranges: proofs
-- Sort             Go's package sort, and when its result does not depend on the input's order
-- Strings          Go's package strings, as far as it is used
-- Tests            the theorems at concrete inputs
--
-- A method of the code is a function from the old state to the new one; what it reads from the
-- outside (the clock, JSON, the network, SQLite, sort.Slice) is an argument. Go's int and int64 are
-- integers with the wrap-around of 64 bits written out in `add64`. A Go map is an association list
-- whose order is the order of iteration. A panic is an outcome of its own.
--
-- Every loop of the code that is modelled is bounded by a list or by a count the code computes,
-- and is a structural recursion on it. Fuel is used to print a number: a number has at most as many
-- digits as itself and one more.
--
-- Not modelled: the drawing of the terminal, the pages of the web interface, the processes of
-- the model server and the waiting for them, the process's own load, the transport of libp2p,
-- logging. They are I/O around the parts above.
mod Base
mod Tests
pub mod Strings
pub mod Sort
pub mod Chat
pub mod Rank
pub mod Node
pub mod Telemetry
pub mod Web
pub mod Console
pub mod Settings
pub mod Gossip
pub mod Metrics
pub mod KvTunnel
pub mod Runner
pub mod Float
pub mod Peer
pub mod Cache
pub mod Db
pub mod Mirror
pub mod Flush
pub mod Hub
pub mod Config
pub mod Health
pub mod Gateway
pub mod Status
pub mod Startup
pub mod HubWeb
