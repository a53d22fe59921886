-- ===== src/Lib.antt =====
-- A model of the distributed web crawler of crawler/, in which several processes share a Raft log
-- of messages and each keeps the URLs to crawl, those claimed and those visited.
--
-- Prelude: numbers, tests, lists, machine words, errors and panics.
-- Queue: crawler/uniquequeue.go, the ring buffer of a crawler's own URLs. Get, Put, Remove, indexOf,
--   incSize and decSize are `get`, `put`, `remove`, `index_of`, `inc_size` and `dec_size`, each
--   from the whole struct to the new one; Queue/View reads the contents as a list, oldest first.
-- Sets: crawler/set.go and crawler/timedset.go. `put`, `pop`, `has` and `size` are Put, Pop, Has and
--   Size. A sync.Map is a list of keys and values (Sets/SyncMap), an instant is Sets/Time.
--   Sets/Set/Race: Put and Pop in the steps that concurrent goroutines interleave.
-- Crawler: crawler/crawler.go, crawler/msg.go and crawler/http.go.
--   Crawler/Message: Message, AsItem and FromItem.
--   Crawler/Link: link, linkFromMatch and extractLinks.
--   Crawler/State: Urls and Crawler, whose `sent` lists the items handed to the Raft node.
--   Crawler/Valid: the invariant of the URLs.
--   Crawler/Handlers: onNewValue, onUrlVisit, onUrlClaim and onUrlReport.
--   Crawler/Claims: claimUrls, reportUrls, sortAndSend, evictClaims and processResponse.
--   Crawler/NextUrl: NextUrl, two calls of it around an eviction (NextUrl/Recovery), and what it
--   leaves of the URLs that a crawler knows (NextUrl/Keeps).
--   Crawler/Response: processResponse from the page to what is sent.
--   Crawler/Known: the URLs that a crawler knows, and those that the log mentions.
--   Crawler/Exchange: an item of the log that one crawler makes and another reads.
--   Crawler/Delivery: from the items that one crawler sends to the URLs of another.
--   Crawler/Exclusion: two crawlers with the same URL in their pools.
--   Crawler/Pool: CrawlForever, sendRequests and its goroutines, processResponses and
--   evictClaimsForever, as a step relation `Step` on the state `Pool`.
--   Crawler/Race: evictClaims and onUrlVisit in two goroutines, container call by container call.
--   Crawler/Cluster: several crawlers over one log, as a step relation; what they agree on
--   (Cluster/Agreement), where a visit comes from (Cluster/Origin), what becomes of the URLs of the
--   log (Cluster/Kept).
--   Crawler/System: several processes over one log, each with all its goroutines, from the start of
--   crawler/main.go; System/Refine takes them to Crawler/Cluster and Crawler/Pool, and
--   System/Spread and System/Answered follow a page from one process to the others.
--   Crawler/Link/Extract: which links a page yields.
--   Crawler/Database: crawler/neo4j.go, the statements for the graph database and their answers, and
--   writeRefsToDb; Database/Posts runs them through the HTTP capability.
-- Services: services/http/pkg/http.go (Client: Get and Post by the answer to their call) and
--   services/http/pkg/server/http.go (Server: both handlers and buildResponse; Server/Post: both
--   ends of a Post), and services/register_services.go (Register: main, key and registerServices).
-- Launch: crawler/main.go and the start of crawler/crawler.go: the arguments (Args, Hex), the other
--   processes (Spawn: spawnCrawlers and fetchClusterSessions), the capability stores (Stores:
--   storeCap and retrieveRaftNode), the wait for the node to lead (Lead), join and startRaftNode
--   (Join), and main (Main, with what the coordinator and the others start with).
-- Tests: concrete inputs.
--
-- A crawler's functions call the containers, and the handlers, which the Raft node calls for each
-- item of the log, change the same URLs. In Crawler/Pool each call of a function of the crawler is
-- one step, and the steps of all goroutines come in any order; a send on a channel without a buffer
-- and its receive are one step. Below that, the calls of a container hold its mutex (the queue) or
-- are calls of sync.Map (the sets), which Sets/Set/Race takes one by one. Crawler/Race takes
-- evictClaims and onUrlVisit call by call; the calls of different containers within one of the
-- other functions are not interleaved.
--
-- Bounds: the queue has 40 places and a claim lives 300 seconds, as in crawler/main.go. The queue's
-- indices are natural numbers below its capacity, which is at least 1; main's pool has 10 turns;
-- the sets' counters are int32 and wrap. Loops run over lists, or for the number of rounds that
-- their bounds give; the wait for the node to lead is run for a number of looks at the leader, and
-- enough of them is any number that reaches the first look at which the node leads.
--
-- Arguments stand for what is outside: the order of a Range and of a map's keys, the random draws,
-- the clock, the submatches of the regular expressions, encoding/json, base64,
-- net/http, Cap'n Proto by what its calls answer, at which nodes a call of a capability store's
-- Set takes effect (nothing looks at its result), and the Raft node's PutItem. Of the Raft
-- library's log Crawler/Cluster and Crawler/System take that each node is given, in order, a
-- beginning of one list of items that were put. An item that PutItem refuses comes into the log only
-- where `may_linger` says that such an item can.
-- Not modelled: log output, what a context is beside being done, the sleeps, what libp2p and wetware
-- do at a start beside their answers, and the generated Cap'n Proto code.
pub mod Prelude
pub mod Queue
pub mod Sets
pub mod Services
pub mod Crawler
pub mod Launch
pub mod Tests
