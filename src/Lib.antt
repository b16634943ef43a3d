-- ===== src/Lib.antt =====
-- go-p2p-forge: a framework for servers on libp2p streams. A Server owns a libp2p host, a node (DHT
-- and GossipSub), background services, and one Pipeline per protocol. A stream runs through the
-- pipeline's middleware: the frame is read into a pooled buffer (codec/), decoded, limited per peer
-- (middleware/), routed by its operation, answered, and cleaned up.
--
-- Prelude: what the parts share. Numbers are native; Prelude/Int has Go's 64-bit int with its
-- wrap-around written out, Prelude/Dict maps with string keys as association lists.
-- Codec: Codec/Conn is a reader whose bytes come with the time that passes before each, and a writer
-- with a bounded window; Codec/Pool is codec/pool.go, with the address of every backing array;
-- Codec/Frame is codec/frame.go, and its children Sequence and Arrived are about several frames on one
-- stream. Loops take fuel equal to the length of the frame, which is enough as each round moves by a
-- chunk of at least one byte.
-- Errors, Registry, Context, Pipeline: errors.go, registry.go, context.go, pipeline.go. A middleware
-- is a function of its continuation over a state that it passes on; a call returns, panics, or never
-- ends, and HandleStream's deferred calls run on the first two. The reset of the stream at the request
-- deadline is modelled at every point of a run, as the bytes read and written by then. Pipeline/Answered puts the middleware
-- of codec_middleware.go into a Pipeline and follows a stream from its bytes to the answer's.
-- Middleware: Chain and Router are middleware/router.go, Recovery is middleware/recovery.go,
-- RateLimited is middleware/ratelimit_middleware.go, SingleBucket is middleware/ratelimit.go,
-- TokenBucket and Shards are middleware/tokenbucket.go, Cleaning is the cleanup goroutine of both and
-- its Close, Codecs is codec_iface.go and codec_middleware.go, Metrics is middleware/metrics.go and
-- metrics.go. The loop over a FrameIterator takes fuel, one more than the frames it yields. A
-- limiter's mutexes make each call one step, and a round of background cleanup one step; a run is any
-- sequence of them. float64 is a parameter,
-- with laws for tokens from none to the burst (TokenBucket/Ranged). RateLimited/Windowed puts the sliding window of
-- SingleBucket behind the middleware; TokenBucket/Rate measures float64 in whole units, with a bound on
-- the error of each rounding.
-- Service: service/lifecycle.go, service/ticker.go, service/healthcheck.go, whose Start and Stop are
-- Service/HealthCheck/Serving.
-- Host: host/host.go, host/limits.go, host/identity.go, with go-libp2p, the file system and the key
-- library as parameters. Config: config.go.
-- Node: Node/Process is New and Close of node/node.go, Node/Topics its JoinTopic, LeaveTopic, Publish
-- and Subscribe, and Node/Filter is node/filter.go; the DHT, GossipSub and the address parsers are
-- parameters. Node/Topics/Locked is JoinTopic and LeaveTopic statement by statement, with any number
-- of goroutines between the statements.
-- Server: forge.go, with what it calls of those as a parameter, which Server/Assembled fills with the
-- node of Node/Process and the services of Service/Lifecycle. Server/Callbacks is the goroutines that
-- Start begins on a connection event.
-- Forgetest: forgetest/mock.go and forgetest/pipe.go, streams in memory.
-- Tests and Pipeline/Tests: the theorems at concrete inputs.
--
-- Not modelled: logging; accessors that only return a field; the HTTP server behind the health check;
-- the methods of PipeStream that pass on to net.Pipe, and GenerateTestPeerID, which draws a key.
-- Goroutines are the order of steps: Go's memory model is not modelled. The cancellation of sc.Ctx at the
-- request deadline is not, since nothing of the repository reads that context. Memory is unbounded:
-- SingleBucket appends any number of times, where the program cannot append near 2^63 entries.
pub mod Prelude
pub mod Codec
pub mod Errors
pub mod Registry
pub mod Context
pub mod Pipeline
pub mod Middleware
pub mod Service
pub mod Host
pub mod Config
pub mod Node
pub mod Server
pub mod Forgetest
pub mod Tests
