-- ===== src/Lib.antt =====
-- A model of the core of music_p2p, a peer-to-peer music streaming node, with the properties that
-- make it correct.
--
-- The parts and how they interact. Storage (internal/storage/storage.go) cuts an MP3 file into
-- frames and chunks and keeps the tracks in memory. The engine (internal/streaming/engine.go)
-- downloads the chunks of a track into a read buffer: `downloadLoop` asks the scheduler
-- (internal/scheduler/scheduler.go) for requests, which ranks the peers of a chunk by the scorer
-- (internal/scoring/scoring.go); each request is a goroutine that reports its outcome to both and
-- puts the chunk in the buffer; the player reads the buffer in order. The queue
-- (internal/queue/queue.go) holds the tracks to play. The engine also measures the bandwidth to
-- choose a quality (internal/bitrate/adaptive.go) and reuses open streams
-- (internal/connpool/pool.go). The metadata store (internal/metadata/metadata.go) holds what the
-- node knows of each track, and publishes it to other nodes. A peer serves its chunks by a line
-- protocol, which the engine speaks over the streams of the pool. The REST API (internal/api) works
-- on storage, metadata, queue and scores, and on the invite codes (internal/invite/invite.go) by
-- way of what main gives it (cmd/node/main.go); main also plays the queue of the command line, with
-- the player (internal/audio/player.go), which reads from the engine. Peers are found by the
-- bootstrap list, mDNS and the DHT (internal/discovery).
--
-- Which file models which part. A Go struct is a record with the same fields, a method a function
-- of the same name in snake case from the state to the new state; a mutex makes each critical
-- section one atomic step.
--   Queue          internal/queue/queue.go, all methods; Order and Insertion hold its properties.
--   Storage.Mp3    mp3FrameSize; Storage.Frames: extractMP3Frames; Storage.Chunks: groupFrames and
--                  ChunkBytes of the engine; Storage.Tracks: the methods of Storage, where the slice of
--                  chunks is read with a proof that the index is in range (`nth`).
--   Scheduler.Congestion  the state, recordOutcome and the setters; Scheduler.Requests:
--                  NextRequests, as the loop over the window (`collect`), the sort and the loop over
--                  the sorted candidates (`dispatch`).
--   Ranking        the interface of BestPeers that the scheduler uses; Scoring.Best fills it.
--   Scoring        all methods of the scorer; Scoring.History: the score from the outcomes alone.
--   Streaming.Engine  the critical sections of the engine on its buffer; Streaming.Engine.Run: a
--                  stream as the sequence of the sections that goroutines and reader enter;
--                  Streaming.Session: `downloadLoop` with scheduler, scorer and open requests;
--                  Streaming.Start: StartStreaming, queryTotalChunks and serveFromLocalStorage.
--   Bitrate        internal/bitrate/adaptive.go, all methods; Bitrate.Choice: SelectVariant.
--   ConnPool       internal/connpool/pool.go, all methods; a slice of idle streams is a list from its
--                  last element on.
--   Metadata       internal/metadata/metadata.go, the store, the check of received envelopes, search;
--                  Metadata.Publishing: Publish and sign.
--   Invite         internal/invite/invite.go, the codes that carry a peer id and its addresses.
--   Streaming.Wire  the functions of strconv, strings and bufio that the protocol uses, on bytes;
--                  Streaming.Protocol: ServeStream, fetchChunk and queryTotalFromPeer.
--   Api            internal/api: Models the data of models.go, Server the state and the replies of
--                  server.go, Names the texts that handlers take apart; Tracks, Library, Playback,
--                  Playlist and Peers the handlers of handlers.go under their routes; Requests all
--                  handlers as one step, and runs of them; Middleware middleware.go with `chain` as
--                  the order of `api.Use`; Routes the entries of the router and ServeHTTP.
--   Audio          internal/audio/player.go, the gapless streamer and the player; Audio.Gapless and
--                  Audio.Sessions hold their properties.
--   Node           cmd/node/main.go: Flags the lists of the command line, Joining the invite provider
--                  and the joiner, Loop the loop over the queue, Preload preloadNext as a goroutine that
--                  moves in stages beside the player.
--   Discovery      internal/discovery: Bootstrap, HandlePeerFound and the round of the DHT discovery.
--   Prelude        lists, association lists, integers and sorting that the parts share.
--   Modules named Tests hold runs and witnesses, Examples and Invite.Trees the data for them.
--
-- Bounds and fuel. Numbers are natural numbers, except where the code takes a negative index,
-- which is an integer; the sizes of slices stay far below 2^63. A byte is a number, and the
-- functions that cut bits out of one reduce it. `extract_mp3_frames` and `group_frames` recurse
-- on the length of their input: each round takes at least one byte, or one frame, and the model's
-- result is proved to meet the equation of the loop without fuel. `collect` recurses on the
-- length of the window. `serve_stream` has fuel for each line that it reads; a client needs one for
-- its request. `play_rounds` has fuel for each round, and one more than the queue has items is
-- enough. `drain` has fuel for each pull, and two more than there are samples are enough. The digits
-- of a number recurse on fuel that is one more than the number, which has fewer digits.
--
-- Parameters. `sort.Slice` is an interface: a permutation, sorted if the comparison is a strict
-- weak order. float64 is a record of operations with no laws. The file system, SHA-256, JSON,
-- base64, signatures and the network are parameters; so are the three roundings of a bit rate,
-- and bit rates are natural numbers. A wait on a condition variable is a result of the step,
-- which is then run again. The router of gorilla/mux, the handler of the Swagger UI, the decoded body of a
-- request, the host, the DHT, the MP3 decoder, the speaker and the topic of metadata are parameters
-- as well, with laws named where a theorem needs them.
--
-- Not modelled: the goroutine of a request is one step after its fetch; the return of the download
-- loop after the end, and a second `StartStreaming` while goroutines of the first still run; two
-- handlers that interleave between their locks; another caller of the pool between the two locks of
-- `Acquire`; the log and the metrics except those that the
-- handlers set; the start-up in main, the HTTP server and the set-up of mDNS, DHT
-- and gossip; and the parts that the manifest lists as not modelled, which wrap libraries, declare
-- collectors or are generated.
pub mod Prelude
pub mod Audio
pub mod Bitrate
pub mod Api
pub mod ConnPool
pub mod Node
pub mod Discovery
pub mod Metadata
pub mod Invite
pub mod Queue
pub mod Storage
pub mod Scheduler
pub mod Ranking
pub mod Scoring
pub mod Streaming
