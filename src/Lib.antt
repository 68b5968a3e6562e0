-- ===== src/Lib.antt =====
-- Streamweaver merges several M3U playlists and proxies their streams. This library models the path of
-- a stream request: the load balancer chooses an address among the sources that have the channel, the
-- concurrency manager counts the connections to each source, and a coordinator shares one upstream
-- connection among all the clients of the channel, by a ring of chunks that a writer fills.
--
-- Store: store/concurrency.go. The manager is a record of three maps, and each method a function of it.
--   The environment is a parameter; counters are 32-bit. Store/Counting relates the counters to a plain
--   count of open connections, and Store/Limits the reads to the limit of the environment.
-- Backoff: proxy/backoff.go, in 64-bit nanoseconds.
-- Config: proxy/stream/config/config.go and proxy/loadbalancer/config.go.
-- StreamInfo: sourceproc/stream_info.go.
-- LoadBalancer: proxy/loadbalancer/instance.go and the order of sub-addresses in sourceproc/helpers.go.
--   Names, Candidates and Balance hold the definitions: tryStreamUrls is `try_stream_urls`, tryAllStreams
--   is `try_all_streams`, Balance is `balance`. What is shared with other requests or asked of the
--   outside (the manager, the context, the HTTP client) is a World, indexed by the number of calls made;
--   the slug parser, the index provider and sort.Slice are fields of a Setup. The two loops have fuel for
--   the laps and for the rounds of a lap; Ending says how much is enough. Manager reads the concurrency
--   manager as the load balancer does. Sources and Attempts follow a success back to its address,
--   Repeats follows the candidates that are asked, Exhausted a failure of an index, and Rounds the
--   choice of an index.
-- Coordinator: proxy/stream/buffer/coordinator.go. The ring is a list of slots with a position, and each
--   method is a function of the record. Reading is ReadChunks, whose wait is the outcome `blocked`, to be
--   run again when the reader is woken; its loop has the number of slots as fuel, after which the code
--   leaves too. Loop is readAndWriteStream, a step for each turn of the loop over what the turn reads,
--   and StartMediaWriter of proxy/stream/buffer/coordinator_media.go. Lifecycle is a step relation of the
--   methods of any number of clients and a writer. Delivery, Draining and Restart say what a client reads,
--   Pump and Media what the writer makes of the source. Registry is proxy/stream/buffer/registry.go, one call
--   at a time; Cleanup says whom it keeps, and Sharing who gets the same coordinator.
-- Client: proxy/client/client.go, a response as the status, the header and the bytes that it has got.
-- Viewer: proxy/stream/media_stream.go. HandleStream's loop is `watch`, a turn at a time over the coordinator as the
--   others leave it; ReadChunks may leave the client asleep in a turn. Sending and Delivery follow the bytes to
--   the client, Relay from the source on, Ending to the end of the stream. Session is the start of the writer
--   with its context and the cleanup, Writers a step relation of these sections, Handover two clients that
--   follow one another. Direct is HandleDirectStream.
-- Request: handlers/stream_http.go, a round of the loop at a time, around ProxyStream of
--   proxy/stream/stream_instance.go (Instance) and utils/url.go (Url). What the handlers give is a field of a
--   round. Retry and Rejoin follow a request through several rounds, and through the end of a writer.
-- Slug: sourceproc/slug.go, GenerateStreamURL of sourceproc/helpers.go and utils/stream_url.go, with JSON, zstd,
--   base64, url.Parse and the path of a request as parameters. Segment: proxy/stream/failovers, and the handler of segments.
-- Coordinator/HlsWriter: proxy/stream/buffer/coordinator_m3u8.go, a tick at a time, with the times and the interval of
--   a tick as its inputs; Polling follows a live playlist. The playlist parser has the scanner and the scan of a
--   number as parameters.
-- Processing: sourceproc/parser.go, the loop over lines and the compilation of sourceproc/processor.go, and
--   utils/middlewares.go; Lines compares the loop with a reading of whole entries.
-- Passthrough: handlers/passthrough_http.go; Logos composes it with the address that a logo is replaced by.
-- Sorting: sourceproc/sorting.go, one shard with its buffer and file, and the sort keys; what
--   encoding/json keeps of an entry and of a key is a parameter. Entries is GetSortedEntries over all
--   shards, with the faults of their files, and Order what it gives. Titles follows the set of a shard's titles.
-- StreamUrls: ParseStreamInfoBySlug and loadStreamURLs of sourceproc/filter.go; RoundTrip follows an address from the line
--   of a source to the load balancer's channel.
-- Disk: the functions of `os` that are used, on a table of files. Paths: config/config.go and utils/m3u_path.go.
-- Env: utils/env.go and utils/http.go.
-- Download: sourceproc/downloader.go, with the scanner of lines. A source may never answer, and then its channel is never closed.
-- Processor: the M3UProcessor of sourceproc/processor.go, from the temporary file through the workers' turns to Wait. Ending
--   and Playlist say what a run leaves on the disk, Sources what becomes of a source that breaks off,
--   Titles what becomes of the title of a stream.
-- Updater: updater/updater.go; Serving is about an update, Boot about one that is given up and the start after it.
-- Correlation: correlation/ and utils/correlation.go; Headers follows an id to the passthrough handler.
-- Logger: logger/defaults.go and logger/fields.go (Fields); Repeats counts the fields of derived loggers.
-- Filter: checkFilter of sourceproc/filter.go, over regular expressions that are parameters.
-- Playlist: handlers/m3u_http.go, the credentials and the answer of the playlist handler.
--
-- Prelude has what the modules share: Boolean tests, lists by native numbers, Go's integers, byte strings,
-- maps, Atoi, and the law of sort.Slice.
--
-- Not modelled: main.go and handlers/proxy_instance.go, which only connect the parts; the hashes of utils/fingerprint.go, which nothing
-- reads; the goroutines that process the sources, but for the order of the workers' turns; the lines that the other parts log, which
-- nothing reads; the pool of buffers, whose buffers come empty. A sequence number is short of 2^63, and times are natural
-- numbers of nanoseconds.
mod Prelude
pub mod Store
pub mod Backoff
pub mod Config
pub mod StreamInfo
pub mod LoadBalancer
pub mod Coordinator
pub mod Playlist
pub mod Filter
pub mod Client
pub mod Viewer
pub mod Request
pub mod Slug
pub mod Segment
pub mod Sorting
pub mod Processing
pub mod Passthrough
pub mod Disk
pub mod Paths
pub mod Processor
pub mod Download
pub mod Env
pub mod Updater
pub mod StreamUrls
pub mod Correlation
pub mod Logger
