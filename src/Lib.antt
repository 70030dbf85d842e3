-- ===== src/Lib.antt =====
-- Verification of the MCP XLSM server, a Go program that offers three tools on large Excel
-- workbooks: analyze_file cuts a workbook into chunks, build_navigation_map indexes a page of its
-- sheets, and query_data searches it. The tools use cursors that a client sends back to go on, a
-- token counter with the limits of the models, and an index; a cache of answers, their compression
-- and streams stand beside them.
--
-- - Prelude passes on the library's names and has Go's int64 with its wrap-around (Prelude/Int),
--   lists measured by native numbers, Boolean tests and maps (Prelude/Maps).
-- - Float is the interface of the floating-point numbers that scale counts, with exact fractions
--   in Float/Exact.
-- - Lru is the interface of golang-lru, with a bounded instance in Lru/Bounded.
-- - Cache is SmartCache of internal/cache/smart_cache.go: the LRU, the hot data, the memory
--   counter and the statistics are one record of Cache/Entries; get, set, delete_key, clear,
--   cleanup, set_with_metadata and get_with_validation are its methods, under the names that the
--   source gives them. The clock readings and the orders in which Go's maps are visited are
--   arguments. Cache/Calls has the calls as data, and sequences of them; Cache/Spec is its
--   abstract view, a map of the values that a read may find and one of those that it must;
--   Cache/Threads has the steps of threads that share it, where GetWithValidation is three steps,
--   and Cache/Alone relates these to the whole method.
-- - Base64 and Decimal are encoding/base64 and %d of fmt; text is a list of bytes. Models are the
--   types of internal/models/types.go.
-- - Cursor is internal/cursor/cursor.go. encoding/json is the interface Codec.
-- - Workbook is the interface of excelize: an open file is what it answers.
-- - Tools is internal/server/tools.go: Tools the chunks, Tools/Patterns the names and formulas,
--   Tools/Handler the request and the response of analyze_file, Tools/Complexity its score. What
--   the disk and SHA-256 answer are arguments.
-- - Token is internal/token/counter.go. The tokenizer, the printed keys and the JSON of a value
--   are the interface Encoder; a ratio of floating-point numbers to a limit is a comparison of
--   products.
-- - Token/Estimates has the estimates that scale counts, Token/Threads the steps of threads that
--   share a counter.
-- - Streaming is internal/streaming/reader.go: a log of messages and an outcome; which messages
--   the writer refuses is an argument. Streaming/Response is the writer of single messages.
-- - Query is internal/server/query.go: Query/Parse the text of a query and its options,
--   Query/Sheets the rows of a scan, Query/Search the strategies, Query/Handler the request and
--   the response. The index that it searches is the interface Searches. What strings.ToUpper and
--   fmt.Sscanf do is an argument.
-- - Index/Inverted is the inverted index of internal/index/manager.go and the search in it. How Go
--   cuts a text into words and what the Bloom filter answers are arguments. Index/QuadTree is the
--   quad tree of the same file, over the interface Coordinates, exact arithmetic, which
--   Index/QuadTree/Fractions fills: the floating-point numbers of the code are exact until a
--   region has been halved some forty times. Index/Deltas has the changes that update the indexes,
--   and Index/Manager is the manager of all the indexes, with the Bloom filter as an interface and
--   the B-tree one in Index/Keys, whose calls do to its ascending items what the documentation of
--   google/btree says, at the order of the code; Index/Searching its searches, of which `searches`
--   is the instance of the interface Searches that a query is run on.
-- - Navigation is internal/server/navigation.go: Navigation/Sheets the index of a sheet,
--   Navigation/Handler the request and the response, Navigation/Paging its pages,
--   Navigation/SearchIndex the counts of the search index in it.
-- - Compression is internal/compression/manager.go: Compression/Values the data of an answer,
--   Compression/Truncation the cutting of it, Compression/Manager the methods. gzip and brotli are
--   the interface Codecs.
-- - Server is internal/server/server.go: the messages and their routing to the interface
--   ToolHandler; Server/Schema is the list of tools, Server/Stdio the loop over the standard
--   input, Server/Http the handlers of HTTP requests. A tool answers, fails, panics or does not
--   return. Server/Handlers makes the three handlers one such interface, of parameters that
--   Server/Params reads; the chunk loop counts as endless when its fuel is used, which is never so
--   with a positive chunk size and more rounds than sheets.
-- - Main is cmd/main.go and the making of the server: both modes, from the flags to the end of the
--   program. Requests and clean-ups of the cache are the events of the HTTP mode. Cache/Readers
--   has what the server shows of the cache.
-- - Config is pkg/config/config.go, with the ticker that it drives: Config/Settings the record and
--   its default, Config its reading. YAML is an interface.
-- - Tests runs the models and the theorems at concrete inputs.
--
-- Loops that the source writes with a counter have fuel. The chunk loop, the zone loop and the
-- loops over batches and hot zones get one round more than there are elements; each advances by at
-- least one element a round when its step is positive. A panic of the code is a value.
--
-- Not modelled: the log of internal/server/server.go, and what the listener does but for its
-- return; HTTP requests that overlap, but for the counter that they share; how floating-point sums
-- round; the bounds of the counters of statistics and of the bytes that a cut text may have; the
-- value of a point of the quad tree, which nothing reads; locks, since a step of the model is what
-- a method does under its lock (Cache/Threads and Token/Threads interleave them); the scripts, and
-- the times of responses.
pub mod Prelude
pub mod Float
pub mod Lru
pub mod Cache
pub mod Base64
pub mod Models
pub mod Cursor
pub mod Decimal
pub mod Workbook
pub mod Tools
pub mod Token
pub mod Streaming
pub mod Index
pub mod Query
pub mod Navigation
pub mod Compression
mod Tests
pub mod Config
pub mod Server
pub mod Main
