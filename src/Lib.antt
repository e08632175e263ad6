-- ===== src/Lib.antt =====
-- Verification of serve-mlx, an OpenAI-compatible server that runs mixture-of-experts models on
-- one machine with unified memory: the shell of a model stays in memory and its routed experts
-- are streamed from disk into a bounded cache.
--
-- The parts modelled here interact as follows. The model registry keeps one engine live. Loading
-- an engine first resolves the KV cache, which reserves memory for the largest context, then
-- plans the memory budget with that reserve; the budget is the capacity of the resident expert
-- cache. While a model runs, experts are admitted, pinned and evicted there, and the pressure
-- handler of the memory manager shrinks the cache when memory runs short. An asynchronous loader
-- reads experts ahead of their use. The chat protocol turns a request into checked options, whose
-- stops the stop buffer looks for in the stream of text. An offline simulator replays a routing
-- trace against least-recently-used caches of several capacities.
--
-- * src/mlx_moe_stream/cache/policy.py is Policy: ExpertKey, LruCacheSimulator (init, access) and
--   simulate_lru_curve. An OrderedDict is an association list, oldest entry first, in Dict. The
--   loop that makes room removes the oldest entry of a list, so it recurses on the list. The
--   scaling of a byte count by a float fraction is a parameter.
-- * src/mlx_moe_stream/cache/resident.py is Resident: the cache as a record with the fields of
--   the class, and a function per method. A method returns its result or the exception, and
--   beside it the object it leaves (Exec in Base/Methods). The loop of an eviction is
--   evict_rounds, which runs at most as many rounds as there are entries, and that is enough
--   since each round removes one. Arrays are of any type.
-- * src/mlx_moe_stream/memory.py is Memory: the safety margins, the plan and the staged pressure
--   handler. What the operating system and the tensor library answer (snapshots, the call that
--   wires memory, clearing a cache) is a parameter. Differences that can be negative are integers
--   (Base/Int).
-- * src/mlx_moe_stream/kv_cache.py is KvCache: the estimate of the cache from a decoded model
--   configuration (Json), the choice of the precision and the reserve.
-- * src/mlx_moe_stream/prefetch/async_loader.py is Loader: the table of requests, the priority
--   queue and the counters, with a step for each stretch of code that holds the lock. A run is
--   any list of steps, which is any interleaving of the model's thread and the workers, and more.
-- * src/mlx_moe_stream/server/registry.py is Registry: the registrations and the live engine,
--   with a record of the loads and closes it asked for. Each call is given what the loader and
--   the engine answer. Registry/Report has the snapshot against that record. Registry/Parse has
--   the text form of a registration, where str.strip and paths are parameters.
-- * src/mlx_moe_stream/manifest.py is Manifest: the records, validate as a chain of checks that
--   pass or raise, and the summary of the working set. A path is of any type and the sizes of the
--   files are a parameter. Encoding and building a manifest are not modelled.
-- * src/mlx_moe_stream/storage/safetensors_store.py is Store: the reads of an ExpertStore over a
--   record System of the calls of the operating system it makes. The laws assumed of them
--   (IsDisk) say that opening a path, asking its size and reading agree on contents that do not
--   change. The header reader and the scanners that build bundles are not modelled.
-- * src/mlx_moe_stream/server/protocol.py is Protocol: Options has the parsers of a request's
--   options (Tools those of tools, Request the whole of them) over decoded JSON, with Python's
--   numbers in a record Numbers and the schema validator as a parameter; Text the searches of the
--   stream transforms, over lists of code points, Stop the stop buffer and Thinking the parser
--   that divides reasoning from content. The loop of its feed has as much fuel as the buffer has
--   code points, which is enough since each round takes a marker off the buffer. Messages
--   normalizes the messages of a request; joining texts, decoding JSON text and the ids of calls
--   without one are parameters. The parsing of tool calls is not modelled.
--
-- Base holds the library names and helpers that the files share, Dict the laws of dictionaries.
-- Python's integers are unbounded, so no arithmetic wraps around. The locks make each method one
-- step. Not modelled: the predictive prefetch, the routing trace, the HTTP application, the
-- advisor and the startup report, which are components of their own; and the tensor code, the
-- operating-system probes, printing and logging, which are calls of code outside.
pub mod Base
pub mod Dict
pub mod Json
pub mod KvCache
pub mod Loader
pub mod Manifest
pub mod Memory
pub mod Policy
pub mod Protocol
pub mod Registry
pub mod Resident
pub mod Store
