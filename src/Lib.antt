-- ===== src/Lib.antt =====
-- The rate limiting middleware of this repository (directory middleware), modelled in the terms of its
-- Go code.
--
-- The program is an HTTP middleware. A request has a key (an address or a user), and a backend decides
-- from the requests that the key made before whether the request may pass. A backend is in memory or in
-- Redis; the calls of Redis go through a circuit breaker.
--
-- Parts and files:
-- - Common: what all parts share. Go's strings are lists of code points (Common/Strings), its maps
--   association lists with one pair to a key, in an order of iteration (Common/Maps), its int and int32
--   signed integers over the native numbers, an int32 sum with its wrap-around (Common/Int), its
--   instants nanoseconds since the year 1 (Common/GoTime). float64 is a record of operations that the
--   definitions take as an argument (Common/Float), so that the theorems hold of any rounding.
-- - Breaker: CircuitBreaker of middleware/base/cicuit_breaker.go, one function for each method: Allow
--   (`allow`), RecordSuccess, RecordFailure, ReleaseProbe. Breaker/Machine cuts Allow into its atomic
--   loads, stores and swaps and runs any number of goroutines under any schedule.
-- - Memory: middleware/storage/memory/store.go. Memory/Window is SlidingWindow (Allow, findFirstValid,
--   Count), and Memory/Window/Made says for which limits one can be made; Memory/Cache is lruCache (Get,
--   Add, Remove, evict and the pointer updates of its linked list), Memory/Entry is ipEntry and
--   TokenBucket, Memory/Backend is Backend with all methods of the interface. Memory/Backend/Calls runs
--   any sequence of calls.
-- - Registry: FileRegistry of middleware/storage/file/registry.go over the types of
--   middleware/base/admin.go and middleware/base/registery.go (Registry/Api). Registry/Store is its
--   state, its file and its channel (Load, saveLocked, PublishChange, ReloadRules, Close),
--   Registry/Apis and Registry/Endpoints the methods that change it, Registry/Bulk BulkImport,
--   Registry/Rules GetCompiledRule, ListAPIs and the matching of patterns. Registry/Calls runs any
--   sequence of calls. Package json is an argument, and so is which calls of the system fail.
-- - Address: the two IPExtractors, of middleware/base/extractor.go and middleware/helper/ip.go.
--   Package net is an argument.
-- - Pipeline: middleware/routing/middleware.go. Pipeline/Backends is the interface of a backend of
--   middleware/base/types.go, over which Pipeline/Limits (getRateLimits, allowRequest, isBlocked,
--   calculateBlockDuration), Pipeline/Bots (detectBot) and Pipeline/Handler (Handler) are written;
--   Pipeline/Detector is the attack detector of middleware/base/limiter.go. The proofs are in
--   Pipeline/Priority (path limits), Pipeline/Served and Pipeline/Verdicts (the handler) and
--   Pipeline/Traffic (the detector).
-- - Configuration: Config, Validate and DefaultConfig of middleware/base/config.go
--   (Configuration/Settings, Validate, Defaults), the variables of middleware/helper/env.go and the
--   configurations of middleware/environment/defaults.go (Environ, Environment), and LoadConfig of
--   middleware/config/loader.go with all that it calls (Files, Presets, Convert, Loader). sort.Slice
--   and the functions of packages os, yaml, strconv, filepath and time that the code calls are an
--   argument. The pipeline reads the configuration that Validate has accepted.
-- - Events: EventStore of middleware/base/events.go. Events/Store is its state, the files of its
--   directory and its methods; Events/Recent, Events/Collected, Events/Range and Events/Cleanup are the
--   proofs. Packages json and time are an argument, and so is which calls of the system fail; the data
--   of an event is itself JSON, whose layout package json changes.
-- - Check: middleware/routing/check.go, the endpoint that says whether a request would pass, over the
--   same interface of a backend as the pipeline.
-- - Sdk: the Go client of middleware/sdk/go. What becomes of a POST is an argument; Sdk/Endpoint puts
--   the check endpoint in its place.
-- - Redis: middleware/storage/redis/store.go. Redis/Commands is the server, an argument: a state and
--   what each command makes of it, with the functions of package redis and of strconv and of Lua that
--   the code calls. Redis/Scripts is the four Lua scripts over these commands, Redis/Store and
--   Redis/Values the methods, each in its frame of calls of the circuit breaker, Redis/Calls any
--   sequence of them. Where a theorem relies on what a command does (a hash returns what was put into
--   it until its key expires, a sorted set counts what it holds), that is a hypothesis (those of the
--   blocks are in Redis/Hashes), which Redis/Tests/Toy meets with a small server.
--
-- Clocks: each reading of the clock is an argument of the function that models the method, so that the
-- theorems hold for any clock; where a theorem needs instants in the order of time it says so.
--
-- Panics: a panic of the Go code (a capacity below 0 for make, a division by 0, an assignment through a
-- nil pointer) is `none`, and `panicked` in the registry, where a call that waits for ever is
-- `blocked_forever`, and in the answer of the check endpoint.
--
-- Fuel: the binary search of findFirstValid runs on fuel of the length of the slice plus one. The
-- interval it searches shrinks in each round, so that the fuel is enough: its theorem states the exact
-- result, for every slice in the order of time. The loop of GetRange runs on fuel of the number of days
-- up to the end of the range plus one: it starts on or after the first day and stops past the end.
--
-- Locks: a method that holds its mutex is one step. The atomic operations of the circuit breaker are
-- steps of their own in Breaker/Machine.
--
-- Not modelled: the capacity of slices, but for make's panic of one below 0; contexts and their
-- deadlines, logging; of the Redis backend the dial and the ping of NewBackend, Client and Close; the
-- metrics, the admin and metrics APIs, and the server with its cookies and headers, which are input and
-- output round these parts.
pub mod Common
pub mod Address
pub mod Breaker
pub mod Check
pub mod Configuration
pub mod Events
pub mod Memory
pub mod Pipeline
pub mod Redis
pub mod Registry
pub mod Sdk
