-- ===== src/Lib.antt =====
-- cc-relay, an HTTP relay that spreads requests for language models over several providers and several
-- API keys: the decisions of its router, its key pool and its authenticators, its conversion of event
-- streams, and the checks of its configuration.
--
-- A request goes to a provider that the router picks (internal/router), among those whose circuit is
-- not open, and is signed with a key that the provider's pool hands out (internal/keypool), if the
-- key's rate limiter allows it (internal/ratelimit). Before that, the chain of authenticators lets the
-- client in or not (internal/auth). When an attempt fails, the failover routers ask
-- their triggers whether to go on with other providers. A response of status 429 makes the key rest for
-- as long as the provider's resolver says, and a response that is an AWS event stream is turned into
-- server-sent events. The providers, their weights and their priorities come from the configuration.
--
-- The files:
-- - Base: shared helpers. Base/Int has Go's `int` (64 bits, with wrap-around), Base/Outcome errors and
--   results with panics, Base/Vendor the interface of github.com/samber/lo, Base/Random `randIntn` of
--   internal/router/random.go and internal/keypool/random_util.go, Base/Walk the loop of a weighted
--   roll, Base/Tiers the grouping by priority, Base/Dict Go maps with text keys.
-- - Router: internal/router, one module for each strategy. Router/Info is router.go (`ProviderInfo`,
--   `FilterHealthy` and the guards that open every `Select`), Router/WeightedRoundRobin is
--   weighted_round_robin.go, Router/RoundRobin round_robin.go, Router/Shuffle shuffle.go,
--   Router/Failover the `Select` of failover.go, Router/WeightedOrder weighted_failover.go and
--   priority_weighted_failover.go, Router/Triggers triggers.go, Router/Retry the two
--   `SelectWithRetry`, Router/LeastLoaded least_loaded.go.
-- - Keypool: internal/keypool. Keypool/Key is key.go, Keypool/Selector the four selectors and the
--   tiers around them (selector.go, least_loaded.go, round_robin.go, random.go, weighted.go,
--   priority_tier.go), Keypool/Pool is pool.go without `NewKeyPool` and
--   `UpdateKeyFromHeaders`.
-- - Auth: internal/auth, the results of auth.go, the authenticator of apikey.go and the chain of
--   chain.go.
-- - RateLimit: internal/ratelimit/token_bucket.go; each call takes what the limiter of
--   golang.org/x/time/rate answers, and GetKey only knows the interface of `Allow`.
-- - EventStream: the AWS event streams of internal/providers/eventstream.go and the response body of
--   internal/proxy/provider_proxy.go that converts one while it is read. EventStream/Headers and
--   EventStream/Message are the two parsers, EventStream/Sse the text of the events,
--   EventStream/Stream `processEventStream`, EventStream/SseBody `eventStreamToSSEBody`.
--   EventStream/Headers/Wire and EventStream/Message/Wire have an encoder of the format and what a
--   look-up in its headers should find, and EventStream/Sse/Client a reader of server-sent events;
--   they describe the format, not code.
-- - Config: internal/config/config.go, as far as it chooses providers and keys, and
--   internal/config/validator.go (Config/Validator).
-- - Cooldown: internal/providers/cooldown.go and the classification of zai_errors.go.
-- - Examples: small pools, streams and configurations on which the theorems are applied.
--
-- How the code is read:
-- - A router's or selector's fields are a record, and each operation takes the record and returns the
--   next one. A call under a mutex, or one atomic step, is one call of the function; what concurrent
--   callers do is some sequence of such calls.
-- - An error is a value of `Err`; an index out of range or a nil dereference is `panic`.
-- - `int` is 64 bits wide, a uint64 counter is a number modulo 2^64, an instant is a number of
--   nanoseconds, and a time.Duration is an integer of them. An instant before the zero
--   time is the zero time. During one `Select` of a key selector and the `Allow` after it the clock
--   stands still; each attempt of `GetKey` has a reading of its own.
-- - The health of a provider is what its function answers during the call at hand.
-- - The random source gives a number for each draw, or fails, and then the clock is used.
-- - The goroutines of a race are a function from the providers to the results in the order in which
--   they arrive; it need only send one result for each provider.
-- - A byte slice is a list of numbers below 256 with what its array holds behind it up to the capacity,
--   since a slice expression panics past the capacity only; the header parser's slice has nothing
--   behind it. A uint32 keeps its wrap-around.
-- - The verb %q of fmt, and of the standard library strconv.Atoi, the parsers of dates, net.SplitHostPort
--   and net.ParseIP are parameters, without laws.
-- - `lo`, `float64`, golang.org/x/time/rate and SHA-256 are parameters. `lo` comes with laws, the others do
--   not.
-- - `slices.SortStableFunc` is an insertion sort: on a weak order the result of a stable sort does not
--   depend on the algorithm. The comparison `b.Priority - a.Priority` is one only while no difference
--   overflows, which it does not for priorities between -2^62 and 2^62.
--
-- Bounds and fuel: the loop of `weightedOrder` takes as many rounds as there are providers, and each
-- takes one out; the loop of `GetKey` has as many attempts as there are keys, as the code has, and each
-- leaves one key out. The header parser has as many rounds as the slice has bytes and each takes two at
-- least; `processEventStream` and the conversion of a buffer have more rounds than there are bytes, and
-- each takes 16 at least; Read has more rounds than there are chunks.
--
-- Not modelled here: the HTTP handlers and converters of internal/proxy, the cloud providers of
-- internal/providers, the headers that EventStreamToSSE sets, the health checks, the caches, the loading
-- and watching of configuration files, the wiring in internal/di, the command line, the bearer tokens of
-- internal/auth and the sign-in of codexauth. In the key pool, `NewKeyPool` and the parsing of rate limit
-- headers are left out. A provider of the configuration has only the fields that the modelled functions
-- read.
pub mod Base
pub mod Router
pub mod Keypool
pub mod RateLimit
pub mod Auth
pub mod Config
pub mod Cooldown
pub mod EventStream
pub mod Examples
