-- ===== src/Lib.antt =====
-- Pennant: a feature flag service. A configuration store (internal/store) holds projects with flags,
-- segments and, for each environment, the configuration of each flag. The evaluator (internal/eval)
-- decides which variation of a flag (internal/model) a context is served. Snapshots of an environment and
-- the deltas between them (internal/snapshot) are published through a hub that keeps a ring of the last
-- messages (internal/stream), to clients that an SDK key lets in (internal/sdkauth); users have roles and
-- tokens (internal/auth). Events come back through an ingestor (internal/analytics). The HTTP handlers
-- (internal/api) put these parts together: a change is stored, audited and published, and a stream writes what
-- its subscriber's channel holds. The SDK client (sdk/go/pennant) reads such a stream and evaluates for itself.
--
-- Which file models what:
-- - Prelude: shared names, Boolean tests, lists over the native numbers, signed 64-bit integers (Int), Go's
--   maps as association lists (Dict), its functions on strings (Texts), postconditions of partial results
--   (Ensures) and loops that stop at the first element (Scans).
-- - Model: the structs of internal/model (Types) and Flag.Validate and Segment.Validate (Validate), with
--   what they accept (Validate/Laws).
-- - Eval: what the evaluator takes from Go's libraries, one record (Runtime); operators.go (Operators, and
--   Operators/RegexCache for its cache), bucket.go (Bucket), clause.go (Clauses), evaluate.go (Evaluate) and
--   explain.go (Explain). The children are named for what they prove: Clauses/Fuel and Clauses/Laws;
--   Evaluate/Range, Order, Pipeline, Reasons, Prerequisites, Cycles, Validated, Rollouts and Descriptions;
--   Explain/Agreement and Explain/EmptyRules.
-- - Snapshot: types.go (Types), delta.go (Delta, with Delta/Maps and Delta/RoundTrip) and builder.go
--   (Builder, with Builder/Content).
-- - Stream: types.go (Types), ring.go (Ring, with Ring/Window, Ring/Tracks and Ring/Replay) and hub.go (Hub,
--   with Hub/Publishing).
-- - Store: store.go (Types) and memory.go (Memory; Memory/Entries for flags, configurations and segments,
--   Memory/Counters for versions and the audit log). Memory/WellFormed, Steps and Operations have the
--   invariant, Memory/Maps its lemmas, Memory/Lookups what is found after a change.
-- - Auth: the roles and the user store of internal/auth/types.go and store.go, with Auth/Tokens;
--   middleware.go (Auth/Middleware).
-- - SdkAuth: sdkauth/auth.go, with SdkAuth/Revocation.
-- - Analytics: analytics/ingestor.go, with Analytics/NoLoss; memstore.go (Analytics/EventStore, with Totals).
-- - Events: events/bus.go, with Events/Topics.
-- - Experiments: experiment/types.go and store.go, with Experiments/Results.
-- - RateLimit: ratelimit/limiter.go, with RateLimit/Isolation.
-- - Api: api/server.go. Types has the server's state, requests and responses, and the steps that handlers share;
--   Pages the pagination, with Pages/Cover; Changes the audit entries and the publication; Projects, SdkKeys,
--   Flags, Segments, Sessions and Reports the handlers, with Projects/Audit and SdkKeys/Admission; Delivery the
--   endpoints of the SDKs, with Delivery/Connections; Frames the text of a stream. Routes has the table of
--   routes and the middleware, with Routes/Access, Routes/Errors and Routes/Keys.
-- - Client: sdk/go/pennant/client.go, with Client/Reading, Client/Variations, Client/Agreement (with the server),
--   Client/EndToEnd, Client/Connecting for the connections and their waits, and Client/Recovery.
-- - Checks: concrete inputs, and the theorems applied to them.
--
-- How the code corresponds. A struct is a record, a pointer that can be nil an Option, a Go int or int64 an
-- integer whose sums wrap where the code adds (wrap64), a json.RawMessage its text, a text the string of its
-- bytes. A map is an association list, and a range over it visits the list's order. A method that holds a
-- lock is one step from a state to a state; an object that is changed through a pointer is put back
-- where it was found. Floats, JSON, SHA-1, strconv, regexp, time, semver and fmt are parameters.
--
-- Fuel. Prerequisites are evaluated with 22 rounds, since the code rejects depth 21. Segments that ask for
-- segments take fuel, because the code has no guard there: Clauses/Fuel shows that fuel above the longest
-- chain of references is enough, and that a segment that asks for itself has no result.
--
-- Requests. A handler is a function from the server to the server and the response. What it calls of
-- encoding/json, fmt, strconv and bcrypt is a field of one record (Wire). All readings of the clock in one request
-- are the same. An error that the store returns stands in the response for its text. The authenticator is always
-- there, as cmd/server passes one. A subscriber that the hub dropped leaves nothing in its channel, while the code
-- lets the stream empty it first. A panic of a validator is the status 500 of the middleware Recoverer.
--
-- Not modelled: the SQL stores, the signing of tokens and passwords, metrics and the commands, which are calls of
-- libraries; the statistics and the experiment engine, which compute with floats; canonical JSON, and the
-- TypeScript SDK. The timeout of the SDK client's New and its Close are timers and goroutines. Interleavings of
-- calls on the hub, on the event bus and on the ingestor are not modelled either: their calls come one after
-- the other, and so do the requests.
pub mod Prelude
pub mod Model
pub mod Eval
pub mod Snapshot
pub mod Store
pub mod Auth
pub mod SdkAuth
pub mod Analytics
pub mod Stream
pub mod Events
pub mod Experiments
pub mod RateLimit
pub mod Api
pub mod Client
pub mod Checks
