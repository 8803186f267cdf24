-- ===== src/Lib.antt =====
-- The verification core of an EUDI wallet verifier: the part of the service that takes a wallet's
-- answer apart, judges it in ten checks and hands the outcome on.
--
-- A run starts from a session and the wallet's body. `Engine.Run` (internal/pipeline/pipeline.go)
-- calls the checks one after the other on a shared `PipelineContext`: each may change the context,
-- returns a row or an error, and the first failing row ends the run. The last check assembles the
-- result and calls `Finalize`, which delivers it, keeps or deletes the session, and zeroes the
-- attribute values in memory. Sessions and their single-use markers live in Valkey
-- (internal/valkeystore/store.go). Around the run, the cluster-internal API creates sessions behind a
-- bearer gate, the wallet's handlers route a response to its session and consume it, the trust
-- anchors come from a cache with its own freshness, and readiness reports on all of them. `init` of
-- app.go puts these parts together from the configuration, and the routes name the handlers.
--
-- Files and what they model:
--   Prelude, Errors        Go's numbers, byte strings, instants, loops with an early return, and
--                          errors as the program inspects them
--   Claims                 disclosed claims and the names that a report keeps of them (report.go)
--   Libraries              the values of the composed libraries and, as one record of parameters,
--                          their operations
--   Policy                 internal/policy/policy.go
--   Pipeline/Names, Report, Classify, Trust, Context, Engine, Finalize
--                          specrefs.go; report.go; errclass.go, errmap.go and the two error texts;
--                          the trust map, key resolution and validity model; credential.go and the
--                          context; the engine; finalize.go (all of internal/pipeline)
--   Pipeline/Checks        one file for each check_*.go, with the check's proofs below it
--   Pipeline/Production    the list of checks that app.go gives to the engine
--   SessionCreator         internal/sessions/creator.go
--   Handoff                internal/handoff/queue.go
--   WalletErrors           routes/wallet_error.go and the problem of a failed run
--   Processor              `Process` of routes/processor_pipeline.go: session row and policy, the
--                          run, the saved report, the session's status, and `Finalize` on failure
--   ValkeyStore            internal/valkeystore/store.go with internal/keyspace/keyspace.go
--   ValkeyStore/Lifecycle, Refinement
--                          the single-use specification of a session, and the store's operations
--                          as a refinement of it
--   Reasons                reasons.go, and the fail codes of the ten checks
--   Metrics, Metrics/Gauges
--                          internal/obs/metrics.go: the recorder, and the gauges of the anchors
--   Keyspace               internal/keyspace/keyspace.go
--   RespondTokens          internal/sessions/respondtokens.go
--   Wallet                 routes/wallet.go
--   InternalApi            routes/internal.go: the gate, the validation of a create request, and the
--                          handlers
--   TrustStatus, KeySet    routes/truststatus.go and routes/jwks.go
--   Routes                 routes/router.go and health.go, with the tables of routes of wallet.go and
--                          internal.go
--   Anchors, Anchors/Static
--                          internal/anchors/valkey.go and getter.go; the fixed source, static.go
--   Readiness              routes/readyz.go and the two methods of app.go behind it
--   StatusCache            internal/statuscache/cache.go
--   SessionDb, SessionDb/Fake
--                          internal/sessiondb/db.go and repo.go; the store in memory, fake.go
--   Config                 config.go: defaults, bindings, secrets and the rules of the tags
--   App, App/Init, App/Notes
--                          app.go and redaction.go: the container, what replaces its parts (with the
--                          switches of testing.go), `init`, and the notices at start-up
--   App/Serving, App/Launch
--                          what the wallet's handlers take from the container; `New` of app.go and
--                          `runWeb` of cmd/server/web.go
--   TestWallet             internal/testwallet/faults.go, and of wallet.go the response that the test
--                          wallet builds and sends, browser requests, and the key of a JWK
--   Examples               concrete libraries and stores, and the theorems applied to them
--
-- Correspondence. A Go function keeps its name in snake case. A mutation of the context is a
-- function from the old context to the new one; a pointer, interface or error that may be nil is an
-- `Option`; a `for range` over credentials with an early return is `each` (Prelude/Loops), whose
-- state is the loop's variables. The stores behind the services are an arbitrary state `W` that
-- every service call passes on. A map is the list of its entries in the order in which Go happens
-- to iterate over it, or a function where nothing iterates over it.
--
-- Parameters. go-oid4vp, go-sdjwt, go-mdoc, go-statuslist, go-eudi-trust, go-dcql, go-eudi-crypto,
-- the Valkey client, the problem registry and JSON are the fields of `Libraries`, `Services`, `App`,
-- `Creator`, `Wire`, `Backend`, `Router`, `Decoders`, `Internal`, `Valkey`, `Pool` and `RefRecorder`;
-- the kit, viper, the validator, the clients' constructors and the metrics library are those of
-- `Outside`, `Framework`, `Handlers`, `KeySource`, `Viper`, `Validator` and `Registry`, and those of the
-- test wallet are `Calls`. A run of the mdoc library is an interaction tree, since it calls back for
-- issuer keys. `IsValkey` states what the session store relies on of the server; the expiry of a key is
-- not among its transitions, and `IsLasting` states how long a value is there at least. `IsUp`,
-- `IsValidator`, `Validates` and `IsRegistry` state what the other libraries document.
--
-- Bounds. Instants are nanoseconds since Go's zero time; `Sub` saturates at the ends of `int64`.
-- A lifetime that is asked for in seconds is an `int64` product that wraps. Details are cut at 200
-- bytes. Every loop of the source is over a finite list, so no model of it runs on fuel; only
-- `decimal` of the Prelude does, with one more step than the number, which has fewer digits.
--
-- Not modelled: the SQL procedures, spans, `main` and the health command, and of the test wallet
-- what it makes with the libraries' own helpers: certificates, status lists, credentials and their
-- presentations, which are parameters of the response that it builds. The verifiers and the status
-- checker that `init` constructs are fields of `Libraries`; the gauges that it registers belong to the
-- process and are a definition of their own, `register_gauges`. Log lines, but for the two notices at
-- start-up, and the value of the latency metric are left out, as are contexts that are cancelled between
-- calls. Aliasing is not modelled: `Zero` is stated of the context and the result that reach it.
pub mod Prelude
pub mod Errors
pub mod Claims
pub mod Libraries
pub mod Policy
pub mod Pipeline
pub mod ValkeyStore
pub mod SessionCreator
pub mod Handoff
pub mod WalletErrors
pub mod Processor
pub mod RespondTokens
pub mod Wallet
pub mod InternalApi
pub mod Anchors
pub mod Readiness
pub mod StatusCache
pub mod SessionDb
pub mod Reasons
pub mod Metrics
pub mod Keyspace
pub mod TrustStatus
pub mod KeySet
pub mod Routes
pub mod Config
pub mod App
pub mod TestWallet
pub mod Examples
