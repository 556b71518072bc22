-- ===== src/Lib.antt =====
-- zaas: random things as a service. The Go module under api serves an HTTP API of random numbers,
-- texts and keys, with API keys of its own, rate limits, and accounts that are verified by email.
--
-- The parts and how they interact. A request passes the middleware (api/internal/middleware): CORS,
-- the check of the API key, which asks the store for the client behind the key, and the rate limit,
-- which asks a limiter (api/internal/ratelimiter) under the client's id and rate or under the address.
-- The handlers (api/internal/handler) of the random endpoints call the services
-- (api/internal/service); those of the accounts call the store (api/internal/store), which keeps
-- clients and verification tokens in PostgreSQL, and the email sender. The router
-- (api/internal/handler/router.go) puts these together: the generated wrapper
-- (api/internal/gen/openapi.gen.go) reads the parameters of a query for the handlers. The program
-- (api/cmd/server/main.go) starts the telemetry, connects to PostgreSQL and Redis, serves, and closes
-- what it opened.
--
-- The files. Names are the source's, in lower case.
-- Http: requests with their context, response writers, problem details; `Handler S` is a handler
--   that changes the state `S` of the world.
-- RateLimiter: the interface of ratelimiter/interface.go. RateLimiter/Memory is memory.go: `allow_n`
--   is `AllowN`, with the time of the call as an argument; `cleanup`, `tick` and `close` are
--   `cleanup`, a round of `cleanupLoop` and `Close`. RateLimiter/Redis is redis.go:
--   `redis_allow_n` is its `AllowN` and `sliding_window` the Lua script, on the set of the key alone.
--   RateLimiter/Redis/Server has the sets of all keys and sequences of calls. RateLimiter/Spec is the
--   ideal limiter.
-- Store: store.go, the rows and the interfaces `ClientStore` and `TokenStore`. Store/Postgres is
--   postgres.go over tables as lists of rows: an SQL statement is what it does to the list, and any
--   query may fail. Store/Postgres/History has whole sequences of calls with time in between.
-- Middleware: admin.go, auth.go with context.go, cors.go, logger.go, and ratelimit.go with `extractIP`.
-- Handlers/Auth: auth.go, one file for each of `AuthRegister`, `AuthVerify` and `AuthReissue`, over
--   the interfaces of the store. Handlers/Respond is respond.go, and Handlers/Endpoints the random
--   endpoints of server.go with the defaults of their parameters. Handlers/Health is health.go,
--   metrics.go and openapi.go, and Handlers/Server the `Server` of server.go as the interface of the
--   generated code.
-- OpenApi: the parameters, `ServerInterface` and errors of gen/openapi.gen.go; OpenApi/Wrapper is
--   `ServerInterfaceWrapper`.
-- Router: router.go. `new_router` hands the middleware and the routes to chi, an interface whose laws
--   are in Router/Dispatch. Router/Gates, Router/Public and Router/AuthBound are about requests as they
--   come from the network, Router/Query and Router/Endpoint about queries and their answers;
--   Router/World is a concrete server for tests.
-- Start: a procedure gives its result and its effects, which resources it opens and closes and when it
--   serves. Start/Main is cmd/server/main.go, Start/Telemetry is telemetry/telemetry.go, Start/Connect
--   is `ConnectAndMigrate` of store.go and `NewRedisRateLimiter` of redis.go.
-- Service: a file for each of auth.go (Keys), number.go with dice.go and coin.go (Number), uuid.go,
--   color.go, password.go, words.go, lorem.go, wordlists, coordinates.go and sshkey.go. Service/Float
--   is an interface of float64, and Service/Float/Rounds the laws of its arithmetic that are used.
--   Service/Gen has what the services share: a call takes numbers from a source and returns, fails
--   with an error, or panics; `Yields P Q m` says that from every source `m` returns a value with `P`
--   or an error with `Q`, and does not panic.
-- Email: email/email.go, which fills the interface that the handlers use; Config: config/config.go.
-- Prelude: numbers, lists, texts and their lemmas.
--
-- Bounds and fuel. Numbers are unbounded; the code's `int` has 64 bits, and no sum that is modelled
-- gets near: the services check their bounds first, and times are nanoseconds since 1970. Loops are
-- structural recursion. The only fuel is in printing a number, which has as much as its value.
--
-- Parameters. SHA-256, the random bytes, `mail.ParseAddress`, `uuid.New`, `%q` of fmt, the run of a
-- script by Redis, the arithmetic of float64, key generation and the encoders of keys, chi, the binding
-- of a query's parameters, the calls of pgx, goose, go-redis and OpenTelemetry, the email templates and
-- encoders and `smtp.SendMail` are parameters of the definitions that use them.
--
-- Not modelled: the telemetry around the router and in the handlers, the text of the log, timeouts and
-- cancelled contexts; what chi does below /api/v1 with a path that has no route; of the generated code,
-- the unions of the responses and the functions that the program does not call; the web
-- front end, deployment and infrastructure. Goroutines interleave as sequences of whole calls, since
-- every call holds the limiter's mutex, or is one script or one SQL statement.
pub mod Prelude
pub mod RateLimiter
pub mod Http
pub mod OpenApi
pub mod Store
pub mod Service
pub mod Middleware
pub mod Handlers
pub mod Email
pub mod Config
pub mod Router
pub mod Start
