-- ===== src/Lib.antt =====
-- A model of the Go library google-photos-picker: a server connects its users to Google Photos by OAuth,
-- opens picker sessions, and imports the photos that a user picked through a background worker.
--
-- The parts, and the files that model them (paths of the source from the repository's root):
--   errors.go                        Errors.antt; (value, error) and context.Context are in Exec.antt
--   oauth.go                         OAuth.antt (configurations, tokens), StateStore.antt with its children
--   internal/cryptobox/cryptobox.go  Cryptobox.antt; hex decoding in Cryptobox/Hex.antt
--   stores.go, sink.go               Stores.antt, Sink.antt; what the users of a store rely on is in
--                                    Stores/Contract.antt and Stores/Progress.antt
--   picker.go                        Picker.antt; net/http in Http.antt, url.Values in Http/Query.antt
--   client.go                        Client.antt
--   worker.go                        Worker.antt
--   callback.go, handlers.go         Callback.antt, Handlers.antt
--   postgres/tokens.go               Postgres/Tokens.antt over Postgres/Database.antt
--   postgres/imports.go              Postgres/Imports.antt over Postgres/Database.antt
--   postgres/migrate.go              Postgres/Migrations.antt
--   examples/minimal/main.go         Example.antt: the sink (Disk), the routes (Routes), the start (Setup), and
--                                    path/filepath (Paths); package strings is in Base/Strings.antt
-- A part that is large has its data in a child (Picker/Data, Client/State, Handlers/Messages, and a Table for
-- each table of the database). Service.antt runs the parts together: requests, callbacks, ticks and single calls
-- of workers, ticks of the sweeper, revocations and the passing of time, one after another in any order.
-- A function or a method of the source has one definition with its name in snake case (`googleRequest` is
-- `google_request`, `stateStore.consume` is `consume`); a handler's is named for what it does where the name
-- is taken (`Handlers.Status` is `get_status`). Base.antt holds the shared helpers: Boolean tests, lists,
-- maps, text and int64.
--
-- How the parts meet. Handlers call the client; the client and the worker call Google through the functions
-- of picker.go, with `access_token` for their authorizer, and keep their data in a `TokenStore` and an
-- `ImportStore`, which the two stores in PostgreSQL implement. The mutable state is the record `World`: the
-- OAuth states, the states of the two stores, the refresh tokens that goroutines have still to revoke, and
-- the environment `X`, in which time passes and the network answers. An operation is a function of the
-- state that returns its result and the new state, with what was written before an error kept.
--
-- What is assumed. Code that is not in the repository is a parameter: the clock and crypto/rand (`System`),
-- net/http (`HttpClient`), golang.org/x/oauth2 (`Oauth2`), AES-GCM (`Aead`), JSON, image headers and RFC 3339
-- (`Readers`), database/sql and the server's clock, locks, texts and failures (`Database`), Goose (`Goose`), and files
-- and environment variables (`Files`, `Machine`). What theorems need of these is a named hypothesis (`IsAead`,
-- `FillsBuffer`, `TakesTime`, `Answers`, `IsUp`, `NamesFiles`); Toy.antt, Cryptobox/Toy.antt and Example/Tests.antt
-- have surroundings in which each holds. SQL statements are functions on tables, written from the text of the
-- statements. A statement may fail to reach the server, and is then without effect; or it runs and its answer is lost,
-- and then it has its effect and the caller an error. Only where `Answers` or `IsUp` is a
-- hypothesis is that excluded.
--
-- Numbers. Times are nanoseconds, and 0 is the zero time. int64 is ℤ of Base/Int64.antt, with the wrap-around
-- of the sums and products that the source computes with caller's numbers; the counters of jobs are INT columns,
-- which refuse what does not fit. A duration may be negative, and then leaves no time to its deadline.
--
-- Fuel. `list_session_media_items` takes fuel for the pages of a session, since the server may send pages
-- without end. A job's context has a deadline, a request under a context that is done fails, and every request
-- takes time, so fuel for one page more than there are nanoseconds to the deadline is enough. `drain_once` takes
-- fuel for the jobs that it claims; a claimed job is never pending again, so one more than there are pending
-- jobs is enough.
--
-- What an action keeps: Exec/Invariants.antt has a rule for each way to build an action, the Effects modules
-- of Picker, Client, Handlers and Worker carry a predicate on the stores through each operation, and
-- Stores/Keeping.antt says what that needs of the stores.
--
-- Not modelled: logging, the rendering of html/template, what Goose does with the SQL files, the shutdown and
-- the timeouts of the example's HTTP server, the browser client under client/, tests, and the server's refusal of a text that is
-- not UTF-8 or has a NUL in a column other than the message of a failed job. A request is one
-- step in Service.antt, where the worker runs whole and also call by call, so that the calls of any number of
-- workers come between requests; the histories of Postgres/Imports interleave the statements themselves.
pub mod Base
pub mod Errors
pub mod Exec
pub mod System
pub mod Http
pub mod StateStore
pub mod Cryptobox
pub mod Stores
pub mod OAuth
pub mod Service
pub mod Example
pub mod Sink
pub mod Picker
pub mod Client
pub mod Worker
pub mod Callback
pub mod Handlers
pub mod Toy
pub mod Postgres
