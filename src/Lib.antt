-- ===== src/Lib.antt =====
-- The core of specter-cloud, a backend for drones: who may sign in, which token stands for whom, who
-- may do what at which org, what the operators' scripts and the migrations do, whose telemetry a
-- stream shows, and what the application sets up around its routes.
--
-- The parts, and the files that model them:
--   app/models             Models: a record for each table, a field for each column.
--   app/core/database.py   Store, Store/Monad: a request is a function from a state to a result and
--                          a state. The state has the committed tables, the tables as the open
--                          transaction sees them, the rows that are added and not yet flushed, and
--                          the warnings that are logged. `with_session` is `get_db`: what a request
--                          has not committed is dropped. Store/Raises puts together which errors a
--                          call raises; App/Urls has the URL of the engine.
--   app/auth/permissions.py  Permissions: the catalog and the bundles of the roles.
--   app/audit/log.py       Audit: `write`.
--   app/auth/rbac.py       Rbac: `check_permission` with its recursive query, and the `checker` that
--                          guards a route. Rbac/Rounds, Ancestors and Grants are about the query,
--                          Decision and Scope about the check, Guard about the checker.
--   app/auth/session.py    Sessions: issuing, looking up and revoking. Sessions/Steps has the requests
--                          on sessions as steps between committed tables; Lookup, Fixed, RoundTrip,
--                          RevokeAll and Unique state what they guarantee. Sessions/Ledger is their
--                          specification: the sessions as the replies alone describe them.
--   app/auth/password.py   Password: hashing and verifying.
--   app/auth/login.py      Login: `attempt_login`. Login/Outcome computes every branch; Attempts, Series
--                          and Lockout are about failures and the lock, Overlap about attempts that
--                          run at once, Counts about the counter, Reached, Success and Admits about a
--                          login that succeeds and its session.
--   app/auth/api_key.py    ApiKey: the keys of drones, and `get_current_drone` of
--                          app/auth/dependencies.py. ApiKey/Format is about their text, Verify and
--                          Genuine about which are accepted.
--   app/auth/dependencies.py  Dependencies: `get_current_user`; CurrentUser and Presented are about
--                          whom it lets through, AfterLogin about a user who has just signed in.
--   app/api/v1/auth.py     Routes: `login`, `logout` and `me`. Routes/Audited, SignIn and LoginAudit are
--                          about the audit rows of a login, Ending, SignOut and Bearer about a logout.
--   scripts/mint_key.py, scripts/revoke_key.py  Scripts/Keys; Scripts/Mint, MintVerify, OneActive, Overlap
--                          and Revoke are about which keys are active and accepted.
--   scripts/bootstrap_specter_org.py  Scripts/Bootstrap: `bootstrap`; Ends computes how a run ends, Again
--                          and Rights state what it guarantees.
--                          Fresh is about the first run, FirstLogin about the login after it.
--   the `main` of the three scripts  Scripts/Commands, from the collected options or the environment to what is
--                          printed; Minting, Prints, Revoking, Starting and Restarting state how they end.
--   alembic/versions       Migrations: Schema has the operations of alembic on a schema, Initial and HumanAuth
--                          the two revisions; HumanTables has its tables; Undo, Backs and
--                          Restore are about taking an upgrade back, Revisions about both revisions.
--   alembic/env.py         Migrations/Environment: where the revisions run, and in which transaction;
--                          Migrations/DatabaseUrl is about the URL.
--   app/schemas/telemetry.py, app/api/v1/ingest.py, app/api/v1/stream.py  Telemetry: the payload, the
--                          handler and the generator of a stream; Telemetry/Delivery and Ingest are
--                          about which samples a stream shows.
--   app/core/redis.py, app/main.py  App: RedisClient has the shared client with the lifespan, as steps of
--                          tasks, OneClient how many are open; Responses has the handler of errors,
--                          Raised and Answers which answers the routes give.
--   app/core/middleware.py  App/RequestId; App/Identified is about where the id of a request gets to.
--   app/core/config.py, app/core/logging.py, app/api/v1/health.py  App/Config.
-- A login checks the password and issues a session; a guard reads the grants of the user that a
-- session stands for, and adds an audit row.
-- Platform has what comes from outside the repository: SHA-256, argon2 and Unicode tables are
-- parameters. Prelude has the shared lists, rows and strings; Examples runs the program on small tables.
--
-- A table is a list of rows. Its order stands for the order in which the database returns rows that
-- ORDER BY leaves open; the theorems hold for every order. UUIDs and moments are numbers (a moment
-- counts microseconds); the clocks, fresh ids and random tokens are arguments of the operations.
-- The recursive query runs for one round more than its depth limit, which is enough.
-- A flush or commit fails when a value that a request supplies is too long for its column, a unique
-- key is taken or a foreign key has no row; the transaction is then undone. Not modelled: the
-- validity of INET values, the cutting of trailing blanks, lost connections, and transactions
-- of other requests between two statements of a request: requests run one after another, but in Login/Overlap
-- and Scripts/Overlap they have all read before one of them writes.
-- The operations of a migration change the schema as PostgreSQL documents it; an operation that it refuses
-- ends the migration. A column is dropped with its keys and indexes gone before, as the revisions do.
-- A call of Redis ends in one of three ways: it returns, or it raises before or after it had its effect.
-- What Redis sends a connection is a function of the calls of its subscription: a message that confirms each call,
-- and what is published on the channels subscribed to.
-- The tasks of a process switch at an await: of the Redis client only the close is one, and the lifespan is its
-- only caller. The options of alembic's Config are a parameter.
-- So is Starlette's ExceptionMiddleware, which makes a response of an HTTPException before RequestIDMiddleware sees
-- it; any other exception passes RequestIDMiddleware, and the answer 500 is made outside of it.
-- Not modelled at all: how argparse reads the words of a command line, the expiry of the values in Redis, CORS
-- and the registration of the routers, which are calls of libraries, and the drone simulator, a client.
pub mod Prelude
pub mod Models
pub mod Permissions
pub mod Platform
pub mod Store
pub mod Audit
pub mod Rbac
pub mod Sessions
pub mod Password
pub mod Login
pub mod ApiKey
pub mod Dependencies
pub mod Routes
pub mod Scripts
pub mod Migrations
pub mod Telemetry
pub mod App
pub mod Examples
