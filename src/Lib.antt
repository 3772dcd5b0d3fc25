-- ===== src/Lib.antt =====
-- The services of this repository: a wallet back end (Express, TypeORM on Postgres, BullMQ on Redis)
-- whose money is a ledger of credit and debit entries.
--
-- A request to move money is checked and put on a queue (`enqueueTransfer` of
-- src/services/transfer.services.ts). A worker (src/workers/transfer.worker.ts) runs the job: `process`
-- runs `executeTransaction`, one database transaction that claims the idempotency record of the key,
-- looks for an earlier transfer under it, checks owner and funds, inserts two ledger entries and one
-- transfer, and bumps the versions of both wallets; `process` retries after a failed optimistic lock,
-- reconciles after a duplicate key, and sends e-mails. An error that leaves `process` reaches the handler
-- of `failed`.
--
-- Users register, prove their e-mail by a one-time password, and log in for two tokens
-- (src/services/auth.services.ts). The middleware (src/middleware/auth.ts) accepts an access token whose
-- version is that of the user's row; a logout and the methods of an administrator
-- (src/services/admin-user.services.ts) raise this version. Logins are locked after failures, and requests for
-- passwords are limited, by counters in Redis.
--
-- The modules, and what they model:
--   Db             the tables (src/models), one record per entity, and the database
--   Tx             errors (src/middleware/error.ts) and `Transactional` (src/utils/db.ts): a transaction
--                  works on a copy, is rolled back when its method throws, and is aborted by a failed
--                  statement, as in Postgres; `outside` is a call on another connection
--   Repositories   src/repositories, one module per table, a function per statement, with the foreign
--                  keys and unique indexes of src/migrations; Ledger's children are Statistics, the queries
--                  over entries joined with wallets, and Joins and Entries, which prove
--   Mail           `send` of src/services/email.services.ts; its child Broadcast is `sendToUsersByTypes`,
--                  and Delivery is src/workers/email.worker.ts with src/providers/aws-ses.provider.ts
--   Jobs           a queue of BullMQ, whose workers pick any job next; its child Picks has lemmas on it
--   Http           `errorHandler` and `routeNotFound` of src/middleware/error.ts
--   Health         src/services/healthcheck.services.ts and the status that
--                  src/controllers/healthcheck.controller.ts answers
--   TransferService and its children Execute, Process, Enqueue: src/services/transfer.services.ts and
--                  src/services/currency-convertion.services.ts, a function per method, in snake case;
--                  `executeTransaction` and `process` are cut into the stretches of code between their
--                  branches. Its other children prove: Funds, Succeeds, Once, Outcome, Replay,
--                  Reported, Admission, on the lemmas of Steps, Performed, Effects, Atomic, Payable
--                  and Passes. Race is `executeTransaction` while others commit; its children prove
--   Worker         src/workers/transfer.worker.ts; its children prove
--   WalletService  src/services/wallet.services.ts; its child Defaults proves
--   StatusService  src/services/idempotent.services.ts; its child Stream proves
--   Redis          the server's commands as an interface; Laws holds what is documented of them, Memory a
--                  server in memory that has these laws
--   Lockout        src/utils/lockout.ts, src/utils/lockoutlua.ts, src/utils/lockout.lua; its children prove,
--                  Guard against an automaton of open and locked states
--   RateLimit      `RateLimitByKey` of src/utils/index.ts; its child Quota proves
--   Cache          src/utils/cache-decorator.ts; its child Served proves
--   Auth           src/utils/auth.ts, src/middleware/auth.ts, src/utils/authorization.ts; its children
--                  Service, Login, Otp and Register model src/services/auth.services.ts; Laws holds what is
--                  documented of jsonwebtoken and bcrypt; the others prove
--   Admin          src/services/admin-user.services.ts, src/services/user.services.ts, with
--                  `getUserTransactions` in Transactions; its other children prove
--   Analytics      src/services/analytics.services.ts, Cached its decorated methods; Counts proves
--   Controllers    src/utils/send-json-response.ts and the guards of a route; AdminUser, Auth, Transfer and
--                  Customers are the files of src/controllers and src/routes, the last those of wallets, users
--                  and analytics; Access, Sessions, OpenWallet and OwnRow prove
--   Audit          src/utils/audit-sanitizer.ts, src/middleware/audit-log.ts; its child Queue is
--                  src/services/audit-log.services.ts and src/workers/audit.worker.ts; Secrets, Drained and
--                  Recorded prove
--   Platform       what the code calls and this repository does not hold
--   Base           names of the libraries, tables as lists, GROUP BY, integers
--   Example, Tests a small database with a platform, its runs, and the theorems at concrete inputs
--
-- Amounts are integers, in units of the smallest decimal that is kept, in place of numerics and doubles.
-- How texts are read and printed, products with a rate, and the rates themselves are functions of
-- `Platform`; `ReadsBalances` and `ReadsAlike` are what theorems assume of them. The mailer is a function
-- of what is queued already, so it may refuse any e-mail. What the rest of the world does while a job
-- sleeps is a function too. A transaction runs alone, except in TransferService.Race, where others commit
-- before and after `getWallets`: under READ COMMITTED, the level that `Transactional` leaves as it is, each
-- statement sees what is committed by then.
-- `process` needs no fuel: its loop is by recursion on the number of retries that are left,
-- `TRANSFER_OPTIMISTIC_RETRIES` at first. The argument `max` of `shouldRetryOptimisticLock` is this number.
--
-- `login_user` composes the decorators as the code does: the flag of an authorization, then the lock, then
-- the method. Functions that use Redis take a `Session`, which is the tables, the store of Redis and the
-- queue of e-mails. Cryptography is the record `Crypto`, whose functions take the time and the salt;
-- times are numbers in the unit of the tokens' expiry. The polls of the cache are five, as in the code.
--
-- A user stands with the names of the profile that is joined. The table of profiles is not modelled, so what the
-- database does when an edit has given a profile another id is a parameter.
--
-- Not modelled: the controller of the stream of a status, which calls `streamStatus`; the validation of bodies
-- and paths, a call of Zod; configuration and logging. The routes are modelled without the audit log.
pub mod Base
pub mod Db
pub mod Tx
pub mod Platform
pub mod Repositories
pub mod Mail
pub mod Jobs
pub mod TransferService
pub mod Worker
pub mod Redis
pub mod Lockout
pub mod RateLimit
pub mod Cache
pub mod Auth
pub mod Admin
pub mod Audit
pub mod Analytics
pub mod Http
pub mod Controllers
pub mod Health
pub mod WalletService
pub mod StatusService
pub mod Example
mod Tests
