-- ===== src/Lib.antt =====
-- A model of the billing queue, the access of subscriptions and the market queries of the Albion
-- market API, a Go service over PostgreSQL.
--
-- The program. A payment provider delivers webhooks. The service validates each, stores what it
-- keeps of it in a queue (the table billing_webhook_events), and a worker claims the events one by
-- one under a lease, applies them to the tables of subscriptions, orders and notifications, and
-- marks them finished, to be retried, or dead letters. The access of a user is decided by one of
-- the rows of subscriptions. Beside that the service takes market prices and histories from a
-- receiver and answers queries about them for the markets of a catalog; and it keeps presets and
-- calculations of its users.
--
-- The files.
--   Prelude (Tests, Lists, Fallible, Int): shared names, Boolean tests, lists over the native
--     numbers, (value, error) results, integers.
--   Text, Clock, Int64, Maps, Seen, Sort, Sql: the strings, times, machine integers, maps,
--     deduplicating loops and stable sorts of Go as the sources use them, and `order by ... limit 1`.
--   Billing/Queue: internal/billing/webhook_queue.go and finishProductionWebhook of webhook_types.go.
--     `enqueue`, `claim`, `finish_event` and `fail_event` are the statements; Queue/Invariant has the
--     step relation in which deliveries and any number of workers interleave, one statement a step.
--   Billing/Retry: retryDelay, and the bounds of LoadBilling (internal/config/billing.go).
--   Billing/Webhook: validateAndSanitizeWebhook, validateWebhookScope and their helpers.
--   Billing/Access, Billing/Subscriptions: webhook_subscription.go and webhook_user.go.
--   Billing/Handlers: webhook_order.go and webhook_payment.go, and the choice of the handler.
--   Billing/Processing: ProcessWebhookEvent (webhook_processing.go) and processOne, over the queue
--     and the tables together.
--   Accounts: the query activeSubscription of internal/accounts/accounts.go; Accounts/Until joins it
--     with the status and the date that a subscription event yields.
--   Market/Domain: internal/domain/market.go. Market/Catalog: internal/marketcatalog/catalog.go.
--   Market/Prices, Market/History, Market/Ingest: internal/service/market_service.go and
--     history_service.go.
--   Sql/Upsert: `insert ... on conflict do update`. Market/Latest: the newest value of a key.
--   Market/Server: what the two ingests of the repository share. Market/Store and its children:
--     internal/repository/market_repository.go, with Market/PriceSource; Store/Served and Store/Repeated speak of a
--     sequence of ingests, Store/Read of the query. Market/Buckets, Market/HistorySource and
--     Market/HistoryStore: history_repository.go.
--   BlackMarket/Economics: internal/blackmarket/blackmarket.go. BlackMarket/Filters: the requests of
--     opportunities.go. BlackMarket/Risk: opportunities_helpers.go.
--   SavedData, SavedData/Limits, SavedData/Calculations: internal/saveddata/saveddata.go.
--   Tests: sample data and runs.
--
-- How it is modelled. A table is a list of rows; a statement is a function of the rows and of the
-- time of its transaction. The rows of the queue, of orders and of the outbox are those of the
-- service's provider. A handler returns the new tables or an error, and on an error the caller
-- keeps the old ones, as the rollback does. `for update skip locked` is a test that tells the rows
-- that other transactions have locked. The unique index on the order of a subscription can make an
-- upsert fail; the length checks of the columns are not modelled. A step of the queue that finishes
-- an event or records its failure acts on a row in `processing`, as it is while the worker holds
-- its lease; the statements themselves name the row by its identity alone, so a worker whose lease
-- has run out is outside these steps. The column status of the queue is taken to allow the six
-- statuses of migrations/0018_billing_webhook_queue.sql; the older check
-- billing_webhook_events_status_allowed of migration 0008, which that migration does not drop, is
-- not part of the model, but the statement of a claim may fail, as it does under that check. Dates
-- that a subscription or an order stores are cut to microseconds, and the identity of a user is
-- compared as a uuid, in lower case. Time counts nanoseconds from the start of the year -1 (Clock),
-- and a Text is a list of code points whose UTF-8 bytes are computed where the sources count or
-- index bytes. Loops are by recursion on their list. Three loops have fuel: the decimal digits of a
-- number have the number plus one, which is above its number of digits; the walk over the entries
-- of a copy source has one more turn than there are entries; and the reading of a copy source has
-- one more than there are rows, which is shown to be enough. A statement of an ingest may fail with
-- any text; a failing ingest leaves the store, and a commit that fails is taken as rolled back.
--
-- What the model takes as arguments: the tables of `unicode`, `time.Parse` and `crypto/sha256` (the
-- record Platform, and `parse_date`), the hashes of requests and the scan of a UUID (Codec), JSON
-- and `lower` of the database (Storage), `float64` (Floating), the collation of the database, and
-- what PostgreSQL reads from the text of an interval. The services of Market/Prices and
-- Market/History take their repository as an argument; Market/Store/Read is its plain query,
-- without the query of market_trust_repository.go that PgxMarketRepository offers too. The presets
-- take as an argument what the database answers to their statements but for the unique indexes, and
-- count and insert in one step. The decoding of JSON is the caller's.
--
-- Not modelled: HTTP handlers, authentication, the queries of the black market, profiles,
-- administration, the checkout, metrics and configuration other than the worker's; of accounts.go
-- the synchronization of the user row and the entitlements.
pub mod Prelude
pub mod Text
pub mod Seen
pub mod BlackMarket
pub mod Clock
pub mod Int64
pub mod Sql
pub mod Billing
pub mod Accounts
pub mod Sort
pub mod Maps
pub mod Market
pub mod SavedData
pub mod Tests
