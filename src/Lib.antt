-- ===== src/Lib.antt =====
-- A model of the services of hire-flow, a marketplace of freelance work: its money-moving core, its
-- jobs and profiles, and the servers in front of them; and what makes them correct.
--
-- The program. A client hires a freelancer by a contract whose amount is put on hold in the client's
-- wallet and paid out when the contract is completed. Two services share this work. The payments
-- service (services/payments) owns wallets, holds and a log of transactions. The contracts service
-- (services/contracts) owns contracts and runs a saga: it calls the payments service over HTTP
-- between its own database transactions, and it learns of payments by events. Each service writes
-- its events into a table, the outbox, in the transaction that they belong to, and a publisher
-- (pkg/outbox) sends them to the broker. The jobs service (services/jobs-api) owns jobs and the
-- profiles of freelancers, and writes events in the same way. Browsers talk to three servers
-- (services/bff, over the library pkg/bff), for administrators, clients and freelancers, which check
-- who asks and how often, and pass the requests on to the services with the user in X-User-ID.
--
-- The files.
--   Prelude    numbers with the wrap-around of int64, tables of keyed rows, sorting by a key.
--   Outbox     pkg/outbox: fetch_unpublished and mark_published are the statements of store.go,
--              publish_batch and run are PublishBatch and Run of publisher.go. outbox.go and
--              outbox_publisher.go of services/contracts/cmd/server, the same code over MySQL, are
--              Contracts/Publisher.
--   Payments   services/payments/cmd/server. Types has the tables, Stores the SQL statements of
--              hold_store.go, wallet_store.go and transaction_store.go, Tx a database transaction,
--              Handlers the handlers HoldFunds, ReleaseFunds and TransferFunds of handler.go. Spec
--              states the rules of the escrow as a step relation; Refinement, Invariant, Service,
--              Audit, HoldLife and Outcomes have the theorems. Queries has GetWallet and
--              ListWallets, and Seed; Queries/Joining has their SQL join row by row. Overlap has
--              HoldFunds as it runs beside another request for the same wallet. SeedTool is the
--              command services/payments/cmd/seed.
--   Contracts  services/contracts/cmd/server. Stores has the statements of contract_store.go,
--              milestone_store.go and outbox.go, Saga the methods of saga.go, Client the calls of
--              payments_client.go in front of Payments/Handlers. Spec has the changes of status (the
--              diagram of contract.go, and PENDING to CANCELLED) and the effects of a transaction;
--              Escrow is the interface that the saga relies on.
--              Api has the handlers of handler.go and a round of runPaymentsConsumer of main.go;
--              Listing has ListContracts, Milestones has ListByContract.
--              Hearing follows payment.held from HoldFunds to the consumer. Life, Consistency,
--              History, Retry and Working hold theorems.
--   Jobs       services/jobs-api/cmd/server. Stores has the statements of job_store.go and
--              profile_store.go, Handlers the handlers of job_handler.go and profile_handler.go,
--              Tx a transaction and customErrorHandler of middleware.go, Service the routes. Spec
--              states the four kinds of steps, System is the service with its publisher; Refinement,
--              Invariant, System and Outcomes hold theorems.
--   Bff        Auth and Login have auth.go, context.go and WriteError of http.go of pkg/bff, Limiter
--              the rate limiter of middleware.go, Client has Do and Forward of client.go. Servers has
--              the handlers of services/bff/{admin,client,freelancer}/cmd/server (Admin, Client,
--              Freelancer) and the chains of middleware of their main.go. Tokens, Limiter/Isolation,
--              Servers/Sending, Servers/Guards and Servers/Dashboard hold theorems.
--
-- How state and failure are modelled. A database is a record of lists of rows, new rows first, and
-- an operation takes it and returns it. The constraints of the migrations (primary keys, foreign
-- keys, checks, the range of a BIGINT) make a statement fail. Whatever else may fail is decided by an
-- argument, `Env`, `BatchEnv` or `Network`: which calls of an operation fail, whether its commit is
-- refused or is durable with the acknowledgement lost, whether a request or its answer is lost, what
-- the clock says, and which new ids are made up. They are not restricted. Text that is only
-- compared (UUIDs) is a number, and the empty text or nil UUID is 0.
--
-- Loops. The loops go over lists and need no fuel; `run` takes the list of what happens in each round
-- of an endless loop. The publisher's batch of 100 rows is that of NewPublisher.
--
-- Libraries. Bff takes three things as parameters: `Jwt`, the library that signs and parses tokens,
-- with the laws `JwtLaws` that its documentation states; `Rate`, a token bucket, of which nothing is
-- assumed; and `Net`, the network with the services behind it. `Escapes` stands for the escaping of
-- net/url. The tests have an instance of each that keeps the laws.
--
-- What is not modelled. But in Payments/Overlap, the requests to one service are taken one after
-- another: the row locks (`FOR UPDATE`) are what the code relies on for that, and for HoldFunds they
-- do not suffice. Rows that an ORDER BY does not tell apart come in any order in the pages of
-- contracts and wallets; in those of jobs, in the lists of skills and milestones and in the batches
-- of the outbox they stay in the order of the table. JSON is read and written by libraries, and the model starts from the result, or
-- from its failure. The choice of a route by its path, logging, tracing and start-up are left out,
-- and so are telemetry, ai-matching (Python) and the front ends (TypeScript).
mod Prelude
pub mod Outbox
pub mod Payments
pub mod Contracts
pub mod Bff
pub mod Jobs
