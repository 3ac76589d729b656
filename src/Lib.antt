-- ===== src/Lib.antt =====
-- A model of the gateway of tokenpanel, an admin panel and proxy for language-model providers:
-- what a request costs, how money and rate limits are held before a provider is called and settled
-- afterwards, and how settlements that could not be made at once are worked off.
--
-- The parts and their files:
--
-- - Prelude: Boolean tests, lists, JavaScript strings as lists of UTF-16 code units.
-- - Mongo: a document collection as an interface of atomic one-document operations, with the
--   documented behaviour as laws, and a list that meets them. A filter is a test on documents
--   and an update a function on them.
-- - Settlement/Outbox: the outbox of pending settlements. The rows are those of
--   packages/db/src/schemas/effect/settlement-outbox.ts; Repo is
--   apps/api/src/infrastructure/mongo/repositories/settlement-outbox.ts; Service is
--   apps/api/src/services/settlement-outbox.ts with the pure decisions of
--   apps/api/src/domains/settlement/outbox.ts; Policy is
--   apps/api/src/domains/settlement/policy.ts. Steps has the atomic updates of any number of
--   workers in any order, with what none of them undoes; the other files hold the proofs.
-- - Settlement/Settle: the settlement of a request's usage
--   (apps/api/src/domains/settlement/settle.ts, `settleUsage` and `settleUsageOrOutbox`): Record
--   and Usage are the usage record and the steps of its transaction (with the inserts of
--   apps/api/src/infrastructure/mongo/repositories/usage.ts and customers.ts), Transaction is
--   apps/api/src/infrastructure/mongo/session.ts, Context what the outbox keeps of a request,
--   OrOutbox the settlement with its enqueuing; Facts says what a settlement should write, and
--   the other files hold the proofs.
-- - Settlement/Reconcile: the late settlement of a row of the outbox
--   (apps/api/src/services/settlement-reconcile.ts): Thaw reads the row and its context back
--   (Fields the single values, Entries the model and the entry), Worker works off a row and a
--   batch; the other files hold the proofs.
-- - Billing/Balance: a customer's prepaid money under its old and new keys
--   (apps/api/src/infrastructure/mongo/balance-paths.ts) and the four atomic operations on it
--   (Repo, from apps/api/src/infrastructure/mongo/repositories/customers.ts), with the decisions
--   of apps/api/src/domains/billing/reservation.ts. Calls makes a value of each operation, so
--   that any interleaving of requests is a list of calls.
-- - Billing/Charges and Billing/Estimate: the price of a request's usage and the estimate that
--   is held before it is sent (apps/api/src/domains/billing/charges.ts and estimate.ts).
-- - Limits: rolling rate limits (apps/api/src/lib/rate-limits.ts). Streams is which rules are in
--   force, with packages/contracts/src/rate-limits.ts; Counters is the store of
--   apps/api/src/infrastructure/mongo/repositories/usage.ts; Writes coalesces the writes of a
--   request; Reserve is admission and Settle what follows the request; Wire is the form in which
--   the outbox carries a reservation; InMemory is a store of counters that meets the laws of the
--   interface; the other files hold the proofs.
-- - Providers/ProviderUsage: the token usage that an upstream provider reports, of OpenAI or of
--   Anthropic, in one answer or in the fragments of a stream
--   (apps/api/src/providers/provider-usage.ts).
-- - Money: amounts in micros as text of major units and back
--   (packages/contracts/src/money-micros.ts). The text of a safe integer has at most sixteen
--   digits, which is the fuel of its loop.
--
-- How they interact: before a provider is called, Billing/Estimate bounds the spend,
-- Limits/Reserve claims the estimate in the counters and Billing/Balance/Repo holds it on the
-- balance; after the call Providers/ProviderUsage says what the provider reported, and
-- Settlement/Settle prices it by Billing/Charges and, in one transaction, writes the usage record
-- under the request's gateway id and moves by Billing/Balance/Repo and Limits/Settle what was held
-- to what was used. A settlement that fails, or a usage that the provider did not report, is
-- enqueued in Settlement/Outbox with the terms of the request frozen in its context, and
-- Settlement/Reconcile settles such a row later by the same code at those terms. Billing/Workflow
-- composes the steps before the call (apps/api/src/domains/billing/workflow.ts): it takes the
-- answers of the models and plans repositories and how database operations end as arguments (an
-- update of the balance can be applied although its answer is lost), and leaves out the dry run
-- and the injected rules and snapshot of the tests.
--
-- The transaction of a settlement is all or nothing, as MongoDB documents it: its commit is
-- acknowledged, aborted, or applied without an acknowledgement, which the caller of the model
-- chooses. The transaction is taken to read the state on which it commits: counters of other
-- buckets that others write in between are not modelled here, as they are for the reservation of
-- limits. The look-up of a request's record before the transaction sees a state of its own, since
-- other workers may write in between. A context holds the values that the settlement writes into
-- it, or others that a reader may find there. SHA-256, the text of object ids and the text of
-- dates are parameters (Platform), and what the models, plans and providers repositories answer,
-- minted ids and the clock are arguments.
--
-- Money is exact: balances are integers in micros, token counts and rates natural numbers, and the
-- products that the source computes in doubles, exact below 2 ^ 53, are exact here. A balance's
-- `$divide` and `$floor` is the floor of the exact quotient. Caps of rate limits are whole
-- numbers. How the transaction of each attempt of a reservation of limits ends is an argument: a
-- conflict, a failure, or a commit, with the snapshot that it read and the state on which it
-- commits, which differ where others wrote other documents in between, as MongoDB's snapshot
-- isolation allows; the loop of attempts has the source's bound of eight, and runs out only after
-- eight conflicts.
--
-- Object ids and times in milliseconds are numbers, and `new Date()` is an argument of the
-- operation that reads the clock. A document that does not pass its schema is a refusal of the
-- operation; one that is enqueued has the keys of its optional fields even where a value is
-- undefined, and is then refused; other failures of the database are arguments in
-- Billing/Workflow, ends of a commit in Settlement/Settle and outcomes of an attempt in
-- Limits/Reserve, and are not modelled elsewhere: in a run of steps they are steps that do not
-- happen. Not modelled: logging, defects, the failure of a single operation inside a settlement
-- other than those that the source names (they abort the transaction), the selection of a provider
-- and the requests to it, identity and keys, the administration of organizations, customers,
-- models and plans, the HTTP layer and the admin panel.
mod Prelude
pub mod Mongo
pub mod Settlement
pub mod Billing
pub mod Limits
pub mod Providers
pub mod Money
