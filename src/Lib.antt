-- ===== src/Lib.antt =====
-- A verification library for the AEO/GEO optimisation service. It covers which questions a measuring
-- cycle asks of which models (src/sampling), what a run may spend (src/cost/budget.ts and
-- qgenBudget.ts), the gates of a judge's verdict (src/guardrails), how a cycle runs its units of work
-- and stores what they give (src/pipeline, with src/cost and its queries in src/db/repo.ts), how
-- content is published off-site under approval, disclosure and rate limits (src/deploy, with its
-- queries in src/db/repo.ts), the invoices of a period (src/billing), the generation of content for
-- many languages (src/content), and the chain of audit events (src/security). The dispatch claims
-- rows of the deploy queue and enqueues a publish job for each, and the publish job claims a slot of
-- the registry before it calls a connector. The cycle asks the planner for its units and the budget
-- for leave, and its units pass the budget guard and the gates.
--
-- Domain: src/domain/types.ts, the types the planner reads. US dollars are counted in
--   micro-dollars and language weights in thousandths.
-- Sampling/Density, Sampling/Rotation, Sampling/Languages: src/sampling/density.ts, rotation.ts
--   and languageWeight.ts. `pick_slice` is `pickSlice`, `is_rotation_due` is `isRotationDue`, and
--   so on: a function keeps the source's name in snake case.
-- Sampling/Plan: `buildPlan` of src/sampling/plan.ts. It chooses languages and models, finds the
--   tiers that are due, lists a unit of work per question, model, language and sample, and returns
--   the rotation states of the next cycle. The hash, the normalisation of text and the order of
--   texts are the fields of `Runtime`.
-- Deploy/Throttle: `canPublishNow` and the windows of src/deploy/throttle.ts. A moment is its
--   number of milliseconds since 1970-01-01.
-- Deploy/Rules: src/deploy/eligibility.ts and disclosureGate.ts.
-- Deploy/Queue: `claimNextDeployBatchForCustomer` of src/db/repo.ts, one transaction as one
--   function from the queue and the counters to the claimed rows and the new tables.
-- Deploy/Publish: the job `publishUnit` of src/deploy/publishUnit.ts (Publish/Unit) over the
--   registry of published URLs (Publish/Store). A `World` holds the tables, the calls made of
--   connectors, the jobs enqueued and which of the next queries fail. The connectors and the parser
--   of URLs are the fields of `Deps`.
-- Deploy/Dispatch: the job `handlePublishDispatch` of src/deploy/dispatch.ts, which claims the rows
--   of each ready channel and customer and enqueues a publish job for each. The state is a `Board`:
--   the tables, the jobs and which of the next queries fail.
-- Deploy/Verify: the job `handlePublishVerify` of src/deploy/verifyIndexing.ts, which asks a connector
--   whether a published URL is indexed. The connectors are the fields of `Connectors`.
-- Security/Chain: `verifyChain` and `detectTruncation` of src/security/auditChainVerify.ts. SHA-256
--   and the text of a number are the fields of `Platform`.
-- Cost/Budget: the guards and estimates of src/cost/budget.ts. The spending is read through
--   `CostReadPort`, and amounts are micro-dollars.
-- Cost/Qgen: `QgenRunBudget` of src/cost/qgenBudget.ts, the budget of one generation run.
-- Content/Multilingual: `generateMultilingualContent` of src/content/multilingualContent.ts, the loop
--   over the languages of a matrix under that budget. The generation for one language is a parameter.
-- Guardrails: `runGates` of src/guardrails/gate.ts and the gate of evidenceRequiredGate.ts. A gate
--   returns the context that it changed with its result.
-- Pipeline/Store: the tables of a run with the queries of src/db/repo.ts that it makes, the ledger of
--   src/cost/ledger.ts and the cache of src/cost/cache.ts. An operation is a function from the tables to a
--   result, which may be an exception, and the tables after it; any query may fail, as `faults` says, and
--   what was written before stays. The set of seen hashes is that of the cache a cycle in one process shares; in
--   the worker, whose handler is not modelled, each job makes a cache of its own.
-- Pipeline/Response: `runResponse` of src/pipeline/runResponse.ts, one unit of work: budget guard,
--   cache, provider, stored answer, ledger, judge, gates, stored judgment, status.
-- Pipeline/Loop and Pipeline/Cycle: `runCycle` of src/pipeline/runCycle.ts, which plans a run or goes on
--   with one, and runs its units in a loop (Pipeline/Loop) or leaves them as jobs.
-- Pipeline/Aggregate: `runCycleAggregate` of src/pipeline/runCycle.ts. What other jobs do while it
--   waits is a list of changes, one for each sleep before the deadline.
-- Billing/Pricing: `priceForScope` and the amounts of src/billing/pricing.ts, in whole won.
-- Billing/Close: `closeBillingPeriod` of src/billing/close.ts and the loop over customers of
--   `runMonthlyClose`, over `insertInvoice` and `insertInvoiceLine` of src/db/repo.ts. The scope, the
--   usage and the dates of the period are fields of the input.
-- Common: lists, stable sorting, ordered maps, and tests on numbers and texts.
--
-- All functions are total and none needs fuel. Numbers are natural ones, and a subtraction that may
-- pass below 0 is written out where the source does it. Not modelled: logging, HTTP, SQL beyond what
-- the queries named here do, the model providers and the scrapers (parameters of the pipeline), the
-- hook for native reviews, the text of error messages,
-- and the components that judge answers, compute metrics and generate the content of one language.

pub mod Common
pub mod Domain
pub mod Billing
pub mod Content
pub mod Cost
pub mod Deploy
pub mod Guardrails
pub mod Pipeline
pub mod Sampling
pub mod Security
