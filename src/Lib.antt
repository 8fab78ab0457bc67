-- ===== src/Lib.antt =====
-- The Bonde backend: virtual cards, their money and the services around them (NestJS on Prisma).
--
-- The core is the finance module, src/modules/finance. The card issuer asks through a webhook whether a
-- purchase may pass (finance-authorizations.service.ts). The answer rests on the card's rule and its
-- usage (card-policy.ts, finance-policy.service.ts), on the merchant as it was seen
-- (finance-merchants.service.ts), on the retirement of the card (finance-retirement.service.ts) and on
-- what is open for live money (finance-capabilities.service.ts); a purchase that passes is held in a
-- double-entry ledger (ledger.service.ts). Later reports of the issuer and of the bank wait in an inbox
-- and settle, reverse or refund what was held (finance-events.service.ts), and operations that wait for a
-- provider, such as a withdrawal, are carried out by a worker (finance-worker.service.ts). The ledger is
-- what they all share: the relation Steps of Finance/Steps has a step for each of their calls.
--
-- Files, and the code each is about:
--   Common                    NestJS exceptions and handlers that throw (Http), table queries (Table),
--                             integers (Int), strings as lists of character codes (Text)
--   Finance/Types, Amount     src/modules/finance/finance.types.ts, src/common/money/money.ts
--   Finance/Instant           the instants in the rules of a card, as card-policy.ts reads them
--   Finance/Ledger            ledger.service.ts: LedgerService.post; the invariant of its tables is in
--                             Ledger/Accounts, the theorems on a whole call are in Ledger/Journals
--   Finance/CardRules         card-policy.ts: validateRules
--   Finance/CardPolicy        card-policy.ts: policyDecision, budgetAlertTitles
--   Finance/Database          the tables that the services share (prisma/schema.prisma)
--   Finance/Policy            finance-policy.service.ts: FinancePolicy.snapshot; its figures, row by
--                             row, are in Policy/Usage, its deadline and its reason in Policy/Deadline
--   Finance/Merchants         finance-merchants.service.ts: observe, candidate
--   Finance/Retirement        finance-retirement.service.ts: mark, enqueue, ensureDue, lease, release
--   Finance/Retirement/Process  the same: process, which closes a card at its issuer
--   Finance/Capabilities      finance-capabilities.service.ts: assertCurrency
--   Finance/Requests, Checks  finance-authorizations.service.ts: what authorize reads, and its checks
--   Finance/Authorizations    finance-authorizations.service.ts: authorize; what an approval rests on is
--                             in Authorizations/Approval, the ledger in Authorizations/Safety and
--                             Authorizations/Outcome, a retry in Authorizations/Replay
--   Finance/Runtime           what the services take from the runtime and the configuration
--   Finance/Providers         providers.ts: what is read in the answers of the providers
--   Finance/Projections       finance-projections.ts; finance-events.service.ts: project
--   Finance/Operations        what the services below share: rows, postings, transactions that throw
--   Finance/Worker            finance-worker.service.ts: fail and settleSweep; issue and finishIssue are in
--                             Worker/Issue, withdraw, settleWithdrawal and sweep in Worker/Withdrawal,
--                             lifecycle and finishLifecycle in Worker/Lifecycle, process in Worker/Queue,
--                             discover and reconcile in Worker/Reconcile
--   Finance/Events            finance-events.service.ts: receive; bankEvent is in Events/Bank, sudoEvent in
--                             Events/Cards and Events/Transactions, run in Events/Inbox
--                             what a settlement leaves of an authorization is in Events/Limits,
--                             Events/Bounded and Events/Settlements
--   Finance/Kept              the rules by which a handler is shown to keep the ledger sound; the Safety and
--                             Runs files of each service apply them, and Finance/Steps puts them together;
--                             reports that come again are in Steps/Deposits and Steps/Purchases
--   Access/Passcode           src/modules/passcode/passcode.service.ts
--   Access/Otp                src/modules/otp/otp.service.ts: generateCode, consumeCode, invalidate
--   Access/TwoFactor          src/modules/auth/services/two-factor.service.ts
--   Access/Sessions           src/modules/auth/services/auth-sessions.service.ts; runs of its operations are
--                             the relation Steps of Sessions/Revocation
--   Access/Throttler          src/common/throttling/memory-throttler.storage.ts
--   */Tests, Finance/Samples  runs on concrete data
--
-- How the state corresponds: a table is a list of rows, the newest first; a Prisma call is a function
-- on the list; a transaction takes the tables to a result and the tables it leaves, and a throw leaves
-- the old ones; the handlers of Access write outside a transaction, and their models give the rows
-- that they leave also where they throw. Money is counted in hundredths, identifiers are numbers,
-- instants are milliseconds.
-- Each call is one step: the finance code takes a row lock on the user's profile for the length of
-- the transaction; for the other services this leaves out calls that overlap.
--
-- Parameters stand for what the runtime supplies: Date.parse, toUpperCase, the start of a UTC month, the
-- collation of localeCompare, randomUUID, scrypt and SHA-256, and the configuration. No property depends on
-- which order the collation gives, or on new ids being new.
--
-- Fuel: money prints the units of an amount with fuel for twelve digits, which is enough for the
-- amounts that amountOf accepts. The search through a provider's pages counts down the ten pages that the
-- code reads at most. Nothing else runs on fuel.
--
-- The providers are arguments: each handler takes what they answer to its calls, an error included, and
-- the theorems hold for every answer. A handler of several transactions gives the tables that stand and
-- what it threw after them (the type Attempt).
--
-- Not modelled: the network calls themselves, the commands that enqueue an operation
-- (finance.service.ts), the loops of the worker's run, the texts and metadata of the feed and of
-- notifications, and the modules that only read rows for a client.
mod Common
pub mod Finance
pub mod Access
