-- ===== src/Lib.antt =====
-- FinStack: a model of the backend's money core and of the request guards around it, with the
-- theorems that make them correct.
--
-- The parts. All money is in a double-entry ledger: three tables whose integrity the database itself
-- guards by triggers, and a service through which every other module posts. A wallet has three accounts of
-- that ledger, and its service turns each movement into a posting. Around it stand pure
-- rules (currency conversion, refunds of converted payments, fees), the table of fee rules, the table of
-- transactions, payouts through a provider, the proposals that a person decides on, the velocity limits that are
-- checked in the transaction of an operation, and the guards of requests (idempotency keys and
-- refresh tokens). A posting is checked by the rules, then by the service under row locks, then by
-- the triggers at each statement, and last by the deferred trigger at COMMIT.
--
-- Files.
-- - Base, Money: shared lists, integers, texts, the results and actions that stand for async methods
--   which may throw; src/common/money/currency.ts.
-- - Ledger/Types, Ledger/Posting: src/ledger/ledger.types.ts, the entities and posting.ts
--   (validatePosting, entriesFingerprint).
-- - Ledger/Store, Ledger/Statements: the tables with the triggers of
--   src/database/migrations/1790267201855-AddLedgerIntegrityTriggers.ts; a Statement is an
--   INSERT, an UPDATE of an account, or an UPDATE or DELETE of a transaction or an entry, by any
--   client; a transaction is a batch that commits or is rolled back (finish). DELETE and TRUNCATE of
--   accounts are no statements of the model.
-- - Ledger/Service, Ledger/PostWithin, Ledger/Post: src/ledger/ledger.service.ts, with post_within for
--   postWithin, post and reverse for the methods of these names, trial_balance and
--   find_balance_discrepancies for the queries.
-- - Ledger/Consistency to Ledger/ReversedOnce: the invariants and the behaviour of the above.
-- - Fx: src/fx/fx-math.ts. Refunds: src/refunds/refund-math.ts. Fees/Schedule: src/fees/fee-math.ts.
--   Fees/Rules: src/fees/fees.service.ts on fee-rule.entity.ts; Active, InForce, Changes and Reached
--   are its proofs.
-- - Limits: src/limits/limits.service.ts with usageWithin of
--   src/transactions/transactions.service.ts. Transactions/Status:
--   src/transactions/transaction.types.ts. Transactions/Table: transactions.service.ts with
--   transaction.entity.ts and the trigger of
--   src/database/migrations/1790274459925-AddTransactionStatusTransitions.ts; History and Changed are
--   its proofs.
-- - Payouts/Desk, Payouts/Settle, Payouts/Submit: src/payouts/payouts.service.ts, on a Desk of the bank,
--   the transactions, the payouts and the outbox. The answers of the provider
--   (src/payment-providers/payment-provider.ts) are an argument of submit. Claims, Gentle, Replies,
--   Once and Settled are its proofs.
-- - Proposals/Board: src/proposals/proposals.service.ts on action-proposal.entity.ts. The end of
--   payouts.request is an argument of approve. Decided is its proof.
-- - Idempotency: src/idempotency/idempotency.service.ts.
--   Auth/Tokens: src/auth/tokens/refresh-token.service.ts; Reuse, Spent, Stays and Replayed are its
--   proofs.
-- - Wallets/Wallet, Wallets/Access, Wallets/Movements, Wallets/Manage, Ledger/SystemAccounts, Owners:
--   src/wallets/wallets.service.ts with wallet.entity.ts, src/ledger/system-accounts.ts and
--   src/common/owner/owner.ts. A Bank is the ledger with the table of wallets; the methods keep
--   their names (deposit_within for depositWithin), and insert_wallet, save_wallet and create are
--   the steps of create. Wallets/Spec says what a movement does to balances without accounts;
--   the other files of Wallets relate the two.
-- - Organizations: src/organizations/organization-permissions.ts.
-- - Tests: runs on concrete data.
--
-- Conventions. The bigint of the source is an integer (Base/Int) where a sign can occur, and a number
-- where a guard or a column constraint has excluded it. A uuid is a number, and its canonical text is
-- given by an instance (Uuids) of which only injectivity is used. Ids and times that the database
-- generates come from counters in the state. A method that may throw is a function of the state into
-- a result and a state. Writes are taken back by finish, transaction and in_transaction, and set_rule
-- of the fees writes nothing where it throws. The hash of tokens is a parameter. A transaction of
-- the wallets (transaction) or the payouts (in_transaction) is taken back as a whole where it throws or
-- where the deferred trigger refuses its commit, with a system account that was opened in it; the
-- source opens that on a connection of its own, so that the row, whose balance is zero, would stay.
--
-- Bounds. Two definitions run on fuel: the loop of begin, which the source bounds to two attempts, and
-- show_digits, which writes a number in decimal and is given one more unit than the number, which has
-- no more digits than that. Every other loop is a recursion over a list.
--
-- Not modelled: HTTP, TypeORM, the queues, the payment providers, logging and audit records (but for
-- the reuse events of tokens), and so far the services that post to the ledger (payments,
-- refunds, the request of a payout, fx quotes, and the wallet movements that convert). Concurrency
-- appears as the sequences of statements that Ledger/Statements allows, and as the clashes on unique
-- indexes that post handles.
pub mod Base
pub mod Money
pub mod Ledger
pub mod Fx
pub mod Refunds
pub mod Fees
pub mod Idempotency
pub mod Auth
pub mod Transactions
pub mod Limits
pub mod Owners
pub mod Wallets
pub mod Tests
pub mod Organizations
pub mod Payouts
pub mod Proposals
