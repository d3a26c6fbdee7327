-- ===== src/Lib.antt =====
-- Verification of the Tasker API, the backend of a marketplace where customers post tasks and
-- providers are dispatched to them, paid through a payment provider.
--
-- The parts and how they interact. The dispatch offers a task to providers by pings, session after
-- session, until one accepts or the automatic retries are spent; a decline lowers the provider's
-- credibility. A finished task is paid in cash, which leaves its provider in debt for the platform's
-- fee, or online; the payout of an online payment, less the provider's debt, becomes a transfer, a
-- durable state machine that Celery workers drive against the payment provider, with retries and a
-- reconciliation.
--
-- The files.
--   Prelude, Prelude/*   names of the standard library, tests, lists and integers over the native
--                        numbers.
--   Models, Models/*     the rows and enumerations of app/core/models/. A record has the columns
--                        that the modelled services read or write; a row's id is its key.
--   Table, Table/*       app/core/repository.py and the single SQL statements of the services, on a
--                        table as an association list, with the laws of reads after writes.
--   Db, Db/Exec          the state that the services share, and the monad of a method: it reads and
--                        writes the state, and returns or raises.
--   Transfers, Transfers/*  app/features/payments/transfer_service.py, one function for each method
--                        (`create_transfer`, `process_transfer`, `reconcile_transfer`, ...), the
--                        transfer calls of app/core/services/payment.py (Transfers/Gateway) and the
--                        tasks of app/features/payments/celery/transfer_tasks.py (Transfers/Celery).
--                        Transfers/Outcome has the abstract view: the row as a function of the
--                        provider's answer. Transfers/History has the steps and their histories.
--   Credibility          `CredibilityService.add` of app/features/credibility/credibility_service.py.
--   Dispatch, Dispatch/* app/features/tasks/dispatch_service.py, one function for each method, and
--                        app/core/services/dispatch_policy.py (Dispatch/Policy). Dispatch/Retries and
--                        Dispatch/Redispatch are about the retries, Dispatch/Ping/* about the answers
--                        to pings. Dispatch/Matching/* is app/core/services/matching_engine.py (the
--                        search and the scores in Dispatch/Matching, `CandidatePinger` in Pinger, `run`
--                        in Engine), with the Celery tasks of app/features/tasks/celery/dispatch.py in
--                        Engine and Dispatch/Due.
--   Payments, Payments/*  app/features/payments/payment_service.py: the settlement of a finished task
--                        (Payments/Settlement), the payout of its provider (Payments/Payout) and the
--                        provider's debt as the sum of a ledger (Payments/Ledger); the operations
--                        that users ask for are in Payments/Settlements. Payments/Charges/*
--                        is `PaymentWebhookProcessor` and Payments/Confirmations/* is
--                        `TransferWebhookProcessor` of app/features/payments/processors.py.
--   Tasks, Tasks/*       app/features/tasks/task_service.py: drafts, the cancellation of a task, price
--                        adjustments (Tasks/Adjustments), and the update and the deletion of a task
--                        and the start of its payment (Tasks/Edits). Tasks/Completion is the work
--                        itself: the start and the end of a task in
--                        app/features/tasks/router/assignments.py, and the worker of
--                        app/features/tasks/celery/completion.py.
--   Pricing, Pricing/*   app/features/services/pricing_engine.py: the upfront price of a task.
--   Otp, Otp/*           app/core/services/otp.py: one-time passwords and their limits.
--
-- How the code is modelled. A method is a function of its arguments, of `Env` (the clock, random
-- numbers, new ids and PINs of the call) and of the state `Db`; all readings of the clock within
-- a call give the same time. Times are microseconds, money whole kobo in ℤ: the columns are
-- floats of naira, and neither their rounding errors nor amounts with a part of a kobo are
-- modelled, so that a `round(..., 2)` of whole kobo does nothing; ids the 128-bit numbers of the
-- uuids. Each write is in the state at once, and an exception keeps the writes before it. Most
-- writes are committed at once (`Repository.add`, `DispatchService._save`). A single UPDATE that
-- a handler of a request leaves open is committed by the request's next commit, at the latest by
-- `LoggerService.flush`: `get_logger_service` calls it at the end of the request, also after an
-- exception, with the session of the request, and `bulk_add` commits the entries that the routes
-- log on every path. (In the local environment nothing is logged, and such an UPDATE is lost; so
-- it is if another request flushes the shared buffer in between.) A row is written whole. Texts
-- are lists of pieces (Models/Pieces). The engine's own session alone commits late, so that its
-- model has two databases. What PostGIS and the join of the users' tables give a search is a
-- parameter, as is the database's comparison of two references. Notifications, Celery jobs and
-- calls of the payment provider are appended to lists of the state; the answers of the provider
-- are parameters. Log lines are left out. The retry delay needs no bound on the number of
-- attempts; no definition runs on fuel.
--
-- Not modelled: the HTTP routes but for those of Tasks/Completion, sign-in, support, vetting,
-- reviews, the creation of tasks, the delivery of notifications and the administration; what Celery,
-- PostgreSQL and the payment provider do inside; two calls that interleave, but for Transfers/Stale.
pub mod Prelude
pub mod Models
pub mod Table
pub mod Db
pub mod Transfers
pub mod Credibility
pub mod Dispatch
pub mod Payments
pub mod Pricing
pub mod Otp
pub mod Tasks
