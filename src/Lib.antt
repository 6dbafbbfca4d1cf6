-- ===== src/Lib.antt =====
-- The banking core of go-odtbank.
--
-- An account is a stream of events, and its balances are a fold over that stream. The store keeps
-- the streams, with snapshots, customers, sessions, transfers, reservations, postings, compliance
-- decisions and the requests of administrators; services call the store; a worker carries each
-- accepted transfer through a saga of five steps, with compensation when a step fails.
--
-- Which file models what (paths of the repository, then modules):
--   internal/domain/events.go, account.go: Domain.Event, Domain.Account
--     (ReplayAccountFrom is replay_account_from, fold is fold)
--   internal/domain/money.go: Domain.Money (ParseMoney is parse_money, String is money_text)
--   internal/domain/transfer.go, adjustment.go, onboarding.go, review.go, auth.go: Domain.Transfer,
--     Domain.Adjustment, Domain.Customer; the errors of all packages: Domain.Error
--   internal/eventstore/memory_store.go: Store (the state), Store.Events, Store.Transfers,
--     Store.Execution, Store.Adjustments, Store.Customers (the methods, under their names in
--     snake_case); Store.Steps.Calls has one step for each call of a method, and Store.Steps the states
--     of the store and of the reads in flight that such steps reach
--   internal/eventstore/postgres_store.go: Postgres (the tables, calls and transactions),
--     Postgres.Json (the payloads), Postgres.Events, Postgres.Transfers, Postgres.Holds (the
--     transactions on accounts), Postgres.Execution (ExecuteTransfer), Postgres.Adjustments,
--     Postgres.Customers, Postgres.Sessions, Postgres.Reviews; Postgres.Represents says when tables
--     hold what a memory store holds
--   internal/repository/memory_repo.go: Repository
--   internal/policy/policies.go: Policy
--   internal/service/transfer_service.go: Service.Transfer (Process is process, with one function for
--     each of its cases; ProcessDue is process_due)
--   internal/service/deposit_service.go, withdraw_service.go: Service.Cash
--   internal/service/adjustment_service.go, review_service.go: Service.Adjustment, Service.Review
--   internal/service/auth_service.go: Service.Auth, with the hash of a token, the check of a password
--     and strings.ToLower as arguments
--   internal/service/onboarding_service.go: Service.Onboarding
--   internal/httpapi/router.go: Http, for statusForError alone
-- Base holds tests on numbers, lists, Go's int64 and its wrap-around, texts, and the map as an
-- association list with insert, lookup and erase. Tests holds runs on concrete data.
--
-- How the code is read. Every method of the memory store holds its mutex throughout, so it is one
-- function from the store to a result and a store, and an interleaving of requests is a sequence of
-- such steps. A FindByID of the repository makes three calls; Repository has it in one step and as
-- those three, and in Store.Steps any other steps may come between them. Deposit, and the withdrawal
-- that loads and appends, take what happens between their calls as an argument. The other services
-- that call the store more than once, such as Process, Login and ProcessDue, are modelled with nothing
-- in between: their theorems are about a call that no other request interrupts. The approval of an
-- adjustment is made on a copy of the streams, which is dropped on an error; the source writes in
-- place, but its one test that can fail comes before the first write. Errors are values. Amounts
-- are integers of 64 bits, and every sum, difference and product wraps as Go's does. An instant is a
-- number of nanoseconds; the readings of the clock, the random bytes and the compliance checker are
-- arguments. A text is its list of code points, and byte_length counts its UTF-8 bytes, so texts that
-- are not valid UTF-8 are left out. Statuses that only the program writes are data types; texts that a
-- client sends stay texts. Go visits a map in no fixed order; here the order of insertion stands for
-- it, so where a listing is sorted by time, entries with the same time come in that order.
--
-- Of the Postgres store, a statement is a function on the tables that gives its result or its error,
-- with the keys, checks and references of migrations; the rest of SQL is not modelled. A call of the
-- database may also fail for a reason of its own, with the statement or commit not carried out, or
-- carried out and only its answer lost: which calls do so is an argument. A transaction runs in one
-- step, since it locks its accounts, or the row that it reviews, before it reads them; a method that
-- makes several calls outside a transaction is the sequence of them, with nothing in between. The
-- JSON library is the members of an object in their order, and the collation of the database is an
-- argument.
--
-- No function runs on fuel but the printing of a number, which is given the number itself, and one
-- round takes off one digit.
--
-- Not modelled: of internal/eventstore/postgres_store.go, NewPostgresStore, Close and the timeouts,
-- which are faults like others; the rest of internal/httpapi/router.go, decoding and routing;
-- internal/objectstore and internal/eventbus, which call other libraries and start goroutines; cmd,
-- migrations and web; the loop Run of the transfer service, which calls ProcessDue on a timer; the
-- functions of internal/service/password.go, which the services take as an argument.
pub mod Base
pub mod Domain
pub mod Store
pub mod Policy
pub mod Service
pub mod Repository
pub mod Http
pub mod Postgres
pub mod Tests
