-- ===== src/Lib.antt =====
-- The protocol core of the payment stand: the merchant side, which a payment provider calls with
-- JSON-RPC, and the Subscribe side, which plays the provider towards an integration.
--
-- The parts, and how they meet. Every path below is under internal/context/payment of the
-- repository, unless it starts with kernel, which is under internal, or with internal, cmd or
-- migrations.
--
-- Base: what the other files share. Go's int64 is an integer with its wrap-around written out
-- (Base/Int64), a string is a list of bytes (Base/Text; texts that are only carried stay String
-- literals), and a map is an association list (Base/Dict).
-- Kernel: kernel/errors, the codes and the catalog (Kernel/Errors), and the effects of a call
-- (Kernel/Effect). A method is a function from the state of the world behind its ports to a
-- result and the next state, so what was written before an error stays written, as in the code,
-- which opens no database transaction itself.
-- Billing: billing/domain, orders and payers (billing.go) and the register's kind and balance
-- (cashbox.go: Apply, Usable, Reverse).
-- Merchant: merchant/domain and merchant/application. Merchant/Transaction is the aggregate of
-- transaction.go (Perform, Cancel, Expired); Merchant/Ports are the repositories, the clock and
-- strconv as an interface; Merchant/Orders is resolveOrder and what it calls, Merchant/Register
-- is settle, unsettle and updateOrder, and Merchant/Service, Create, Perform and Cancel are the
-- six methods of service.go.
-- Subscribe: subscribe/domain and subscribe/application. Subscribe/Card, Outcome and Receipt are
-- card.go, outcome.go and receipt.go; Subscribe/Ports is the interface to the repositories, the
-- merchant, the scheduler, the SMS sender, the register's ledger and the clock; Subscribe/View,
-- Cards, Receipts and Payouts are the methods of service.go.
-- Subscribe/Inmem: subscribe/infrastructure/inmem/inmem.go, an implementation of that interface:
-- the cards and receipts in Subscribe/Inmem, the rest and the wiring in Subscribe/Inmem/Wiring,
-- the identifiers in Subscribe/Inmem/Ids.
-- Subscribe/Client: subscribe/infrastructure/merchantclient.go, the client that the Subscribe
-- side calls a merchant with; Subscribe/Client/InProcess and Payment join it to the endpoint of
-- Merchant/Http.
-- Kernel/JsonRpc, Kernel/Http: kernel/jsonrpc, and kernel/httpx over a small model of net/http in
-- which a request's body is a stream that a reader uses up: Kernel/Http is body.go, Auth,
-- Allowlist, Faults, Idempotency and Capture are auth.go, allowlist.go, fault.go, idempotency.go
-- and the captureWriter of logging.go. Kernel/Base64 is the library's encoding.
-- Merchant/Http, Subscribe/Http: the handlers of merchant/interfaces/http and
-- subscribe/interfaces/http, which authorize a call, decode it and pass it to the methods.
-- Simulation: internal/context/simulation. Simulation/Fault is fault/domain/rule.go and
-- Simulation/Fault/Engine engine.go, which decides what happens to a call; Simulation/Access is
-- access/domain/allowlist.go. The middleware of Kernel/Http calls both. Simulation/Config is
-- config/domain/profile.go and, in Seeds, seed.go; Simulation/Sandbox is
-- sandbox/domain/sandbox.go. Kernel/Http/Traffic is the record of a call of logging.go, into
-- traffic/domain/entry.go's entry.
-- Programs: cmd/merchant and cmd/paymemock. Programs/Stack is the layers of their middleware.go,
-- Programs/Resolve the choice of the stand of their sandbox.go, Programs/Handlers the cache of
-- cmd/merchant/handler.go, and Programs/Stands that of cmd/paymemock/handler.go with the
-- scheduler of subscribe/infrastructure/support.go.
-- Checkout: checkout/domain. Checkout is receipt.go, Checkout/Parse parse.go and Checkout/Fiscal
-- detail.go.
-- Postgres: kernel/postgres/postgres.go (WithTx) and the schema merchant of
-- migrations/00001_schema.sql as lists of rows, with the constraints that a statement can fail
-- of. Postgres/Accounts and Orders are billing/infrastructure/billing.go, Postgres/Ledger is
-- ledger.go beside it, and Postgres/Transactions merchant/infrastructure/transactions.go and
-- events.go: one function for each statement, which reads and writes the tables. Postgres/History
-- holds what is proved of the balances. Postgres/Mock is the schema mock: Postgres/Mock/Cards and
-- Tokenizing are subscribe/infrastructure/cards.go, its queries and its writes, and
-- Postgres/Mock/Receipts is receipts.go. Postgres/Calls is kernel/postgres/calls.go, the store of
-- answered calls, and Postgres/Wiring the merchant's ports over the repositories, as cmd/merchant
-- constructs them.
-- Console: cmd/console. Console/Paging is paging.go, the pager of the lists, Console/Format
-- format.go, the figures, Console/Session session.go, the logins, and Console/Curl curlof.go, the
-- command that repeats a recorded call. The other child modules (Laws, Repeat, Refund, Money,
-- Walk and so on) hold the theorems on the part they stand under.
-- Tests: a merchant's stand in the database, small tables, fault rules, calls over HTTP, a
-- checkout link and a list of the console, and the theorems at concrete values.
--
-- A method takes its ports as a parameter. Merchant/Laws and Subscribe/Laws name what a theorem
-- relies on of them: a row is found again as it was stored, and a write to one table leaves the
-- others alone. Postgres/Wiring, the repositories over the tables, and Subscribe/Inmem/Laws give
-- ports that keep these laws. A column keeps sixteen bits of a reason, which the laws leave open.
--
-- Libraries. encoding/json, net/url and a jsonb column on the way back, path.Match, net/netip,
-- SHA-256 and float64 are arguments; encoding/base64, strconv and the functions of package
-- strings are modelled (Base/Strings, Base/Decimal, Kernel/Base64), white space and case folding
-- for ASCII.
--
-- Bounds and termination. All loops of the modelled code run over lists and are structural. The
-- digits of a number take fuel: twenty, where an int64 has at most nineteen. Identifiers, amounts
-- and times are int64, and `+` and `-` on them wrap round.
--
-- Simplifications. A type that is a Go int or string with named constants is a data type with one
-- constructor for each and one that carries any other value. Pointers to loaded records are
-- values, since each method loads its own. JSON objects that are stored and handed back unread
-- are their encoding. Contexts and locks are left out: calls run one after another. The order of
-- a Go map is that of insertion where ByNumber of inmem.go ranges over one; sort.Strings is a
-- port.
--
-- Not modelled: the PostgreSQL repositories of the simulation; foreign keys, which no modelled
-- statement breaks, lost connections and statements of two calls that interleave; the log lines;
-- the screens of the console, which are templates over queries of the database; and the main
-- functions of the command-line programs, which construct the parts.
pub mod Base
pub mod Kernel
pub mod Billing
pub mod Merchant
pub mod Subscribe
pub mod Simulation
pub mod Checkout
pub mod Programs
pub mod Console
pub mod Postgres
pub mod Tests
