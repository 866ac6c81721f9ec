-- ===== src/Lib.antt =====
-- The order matching, the custody, the accounts and the wallet requests of an exchange's backend (NestJS
-- with TypeORM over MySQL).
--
-- The program's parts, and the files that model them:
--   * Base: names of the libraries, lists, integers, and in Base/Action the asynchronous methods: an
--     action changes a state and ends in a result or an exception, and what was written before an
--     exception stays written.
--   * Repository: a TypeORM repository over a table (`find`, `save`, `update`, `increment`). The library
--     and the server are not part of the repository, so it is a record of operations, which the
--     definitions take as a parameter. `IsLawful` states what their documentation promises: a call that
--     is rejected writes nothing, `find` gives the rows of the condition in order up to the limit, `save`
--     inserts under a fresh key. `IsReliable` says that no call is rejected, and `IsUnregistered` that
--     every `save` is. Repository/Memory is a repository over a list that satisfies these. A condition on
--     `undefined` is dropped by `find`, but met by no row in `update`, `increment` and `decrement`.
--   * OrderBook: limit and market orders. Entity and Database model the entities and methods in
--     src/database (order_book, trade, database.service.ts); Broadcast, Matching and Service model
--     src/order-book/order-book.service.ts: `emitSocketData` is `emit_socket_data`, `matchBuyOrder` is
--     `match_buy_order`, and so on, `handleOrder` is `handle_order`; Controller models
--     src/order-book/order-book.controller.ts and Gateway `listenForOrder` of src/socket/socket.gateway.ts.
--     The four matching routines of the source are one text with different terms (the side of the
--     book, the condition that stops, the price of the trade and its two users, the fields that are
--     updated); so there is one loop, `match_loop`, over the record `Terms`, and a value of `Terms` for
--     each routine. Frames, Executions, Steps, Settlement, Routines, Untraded, Success, Totality,
--     Guarantees, Trader, BookOrder and Answers hold the proofs: Executions is the specification, the list of
--     trades that an order and a book give, by which the loop is judged.
--   * Custody: wallets, withdrawals and deposits. Entity and Database model the entities and methods in
--     src/database; Consumers models src/web3/deposit.consumer.ts and src/web3/withdrawal.consumer.ts;
--     Queue models src/web3/queue.provider.ts, src/cron/cron.service.ts and the webhooks of
--     src/app.controller.ts. Frames, Balances and Dispatch hold the proofs.
--   * Accounts: users. Entity and Database model the entity and methods on users in src/database, Service
--     src/auth/auth.service.ts, Controller src/auth/auth.controller.ts with the two strategies in src/auth
--     (jwtStrategy.ts, jwtRefreshStrategy.ts), and Requests the requests one after another: `signUp` of the
--     controller is `register`, `signIn` is `sign_in`, and so on. Lookups, Invariant, Emails, Uniqueness,
--     Credentials, Registration, Passwords, Sessions, Holding and TwoFactor hold the proofs.
--   * WalletController: src/wallet/wallet.controller.ts, over the vault of Custody and the libraries of
--     the chains, which are the parameter `Chain`. Transfers models the seven routines that send coins
--     (`transferETH` is `transfer_eth`), Requests `getAddress`, `withdrawal` and `deposit`, and Admin the
--     requests of the administrator. Frames, Hashes, Recording, Withdrawals, Debits, Deposits, Unregistered
--     and Addresses hold the proofs: Frames and Hashes say of each transfer what it leaves and what it gives.
--   * Web3: Service models src/web3/web3.service.ts over the parameter `Web3`, which is the library and the
--     scanner, and the jobs of the two consumers composed with it. What `findTransactionForDeposit`
--     assigns in its asynchronous callbacks comes after its `return`. Frames, Receipts and Jobs hold the
--     proofs.
--   * OrderBook, Custody and Accounts keep their rows in repositories of their own state, `World`, `Vault`
--     and `Accounts`; they share no table. The `Desk` of WalletController is a vault, the table of fees and
--     the state of the chains. Examples in each holds the theorems at concrete rows.
--
-- In the proofs, Base/Keeping, Base/Following and Base/Preserving are rules on actions, those of Keeping in
-- rulesets for `search`: what an action leaves as it is and what it gives, what it makes of a part of the
-- state, and which invariants it keeps. Base/Distinct has lists without repetitions, for the columns
-- that are to be unique, and Base/Chosen says which rows a query finds.
--
-- Conventions. Amounts and prices are natural numbers in units of 10^-8, the scale of the columns, and a
-- trade's volume is in units of 10^-16; the binary rounding of JavaScript's numbers, sizes that are
-- negative or no number, and MySQL's rounding and collation are not modelled. Balances may be negative and
-- are integers. Dates are milliseconds. JSON texts that are stored or sent are records. A row that was
-- never saved has id 0. The clock, the format of numbers and Bull's answer to a new job are parameters.
-- Requests and the entries of a job are handled one after the other: interleavings are not modelled.
-- A promise that is not awaited runs at once and its end is not seen. Every loop runs over a list that
-- was read before it, so it is a structural recursion, and there is no fuel.
--
-- Hashes, tokens, one-time codes and the new keys of wallets are parameters, with what the libraries promise
-- of them as hypotheses where a theorem relies on it. A call of a chain's library gives `none` where it
-- throws or is rejected. The connection that src/app.module.ts sets up lacks the entity `ErrorSave`, so there
-- each call of `save_error` is rejected; the definitions take a repository of errors that may reject or not.
-- An amount in a request is the text that JavaScript's `+` makes of it.
--
-- Not modelled: the Binance requests and the methods of src/database/database.service.ts on SQL texts and
-- identities and the upload of documents, since they are calls of libraries and servers; of
-- src/wallet/wallet.controller.ts `getBalance`, the confirmations of a bitcoin transaction and two methods
-- that nothing calls; the rest is wiring of the framework.
pub mod Base
pub mod Repository
pub mod OrderBook
pub mod Custody
pub mod Accounts
pub mod WalletController
pub mod Web3
