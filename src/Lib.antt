-- ===== src/Lib.antt =====
-- Verification library of the trading bot: the accounting core of src/.
--
-- The bot keeps one portfolio model, an immutable value that every path replaces as a whole. Amounts
-- are scaled integers (eight decimals) held in bigints, so nothing overflows and no operation rounds
-- but the ones that say so. A strategy proposes a signal, the risk manager turns it into an approved
-- order or a reason, an engine reserves quote for a BUY, submits it, and accounts what the exchange
-- reports by one of three paths, each of which counts a real order once: per execution
-- (applyLiveFill), per manual intent (settleManualOrder), per attested live order
-- (settleLiveOrderAttested).
--
-- Which file models which part:
--   Common          integers with the truncating division of bigint, maps as association lists in
--                   insertion order (Map keeps it, and `set` on a present key keeps its place), and
--                   results: a function that throws returns `err` with the reason, one constructor
--                   for each kind of refusal, and leaves no state behind, since the portfolio that
--                   it worked on was a clone.
--   Money           src/money/Money.ts. Money is the scaled integer. Money/Text has fromString and
--                   toFixed on lists of character codes; a number's digits are printed on fuel one
--                   more than the number, which exceeds how many digits it has.
--   Portfolio/Model, Ids, Equity, Reserve, Ownership, Fill, Settle
--                   src/portfolio/types.ts and src/portfolio/Portfolio.ts, an operation of the class
--                   to a function: a method that returns a new portfolio is a function into
--                   `Result Portfolio`, one that reads is a plain function. Names are the code's in
--                   lower case (applyFill is apply_fill). The two settlement operations share the
--                   code from the reservation check to its release, which stands twice in the
--                   source, as settle_aggregate. A key that an object may lack is an Option.
--                   A UTC day key is the number of the day since the epoch in place of its text.
--                   The time that settleManualOrder reads from the clock is an argument.
--   MarketData      src/marketdata/freshness.ts. Times are integers of milliseconds.
--   Risk            src/risk/RiskManager.ts and the types beside it. The fractions of a configuration
--                   are doubles, of which the manager uses comparisons with 0 and 1, 1 - f and a
--                   rounded number of billionths, and the paper engine 1 + f: the record Doubles, a
--                   parameter of the code that reads fractions, with no law assumed of it. A check that returns a rejection from
--                   inside is a value of Judged, and evaluate turns it into a decision. The kill
--                   switch and the end of the cooldown are the state.
--   Reconcile       src/reconcile/: the classifiers of evidence (completeness.ts, feeDisposition.ts,
--                   orderReconciliation.ts, reservationReconciliation.ts), executionCorrelation.ts,
--                   balanceReconciliation.ts, crossDomain.ts (of a manual intent its id and
--                   status) and preTradeGate.ts. A finding keeps its fields; a reason
--                   or a blocker that is a text for the operator is left out or a value. Attribution,
--                   Gate/Needs, Balances/Reported and Classify/QuoteFee describe what an execution,
--                   a finding, a balance and a fee must be without the tests of the code.
--   Execution/Authorization, Session
--                   src/execution/ControlledLiveAuthorization.ts: the capability that lets one test
--                   order reach an exchange, and src/execution/AutonomousLiveSession.ts: the one
--                   that lets orders through up to a budget. The registries of issued scopes are
--                   the state; the token that randomUUID gives is an argument, and a value of
--                   another shape is none.
--   Execution/Recovery
--                   src/execution/recovery.ts: which orders of the exchange prove to be a local one.
--   Execution/Live  src/execution/LiveExecutionEngine.ts, and src/execution/liveHooks.ts as the hooks
--                   that its callers give (Hooks). The state Engine is the order ledger, the managed
--                   portfolio on disk, and what was written and sent so far. What the files, the
--                   exchange and the clock answer during one call is the record Replies
--                   (ReadReplies for recovery), a parameter with no law assumed of it; a read that
--                   throws, a write that fails and an acknowledgement that times out are answers. A
--                   call returns or throws, with the state it leaves, so nothing is undone by a
--                   throw. The lock on the state directory makes submissions follow one another: a
--                   run is a sequence of them, with updates by reconciliation in between.
--   Execution/Paper src/execution/PaperExecutionEngine.ts and PaperExecutionTypes.ts. The state is the
--                   portfolio, the history, the open orders and the restored ids. An open order is
--                   the object that the history holds, so openOrders is a map from ids to places
--                   in the history. A submission that throws leaves the state of that moment.
--   Execution/Monitor
--                   src/execution/LiveOrderMonitor.ts, on the same Engine. What the exchange answers on
--                   each order is a function, so that it may answer anything. A cycle is given the
--                   ledger that it reads first and the state under the lock, which may differ.
--
-- Not modelled: the texts of errors and rejections, fromNumber and toNumber (floating point), and the
-- parts of src/ that no file above names (the engines, exchanges, persistence, the orchestrator of
-- reconciliation, manual intents, strategies, monitoring, the command line and the web pages).
pub mod Common
pub mod Money
pub mod Portfolio
mod Tests
pub mod MarketData
pub mod Risk
pub mod Reconcile
pub mod Execution
