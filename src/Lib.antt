-- ===== src/Lib.antt =====
-- A trading backend in Python: strategies emit signals, an allocator decides which of them get
-- capital, risk controls judge each entry, intents and executions record what happens to an
-- order, and one process at a time may act at the broker. The modules here model the parts that
-- decide.
--
-- Lifecycle: backend/app/services/lifecycle_rules.py, with the enums of
--   backend/app/models/trade.py. Lifecycle/IntentState and Lifecycle/ExecutionStatus are the
--   enums, Lifecycle/Intents and Lifecycle/Executions the tables and
--   validate_trade_intent_transition, validate_new_execution_status and
--   validate_execution_transition; a raised error is a value of Lifecycle/Errors, without its
--   text. Lifecycle/Refusals is about the refusals of intents.
-- Leadership: backend/app/services/runtime_leadership_service.py and
--   backend/app/models/runtime_leadership.py. Leadership/Lease is the row and the table,
--   Leadership/Service acquire, renew and release, Leadership/Fence the active leadership of a
--   process and hold_active_runtime_leadership_fence, Leadership/Traces runs of calls by several
--   processes. The database is a parameter: an interface `LeaseTable` whose laws say what INSERT,
--   UPDATE with WHERE and SELECT do on a table with a primary key, one row in the case at hand.
--   Each call is one step, as its one committed statement is in the database. Instants are
--   microseconds in UTC; `_as_utc` then is the choice between an argument and the clock. The
--   fence is modelled up to the moment at which it yields, with the row locked.
-- Allocation: `allocate` of backend/app/services/capital_allocator_service.py with all that
--   decides in it. Allocation/State is the risk book (_build_open_state, _reserve_cycle_state),
--   Allocation/Scoring and Allocation/Planning make a plan of a candidate, Allocation/Ranking
--   drops duplicates and conflicting directions, Allocation/Budgets and Allocation/Sizing decide
--   on a plan, Allocation/Cycle composes them. Allocation/Signals and Allocation/Decision hold
--   the data of backend/app/core/signals.py, backend/app/core/broker.py and the settings of
--   backend/app/core/config.py. Floats are an interface without laws, so nothing proved rests on
--   exact arithmetic. Brokers are a record of functions, where a call that raises is `none`;
--   normalize_order_size is called outside any try block and is taken not to raise; the currency
--   buckets of an instrument (_currency_buckets, a lookup in the catalogue) stand there too. The
--   cycle's id, the current time, the open positions and the reserved intents are arguments (of
--   the intents, list_trade_intents returns at most 250). A defaultdict is a function of its
--   keys. The branch of `allocate` for a missing plan without a rejection is left out, since
--   _prepare_candidate_plan returns exactly one of the two.
-- Risk: `assess_entry` of backend/app/services/portfolio_risk_service.py. Risk/Records holds what
--   the controls read and report, Risk/PreTrade and Risk/Limits the five layers, Risk/Assessment
--   the loop that audits them and the verdict. The session, the runtime manager and the two
--   readings of the clock are a record of the situation; `str.upper` is an argument. Comparisons
--   with `signal_at - seconds` are written as sums, which differ only where Python raises
--   OverflowError.
-- Coverage: backend/app/services/coverage_allocator_service.py, which decides on requests to
--   stream an instrument, with promote_instrument and _upsert_entry of
--   backend/app/services/watchlist_service.py. Coverage/Watchlist is the watchlist,
--   Coverage/Allocator the run over the pending requests, which writes each request where it
--   stands in the table, found by its identifier. Coverage/Rows is about the requests that a run
--   goes through, Coverage/Budget, Coverage/Once and Coverage/Decisions about what it makes of
--   them. The tables are lists of rows, searched in their order; a required domain event is
--   recorded without failing.
-- Trades: the intents of backend/app/services/trade_service.py. Trades/Intent is the row of
--   backend/app/models/trade.py and what a transition writes to it, Trades/Table the table, an
--   interface like that of the leases with the law of the unique index on active instruments,
--   Trades/Service create_trade_intent and transition_trade_intent, Trades/Calls sequences of
--   calls. There sanitize_text of backend/app/core/redaction.py is an argument, and the details
--   map and the audit of events that could not be stored are left out. An IntegrityError is one
--   of the index: the other constraints of the table hold by the types. Trades/Executions models
--   create_execution and transition_execution: Record is the row and what a transition writes,
--   Events the domain events and the mark of one that could not be stored (whether it is stored
--   is an argument), Store the calls, Runs sequences of transitions. Details are redacted there
--   by the model of redaction.py. `list(...)` of the stored audit failures is modelled on lists,
--   which is what the code stores. Trades/Positions are the rows of Position and the operations
--   on them: Store the operations, a stored row named by its identifier and a search giving the
--   first row of a list, Unique sequences of calls. The identifier of a new row and the rounding
--   of a float are arguments; a position that is written is not itself a row of the session.
-- Redaction: backend/app/core/redaction.py, with the key parts of
--   backend/app/core/identifier_policy.py. Redaction/Payload holds the values that are walked
--   through, Redaction/Text the tests on keys, sanitize_text and the masks, Redaction/Sanitize
--   sanitize_payload, Redaction/Hiding what an onlooker learns. The effect of the regular
--   expressions on a text, str.lower, str.strip and str of other values are arguments.
-- Alerts: backend/app/services/allocation_alert_service.py. Alerts/Record is the row of
--   backend/app/models/allocation_alert.py and a candidate for one, Alerts/Candidates
--   _candidate_from_read_model, Alerts/Table the table (with the listings, limits and the unique
--   key of backend/app/services/trade_service.py; a row is named by its key, which the code never
--   rewrites), Alerts/Service the operations, Alerts/Refresh and Alerts/Sync what a refresh does.
--   Of a refresh the model returns the table and not the list of written alerts. The read model's
--   items are the input, the SHA-256 of the key material and isoformat are arguments, and so are
--   the readings of the clock.
-- Orders: _prepare_execution of backend/app/services/strategy_service.py, which decides whether
--   an order is sent, resumed or blocked, and _transition_execution_from_broker_result, which
--   books the broker's answer. Orders/Request is the request and the search for the latest
--   execution of an action in backend/app/services/trade_service.py, Orders/Prepare the call on
--   top of Trades/Executions, Orders/Retry, Orders/Resend and Orders/Review what it answers. The
--   digits of a new request id, readings of the clock and the reading and writing of counts in
--   details are arguments; a required domain event is recorded without failing. Orders/Result is
--   the answer (BrokerOrderResult of backend/app/core/broker.py), Orders/Outcome the booking on
--   top of Trades/Executions and Trades/Service, Orders/Accepted its single moves (with
--   Trades/Held for those of an intent), Orders/Booked where it ends. The details of an intent
--   are left out there as in Trades.
-- Runtimes: the engines and their manager. Runtimes/Strategy is the contract of strategies in
--   backend/app/strategies/base.py, an interface whose methods return and which says nothing of
--   what they answer; Runtimes/Registry is backend/app/strategies/registry.py without the
--   scanners (a constructor that it calls returns a state or raises), Runtimes/Engine
--   backend/app/core/trading_engine.py, Runtimes/Manager backend/app/core/runtime.py.
--   Runtimes/Calls are calls of the manager in any order, with the assignments that the services
--   make to an engine in between, and what they do to the engine of one key; Runtimes/Keys and
--   Runtimes/Lives are about the manager as a map, Runtimes/Answers about what its calls answer,
--   Runtimes/Signals, Runtimes/Owned and Runtimes/Traces about the signals. Positions are opaque
--   and their clones are taken for them; the dictionaries of last prices, instants and errors are
--   lists of entries.
-- Prelude holds the shared names, Boolean tests, lists measured in native numbers, results of
-- fallible code, the first row that a test selects, and a stable insertion sort for Python's
-- `sorted`.
--
-- Every loop of the code runs over a list and is structural recursion, so no fuel is needed.
--
-- Not modelled: texts and detail maps for display, the summaries and audit records that are
-- stored after a cycle, the records of trades, and the parts that report or transport
-- (reconciliation, routes, brokers, streaming, read models, migrations and the user interface).
pub mod Prelude
pub mod Lifecycle
pub mod Leadership
pub mod Allocation
pub mod Risk
pub mod Coverage
pub mod Trades
pub mod Redaction
pub mod Alerts
pub mod Orders
pub mod Runtimes
