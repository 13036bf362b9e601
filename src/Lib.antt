-- ===== src/Lib.antt =====
-- Verification of the calculation core of the portfolio analytics system.
--
-- The system takes transactions over Kafka, costs them, and derives positions and cashflows from
-- them. Services keep their state in PostgreSQL, publish through a transactional outbox, and
-- replay the history of a position key under a new epoch when a back-dated transaction arrives.
--
-- Parts and files:
-- - Prelude: shared names, tests, lists, sorting, text, integers, keys, and calls that may
-- raise.
-- - Decimal: Python's Decimal as a whole number of smallest units. Sums are exact, as Python's
-- are while they have at most 28 digits, beyond which it rounds them too; products, quotients
-- and the text of a number are an instance (Arith), and IsRounded states what rounding keeps.
-- - Engine: src/libs/financial-calculator-engine/src. Model is core/models and
-- logic/cost_objects.py, Reporter is error_reporter.py, Fifo and Average are the two classes of
-- cost_basis_strategies.py, Disposition is disposition_engine.py, Strategies and Calculator are
-- cost_calculator.py, Sorter is sorter.py, Parser is parser.py, Processor is
-- transaction_processor.py. Behaviour, Invariant, Soundness, Sales and Timeline are proofs.
-- - Events: portfolio_common/events.py in src/libs/portfolio-common, the transaction event.
-- - Positions: src/services/calculators/position_calculator/app and
-- portfolio_common/position_state_repository.py, reprocessing.py. State is the table of epochs
-- and the fence, Logic the pure calculation, Store the tables and queries, Calculator the
-- handler of an event. Running, Recalculation, Epochs and Replay are proofs.
-- - Outbox: portfolio_common/outbox_repository.py and outbox_dispatcher.py. Delivery is proofs.
-- - Messaging: portfolio_common/kafka_consumer.py. What a subclass does with a message is a
-- parameter: the dead letters it sends itself and how it ends, which may differ from one
-- delivery to the next. Sends and Fates are proofs.
-- - TransactionDomain: portfolio_common/transaction_domain. Rules and Metadata are proofs.
-- - Costs: src/services/calculators/cost_calculator_service/app. Repository is repository.py,
-- Consumer is consumer.py, on the engine above. Effects and Once are proofs.
-- - Idempotency: portfolio_common/idempotency_repository.py.
-- - Cashflow: src/services/calculators/cashflow_calculator_service/app. Logic is core, Consumer
-- is consumers and repositories. Signs, Once, Interleaving and Duplicates are proofs.
-- - RateLimit: src/services/ingestion_service/app/ops_controls.py, the write rate limit. Bounds,
-- Deques and Accepted are proofs.
-- - Valuation: src/services/calculators/position_valuation_calculator/app. Scheduler is
-- core/valuation_scheduler.py, the backfill and the watermarks; Contiguous the query for
-- gap-free snapshots with its proofs; Jobs the table of
-- portfolio_common/valuation_job_repository.py and repositories/valuation_repository.py; Tables
-- the other tables and queries; Amounts is logic; Worker is consumers/valuation_consumer.py;
-- Reprocessing is consumers/price_event_consumer.py with the triggers, and ReprocessingWorker is
-- core/reprocessing_worker.py with portfolio_common/reprocessing_job_repository.py. Gaps,
-- Claims, Lifecycle, Settled, Pricing, Snapshots and Rewound are proofs.
-- - Timeseries: src/services/timeseries_generator_service/app. Tables is the queries of
-- repositories/timeseries_repository.py that the calculations read, Position is
-- core/position_timeseries_logic.py and Portfolio is core/portfolio_timeseries_logic.py. Shares
-- and Totals are proofs.
-- - Simulation: src/services/query_service/app. Sessions is
-- repositories/simulation_repository.py and the operations on sessions of
-- services/simulation_service.py, Projection its projected positions and summary. Lifecycle,
-- Quantities and Proposed are proofs.
--
-- How the code is read: a table is a list of rows, a query a filter and a stable sort, and a
-- defaultdict a total function. A mutable object is passed on explicitly. An exception that
-- leaves a call is a value: Outcome in the engine, Result elsewhere; the database transaction of
-- the caller rolls back, so a raised result carries no store. An instant is a number of
-- microseconds and a date an ordinal of the proleptic calendar, 1 for the first date. Loops run
-- over lists, and the consumer loop over the results of its polls; the loop over the dates of a
-- backfill has fuel for one round more than the latest date counts, which is enough as it starts
-- after date zero.
--
-- What is a parameter: pydantic's validation (Engine.Parser.Pydantic), rounding (Arith), the
-- broker of the outbox (Broker), the Kafka client and the subclass of a consumer (Client), the
-- reading of messages by json and pydantic, the text of dates, floating-point numbers (Floats),
-- the order of texts in the database (Collation), and the clock. A database transaction is one
-- step, so that two of them do not interleave; what others do between two is arbitrary where a
-- theorem says so.
--
-- Not modelled: the rounding of Numeric columns, time stamps of rows other than those of the
-- outbox, metrics and logging; of the services, the consumers and the job queue of the
-- timeseries generator, the persistence service, the rest of the query service, the rest of the
-- ingestion service and the Kafka, HTTP and database set-up, which are I/O around parts modelled
-- here or are left out.
pub mod Prelude
pub mod Decimal
pub mod Engine
pub mod Events
pub mod Positions
pub mod Outbox
pub mod Messaging
pub mod TransactionDomain
pub mod Cashflow
pub mod RateLimit
pub mod Valuation
pub mod Idempotency
pub mod Costs
pub mod Simulation
pub mod Timeseries
