-- ===== src/Lib.antt =====
-- Verification library of hermes-personal-options, a trading system for option spreads whose execution
-- path is deterministic code: an agent proposes a spread, and code alone decides, routes, submits
-- and reconciles it.
--
-- The parts and how they interact. A candidate spread and the state of account, market and feeds form
-- a request (gateway/request.py). The gateway (gateway/gateway.py) runs every gate (gateway/gates.py)
-- on it and answers with a validated intent, which carries three tokens, or with a rejection. Routing
-- (gateway/order_routing.py) turns a validated intent into a ticket, with the order type that the
-- emergency state permits. Submission (gateway/broker_submission.py) turns a fresh ticket into an
-- intent with an idempotency key, which a broker (brokers/fake.py, behind the policy of
-- brokers/paper.py) answers with a fill, and the fill becomes an execution report. Reconciliation
-- (gateway/reconciliation.py) compares the positions of the executions with those that the broker
-- reports, and decides whether new entries are allowed. The operator (ops/control_plane.py) halts and
-- resumes new entries and cancels the open orders of a paper broker, over an append-only list. The audit
-- store (storage/) keeps every object as a row, refuses a second attempt with one idempotency key, and
-- gives objects back after a restart. A strategy (strategies/) makes candidates of market data (data/),
-- and an agent (agents/) holds the tools of its role only. The paper cycle (services/paper_cycle.py)
-- composes them, where the configuration (config/app_config.py) arms the paper broker: it stores each
-- step, and stores a submit attempt before the broker is called. The shadow cycle
-- (services/shadow_cycle.py) stops at the ticket.
--
-- The files:
--   Common, Common/*           shared names, tests, lists, dicts, sorts, results, integers and texts
--   Decimal, Decimal/*         decimal.Decimal in its default context: 28 digits, half even
--   Float64                    the float arithmetic of an age in milliseconds
--   Time                       datetimes, in microseconds
--   Schemas/Enums              schemas/enums.py
--   Schemas/Model              schemas/base.py: a model is a record and a test of its checks
--   Schemas/Account, Concentration, ContractMetadata, Drawdown, FeedCertification, Liquidity,
--     MarketData, PortfolioHeat, StrategyStage, TradeIntent, Audit
--                              the files of those names below schemas/ (MarketData is
--                              broker_data_snapshot.py and price_reconciliation.py, Audit is
--                              audit_artifact.py and human_required_event.py)
--   Schemas/Instrument         schemas/instrument.py, entry_window.py, allowed_underlying_policy.py
--   Schemas/Protection         schemas/protection_state.py, event_blackout.py
--   Schemas/OrderTicket        schemas/order_type_policy.py, order_ticket.py
--   Schemas/BrokerSubmission   schemas/broker_submission.py, execution_report.py
--   Schemas/PositionState      schemas/position_state.py
--   Schemas/ReconciliationState  schemas/reconciliation_state.py
--   Gateway/Request, Gates, Validate  gateway/request.py, gates.py, gateway.py
--   Gateway/Codes, Approval, Decision, Faults, Rejection  the proofs on `validate`
--   Gateway/OrderRouting, BrokerSubmission, Reconciliation  the modules of those names below gateway/
--   Brokers/Base, Fake, Paper  brokers/base.py, errors.py, fake.py, paper.py
--   Schemas/KillSwitch, ReasonText  schemas/kill_switch_state.py, and the texts of schemas/enums.py
--   Ops/StatusReport           ops/status_report.py
--   Ops/ControlPlane           ops/control_plane.py
--   Schemas/StrategyGate, Approval, ExecutionResult  schemas/strategy_gate.py; approval_policy.py,
--     risk_payload.py, promotion_drill.py; execution_result.py, daily_rationale.py
--   Schemas/EnumText           the texts of schemas/enums.py, and the members that they name
--   Reports/Records            reports/records.py
--   Storage/Json               JSON values, and the search for secrets of storage/base.py
--   Storage/Models, Rehydrate  storage/models.py, errors.py
--   Storage/Backend, Base      storage/base.py: the primitives as an interface with laws, and the policy
--   Storage/Sqlite             storage/sqlite_store.py, which meets the laws
--   Storage/Rows, Later, Attempts, Provenance, Recovery, SwitchJson  the proofs on the store
--   Data/Base, Fixtures        data/base.py; fixtures.py, calendar_adapter.py,
--     contract_metadata_adapter.py
--   Strategies/Base, Premium, Scoring  strategies/base.py; catastrophe_premium_capture.py and
--     zero_dte_time_decay.py; scoring.py
--   Strategies/Proposals, Ranking  the proofs on the generator and on the ranking
--   Agents/Permissions, Paths, Roles  agents/permissions.py, its guard of write paths, and roles.py
--   Agents/Grants, WriteGuard  the proofs on policies and on the guard
--   Config, Config/Arming      config/app_config.py, and what a configuration can arm
--   Services/Steps             code with a store, a broker and record ids that may raise
--   Services/Paper, PaperCycle  services/paper_cycle.py
--   Services/Accounts, Calls, Sanctions  the proof on the orders of the paper cycle
--   Services/Tally, TallySteps, Endings, Counters, PlainRejection, Counts  the proof on its counters
--   Services/Shadow            services/shadow_cycle.py
--   Services/ShadowRows, ShadowInert  the proof on the shadow cycle
--   Examples/*                 concrete inputs, tests and runs
--
-- Correspondence. An operation has the name of its function; a validator of a model `X` is the test
-- `x_valid`, which also holds the bounds of the fields, and `construct` is the call of the model, with
-- pydantic's ValidationError as an error. What raises returns an error; a broker's state is passed in
-- and out, and an error leaves it as it is. A command of the operator hands back the control plane
-- also where it raises, since it has written its audit artifact by then. Counts that a bound keeps at
-- 0 or more are natural numbers. An isinstance check on an argument is the type of that argument.
-- The rows of the table of SQLite are a list, in which no row is changed, so AUTOINCREMENT counts them.
-- An error of pydantic, a missing key and a bad value are one error of the store, invalid_object. In a
-- cycle, an error ends the run and keeps what was stored and submitted before it. Texts of paths and
-- flags are their code points; a case fold writes out the code points that fold to ASCII.
--
-- Parameters: the zone America/Chicago, and the SHA-256 digests of a request, a ticket and a
-- submission, which are hashes over texts that pydantic makes; the texts of decimals and times, and of
-- a broker's exception; of the store the Codec, which is pydantic, json, hashlib and the parsing of
-- times; and the text of an option symbol. The clock is an argument of each operation.
--
-- Bounds and fuel. The digits of a number are printed with fuel n + 1, which is enough since n / 10
-- is below n. No other definition has fuel. Decimals have 28 digits and no limit on the exponent.
--
-- Not modelled: the texts of exceptions, the parsing of the environment of the paper broker, the guards
-- on direct construction of protected models, export_jsonl and the connection of the store, its
-- read-only view, the heartbeat files of the cycles, the tools of the agents and their boundary,
-- make_xsp_fixture, the market data contracts, replay, and the builders of reports. Of
-- ops, the control plane is modelled without cancel-open-orders, show-positions, show-last-decision and
-- export-audit, and the other files are not. The planned parts among these are named in the manifest.
pub mod Common
pub mod Decimal
pub mod Time
pub mod Float64
pub mod Schemas
pub mod Gateway
pub mod Brokers
pub mod Examples
pub mod Ops
pub mod Reports
pub mod Storage
pub mod Data
pub mod Strategies
pub mod Agents
pub mod Config
pub mod Services
