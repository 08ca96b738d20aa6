-- ===== src/Schemas.antt =====
-- schemas/: the frozen models of the trust boundary, a module for each file of the source.
pub mod Enums
pub mod Model
pub mod PortfolioHeat
pub mod StrategyStage
pub mod FeedCertification
pub mod TradeIntent
pub mod Concentration
pub mod Liquidity
pub mod Drawdown
pub mod Account
pub mod Instrument
pub mod ContractMetadata
pub mod Protection
pub mod MarketData
pub mod Audit
pub mod OrderTicket
pub mod BrokerSubmission
pub mod PositionState
pub mod ReconciliationState
pub mod KillSwitch
pub mod ReasonText
pub mod StrategyGate
pub mod Approval
pub mod ExecutionResult
pub mod EnumText
