-- ===== src/Examples.antt =====
-- Concrete inputs, and runs of the components on them.
mod Data
mod Validation
mod Orders
mod Brokers
mod Positions
mod Operator
mod Store
mod Market
mod Agents
mod Cycle
