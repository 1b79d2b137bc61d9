-- ===== src/Tests.antt =====
-- The tests: concrete values for the parameters of the model, and the theorems at concrete inputs.
mod Data
mod Values
mod Publishables
mod Queues
mod Connections
mod Nodes
mod Runs
mod Totals
mod Hosts
mod Cpus
mod Mains
mod Commands
mod Rebirths
