-- ===== src/Node.antt =====
-- src/Node.cpp and Node.h: a Sparkplug node, which owns clients and devices.
pub mod World
pub mod Drivers
pub mod Contract
pub mod Runs
pub mod Ledger
pub mod Only
pub mod Sound
pub mod Reach
pub mod Delay
pub mod Begin
pub mod Commands
pub mod Rebirth
pub mod Misrouted
pub mod Delivery
pub mod Setup
pub mod Publishing
pub mod Events
pub mod Topics
pub mod Births
pub mod Loop
pub mod Waiting
pub mod Answers
pub mod Destroying
pub mod BirthOrder
pub mod Total
