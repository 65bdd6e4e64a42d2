-- ===== src/Tests.antt =====
-- Runs of the theorems at concrete inputs.
mod Fixtures
mod Runs
mod Entry
mod Queues
mod Sessions
mod Files
mod Gates
mod Agents
mod Wires
mod Hosts
